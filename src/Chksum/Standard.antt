-- ===== src/Chksum/Standard.antt =====
-- lwip_standard_chksum gives the ones' complement sum, at every alignment.
use my_lwip_poc.Base.{
  ℕ, ◌+◌, ◌*◌, ◌%◌, ◌≤◌, ◌<◌, ◌≡◌, refl, Bool, true, false, List, [], ◌∷◌, arith, length,
}
use my_lwip_poc.Base.Word.{u32_mod}
use my_lwip_poc.Chksum.{sum_words, tail_word, aligned_chksum, standard_chksum}
use my_lwip_poc.Chksum.Spec.{
  le_sum, ones, ones-mod_u16, AreBytes, fold-fold, swap_bytes-ones, le_sum-cons, le_sum-le,
}

-- The loop does not wrap, and with the left-over byte gives the sum of the words.
sum_words-le_sum :
    (s t : ℕ) (bytes : List ℕ)
    → s + le_sum bytes < u32_mod
    → t % 256 ≡ 0
    → (sum_words s bytes).0 + tail_word t (sum_words s bytes).1 ≡ s + t + le_sum bytes
unfolding sum_words
sum_words-le_sum s t [] h z = omega arith
sum_words-le_sum s t (b ∷ []) h z = omega arith
sum_words-le_sum s t (b ∷ c ∷ r) h z =
    omega (arith, sum_words-le_sum ((s + (b + 256 * c)) % u32_mod) t r (omega arith) z)

aligned_chksum-ones :
    (t : ℕ) (bytes : List ℕ)
    → t + le_sum bytes < u32_mod
    → t % 256 ≡ 0
    → aligned_chksum t bytes ≡ ones (t + le_sum bytes)
unfolding aligned_chksum
aligned_chksum-ones t bytes h z =
    ground (arith, sum_words-le_sum 0 t bytes (omega arith) z, fold-fold (t + le_sum bytes) h)

aligned_chksum-nil : aligned_chksum 0 [] ≡ 0
unfolding aligned_chksum
aligned_chksum-nil = refl

-- The checksum routine returns the ones' complement sum of the little-endian words, at an even and
-- at an odd address alike, for at most 0x20000 bytes.
pub standard_chksum-ones :
    (odd : Bool) (bytes : List ℕ)
    → AreBytes bytes
    → length bytes ≤ 0x20000
    → standard_chksum odd bytes ≡ ones (le_sum bytes)
unfolding standard_chksum
standard_chksum-ones true [] h le = rw aligned_chksum-nil
standard_chksum-ones false [] h le = rw aligned_chksum-nil
standard_chksum-ones false (b ∷ bytes) h le =
    rw (aligned_chksum-ones 0 (b ∷ bytes) (omega (arith, le_sum-le (b ∷ bytes) h)) (omega arith))
      (ones-mod_u16 (0 + le_sum (b ∷ bytes)) (le_sum (b ∷ bytes)) (omega arith))
standard_chksum-ones true (b ∷ bytes) h le =
    let (k, bound, e) = le_sum-cons b bytes in
    rw
      (
        aligned_chksum-ones (b * 256) bytes (omega (arith, le_sum-le bytes h.1)) (omega arith),
        swap_bytes-ones (b * 256 + le_sum bytes) (le_sum (b ∷ bytes)) (b + k) (omega arith)
            (λ z. omega arith),
      )
      (ones-mod_u16 _ _ refl)
