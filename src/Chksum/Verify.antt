-- ===== src/Chksum/Verify.antt =====
-- inet_chksum over one buffer: what a receiver sees, and how it relates to the chain's checksum.
use my_lwip_poc.Base.{
  ℕ, ◌+◌, ◌/◌, ◌%◌, ◌<◌, ◌≡◌, refl, sym, Bool, List, [], ◌∷◌, ◌++◌, arith, length, ap, ◌∙◌, All,
  All-append, take-length, length-append,
}
use my_lwip_poc.Base.Word.{u16_mod}
use my_lwip_poc.Chksum.{Segment, complement16, inet_chksum, inet_chksum_pbuf}
use my_lwip_poc.Chksum.Spec.{le_sum, ones, AreBytes, ones-mod_u16, le_sum-append_even}
use my_lwip_poc.Chksum.Standard.{standard_chksum-ones}
use my_lwip_poc.Chksum.Chain.{bytes_of, IsPayload, inet_chksum_pbuf-bytes_of}

pub inet_chksum-ones :
    (odd : Bool) (xs : List ℕ)
    → AreBytes xs
    → length xs < u16_mod
    → inet_chksum odd xs (length xs) ≡ complement16 (ones (le_sum xs))
unfolding inet_chksum
inet_chksum-ones odd xs h le =
    rw (take-length xs, standard_chksum-ones odd xs h (omega arith))
      (ap complement16 (ones-mod_u16 _ _ refl))

AreBytes-bytes_of : (p : List Segment) → All IsPayload p → AreBytes (bytes_of p)
AreBytes-bytes_of [] h = tt
AreBytes-bytes_of (q ∷ qs) h =
    All-append (λ b. b < 256) q.payload (bytes_of qs) h.0.0 (AreBytes-bytes_of qs h.1)

-- The checksum of a pbuf chain is that of one buffer holding its bytes, at any address and however
-- the bytes are split into pbufs, for up to 65535 bytes.
pub inet_chksum_pbuf-inet_chksum :
    (odd : Bool) (p : List Segment)
    → All IsPayload p
    → length (bytes_of p) < u16_mod
    → inet_chksum_pbuf p ≡ inet_chksum odd (bytes_of p) (length (bytes_of p))
inet_chksum_pbuf-inet_chksum odd p h le =
    inet_chksum_pbuf-bytes_of p h
    ∙ sym (inet_chksum-ones odd (bytes_of p) (AreBytes-bytes_of p h) le)

-- Adding the complement of a sum makes the sum all ones.
complement-sum : (s : ℕ) → complement16 (ones (s + complement16 (ones s))) ≡ 0
complement-sum s = ground arith

le_sum-field :
    (xs ys : List ℕ) (c : ℕ)
    → length xs % 2 ≡ 0
    → le_sum (xs ++ c % 256 ∷ c / 256 ∷ ys) ≡ le_sum (xs ++ 0 ∷ 0 ∷ ys) + c
le_sum-field xs ys c e =
    omega (
      arith,
      le_sum-append_even xs (c % 256 ∷ c / 256 ∷ ys) e,
      le_sum-append_even xs (0 ∷ 0 ∷ ys) e,
    )

-- A packet whose checksum field, at an even offset, holds the checksum taken with the field zero
-- has checksum zero: what ip_input and icmp_input test.
pub inet_chksum-verify :
    (odd odd' : Bool) (xs ys : List ℕ)
    → AreBytes xs
    → AreBytes ys
    → length xs % 2 ≡ 0
    → length xs + length ys + 2 < u16_mod
    → let n = length xs + length ys + 2 in
      let c = inet_chksum odd (xs ++ 0 ∷ 0 ∷ ys) n in
      inet_chksum odd' (xs ++ c % 256 ∷ c / 256 ∷ ys) n ≡ 0
inet_chksum-verify odd odd' xs ys hx hy e le = go _ sent
  where
    n : ℕ
    n = length xs + length ys + 2

    size : (a b : ℕ) → length (xs ++ a ∷ b ∷ ys) ≡ n
    size a b = omega (arith, length-append xs (a ∷ b ∷ ys))

    sent : inet_chksum odd (xs ++ 0 ∷ 0 ∷ ys) n ≡ complement16 (ones (le_sum (xs ++ 0 ∷ 0 ∷ ys)))
    sent =
        ap (inet_chksum odd (xs ++ 0 ∷ 0 ∷ ys)) (sym (size 0 0))
        ∙ inet_chksum-ones odd _
            (All-append (λ b. b < 256) xs _ hx (omega arith, (omega arith, hy)))
            (omega (arith, size 0 0))

    go :
        (c : ℕ)
        → c ≡ complement16 (ones (le_sum (xs ++ 0 ∷ 0 ∷ ys)))
        → inet_chksum odd' (xs ++ c % 256 ∷ c / 256 ∷ ys) n ≡ 0
    go c q =
        ap (inet_chksum odd' (xs ++ c % 256 ∷ c / 256 ∷ ys)) (sym (size (c % 256) (c / 256)))
        ∙ inet_chksum-ones odd' _
            (All-append (λ b. b < 256) xs _ hx (omega arith, (omega arith, hy)))
            (omega (arith, size (c % 256) (c / 256)))
        ∙ ap (λ s. complement16 (ones s))
            (le_sum-field xs ys c e ∙ ap (λ k. le_sum (xs ++ 0 ∷ 0 ∷ ys) + k) q)
        ∙ complement-sum (le_sum (xs ++ 0 ∷ 0 ∷ ys))
