-- ===== src/Chksum/Pseudo.antt =====
-- The checksums with a pseudo header, as TCP and UDP use them.
use my_lwip_poc.Base.{
  ℕ, suc, zero, ◌+◌, ◌-◌, ◌/◌, ◌%◌, ◌≤◌, ◌<◌, ◌≡◌, refl, Bool, false, List, [], ◌∷◌, ◌++◌, arith,
  length, ap, append_assoc, append-nil, inl, inr, ltb, Bool-cases, All, ◌∙◌, some, none, take,
  take-length, take-append_ge, take-append_le, All-take, ltb→lt, ltb→le, lt→ltb, le→ltb, take-nil,
  length-take, Option,
}
use mathlib.Core.Option
use mathlib.Core.Option.{some-injective}
use my_lwip_poc.Base.Word.{u16_mod, u32_mod, sub16, add32}
use my_lwip_poc.Def.{lwip_htons}
use my_lwip_poc.Chksum.{
  Segment, fold_u32, standard_chksum, chksum_step, chksum_chain, unswap, complement16, add_pseudo,
  finish, inet_chksum_pseudo, chksum_partial, inet_chksum_pseudo_partial,
}
use my_lwip_poc.Chksum.Spec.{
  le_sum, ones, ones-add, ones-mod_u16, ones-lt, fold-fold, swap_bytes-swap_bytes, fold_u32-ones,
}
use my_lwip_poc.Chksum.Standard.{standard_chksum-ones}
use my_lwip_poc.Chksum.Chain.{
  IsSum, IsSum-step, IsSum-chain, IsSum-nil, unswap-ones, bytes_of, IsPayload,
}

-- The pseudo header as it would stand in memory, twelve bytes.
abbrev pub pseudo_header : (src dest proto proto_len : ℕ) → List ℕ
pseudo_header src dest proto proto_len =
    src % 256
    ∷ src / 256 % 256
    ∷ src / 65536 % 256
    ∷ src / 16777216
    ∷ dest % 256
    ∷ dest / 256 % 256
    ∷ dest / 65536 % 256
    ∷ dest / 16777216
    ∷ 0
    ∷ proto
    ∷ proto_len / 256
    ∷ proto_len % 256
    ∷ []

module _ (src dest proto proto_len : ℕ) (hs : src < u32_mod) (hd : dest < u32_mod)
    (hp : proto < 256) (hl : proto_len < u16_mod) where
  -- What the pseudo header adds.
  header_sum : ℕ
  header_sum = le_sum (pseudo_header src dest proto proto_len)

  add_pseudo-header_sum :
      (acc : ℕ) → acc < u16_mod → add_pseudo acc src dest proto proto_len ≡ acc + header_sum
  unfolding add_pseudo lwip_htons header_sum
  add_pseudo-header_sum acc h = omega arith

  header_sum-lt : header_sum < 0x80000
  unfolding header_sum
  header_sum-lt = omega arith

  le_sum-header :
      (xs : List ℕ) → le_sum xs + header_sum ≡ le_sum (pseudo_header src dest proto proto_len ++ xs)
  unfolding header_sum
  le_sum-header xs = omega arith

  finish-ones :
      (xs : List ℕ)
      → finish (add_pseudo (ones (le_sum xs)) src dest proto proto_len)
        ≡ complement16 (ones (le_sum (pseudo_header src dest proto proto_len ++ xs)))
  unfolding finish
  finish-ones xs =
      rw
        (
          add_pseudo-header_sum (ones (le_sum xs)) (ones-lt (le_sum xs)),
          fold-fold (ones (le_sum xs) + header_sum)
              (omega (arith, ones-lt (le_sum xs), header_sum-lt)),
          ones-add (le_sum xs) header_sum,
        )
        (ap complement16 (ones-mod_u16 _ _ (le_sum-header xs)))

  -- The checksum of a pbuf chain with its pseudo header is the complemented ones' complement sum of
  -- the pseudo header and the chain's bytes, laid end to end, whatever the segmentation.
  pub inet_chksum_pseudo-bytes_of :
      (p : List Segment)
      → All IsPayload p
      → inet_chksum_pseudo p src dest proto proto_len
        ≡ complement16 (ones (le_sum (pseudo_header src dest proto proto_len ++ bytes_of p)))
  unfolding inet_chksum_pseudo
  inet_chksum_pseudo-bytes_of p h =
      rw
        (unswap-ones (bytes_of p) (chksum_chain (0, false) p)
          (IsSum-chain [] (0, false) p h IsSum-nil))
        (finish-ones (bytes_of p))

-- Whether the last pbuf counts as swapped does not matter.
unswap-chksum_step :
    (s : ℕ × Bool) (chk l l' : ℕ)
    → fold_u32 (add32 s.0 chk) < u16_mod
    → unswap (chksum_step s chk l) ≡ unswap (chksum_step s chk l')
unfolding unswap chksum_step
unswap-chksum_step s chk l l' h = ground (arith, swap_bytes-swap_bytes (fold_u32 (add32 s.0 chk)) h)

chksum_step-lt :
    (xs ys : List ℕ) (s : ℕ × Bool) (chk : ℕ)
    → chk ≡ ones (le_sum ys)
    → IsSum xs s
    → fold_u32 (add32 s.0 chk) < u16_mod
chksum_step-lt xs ys s chk e v = rw (v.sum, e, fold_u32-ones) (ones-lt _)

chksum_partial-zero : (s : ℕ × Bool) (qs : List Segment) → chksum_partial s 0 qs ≡ some s
unfolding chksum_partial
chksum_partial-zero s [] = refl
chksum_partial-zero s (q ∷ qs) = refl

module _ (s : ℕ × Bool) (q : Segment) (qs : List Segment) (n : ℕ) where
  -- The count ends inside `q`.
  partial_last :
      suc n < length q.payload
      → chksum_partial s (suc n) (q ∷ qs)
        ≡ some (chksum_step s (standard_chksum q.odd (take (suc n) q.payload)) (length q.payload))
  unfolding chksum_partial
  partial_last h =
      let e : sub16 (suc n) (suc n) ≡ 0 = omega arith in
      rw (lt→ltb 0 (suc n) (omega arith), lt→ltb (suc n) (length q.payload) h, e)
        (chksum_partial-zero _ qs)

  -- The count takes all of `q`.
  partial_more :
      length q.payload ≤ suc n
      → suc n < 0x7fff
      → chksum_partial s (suc n) (q ∷ qs)
        ≡ chksum_partial
            (chksum_step s (standard_chksum q.odd q.payload) (length q.payload))
            (suc n - length q.payload)
            qs
  unfolding chksum_partial
  partial_more h b =
      let e : sub16 (suc n) (length q.payload) ≡ suc n - length q.payload = omega arith in
      rw (
        lt→ltb 0 (suc n) (omega arith),
        le→ltb (suc n) (length q.payload) h,
        e,
        lt→ltb (suc n - length q.payload) 0x7fff (omega arith),
        take-length q.payload,
      )

-- The loop sums the first `n` bytes of the chain.
chksum_partial-take :
    (xs : List ℕ) (s : ℕ × Bool) (qs : List Segment) (n : ℕ)
    → All IsPayload qs
    → IsSum xs s
    → n < 0x7fff
    → Option.map unswap (chksum_partial s n qs) ≡ some (ones (le_sum (xs ++ take n (bytes_of qs))))
chksum_partial-take xs s [] n h v b =
    rw (take-nil n, append-nil xs) (unfold chksum_partial in ap some (unswap-ones xs s v))
chksum_partial-take xs s (q ∷ qs) zero h v b =
    rw (chksum_partial-zero, append-nil xs) (ap some (unswap-ones xs s v))
chksum_partial-take xs s (q ∷ qs) (suc n) h v b =
    elim (Bool-cases (ltb (suc n) (length q.payload))) [
      | inl t ↦
          let lt = ltb→lt (suc n) (length q.payload) t in
          let ys : List ℕ = take (suc n) q.payload in
          let chk : standard_chksum q.odd ys ≡ ones (le_sum ys) =
            standard_chksum-ones q.odd ys (All-take (λ b. b < 256) (suc n) q.payload h.0.0)
              (omega (arith, length-take (suc n) q.payload)) in
          rw
            (partial_last s q qs n lt, take-append_le (suc n) q.payload (bytes_of qs) (omega arith))
            (ap some (
              unswap-chksum_step s _ (length q.payload) (length ys) (chksum_step-lt xs ys s _ chk v)
              ∙ unswap-ones (xs ++ ys) _ (IsSum-step xs ys s _ chk v)))
      | inr t ↦
          let le = ltb→le (suc n) (length q.payload) t in
          rw
            (
              partial_more s q qs n le b,
              take-append_ge (suc n) q.payload (bytes_of qs) le,
              ← append_assoc xs q.payload (take (suc n - length q.payload) (bytes_of qs)),
            )
            (chksum_partial-take (xs ++ q.payload) _ qs (suc n - length q.payload) h.1
              (IsSum-step xs q.payload s _
                (standard_chksum-ones q.odd q.payload h.0.0 (omega arith)) v)
              (omega arith))
    ]

-- The partial checksum of a chain covers the pseudo header and the first `chksum_len` bytes, if
-- `chksum_len` is below 0x7fff; the pseudo header still names the full length.
pub inet_chksum_pseudo_partial-take :
    (p : List Segment) (src dest proto proto_len chksum_len : ℕ)
    → src < u32_mod
    → dest < u32_mod
    → proto < 256
    → proto_len < u16_mod
    → All IsPayload p
    → chksum_len < 0x7fff
    → inet_chksum_pseudo_partial p src dest proto proto_len chksum_len
      ≡ some (
          complement16 (
            ones (le_sum (pseudo_header src dest proto proto_len ++ take chksum_len (bytes_of p)))))
unfolding inet_chksum_pseudo_partial
inet_chksum_pseudo_partial-take p src dest proto proto_len chksum_len hs hd hp hl h b =
    go (chksum_partial (0, false) chksum_len p)
      (chksum_partial-take [] (0, false) p chksum_len h IsSum-nil b)
  where
    go :
        (o : Option (ℕ × Bool))
        → Option.map unswap o ≡ some (ones (le_sum (take chksum_len (bytes_of p))))
        → Option.map (λ s. finish (add_pseudo (unswap s) src dest proto proto_len)) o
          ≡ some (
              complement16 (
                ones (
                  le_sum (pseudo_header src dest proto proto_len ++ take chksum_len (bytes_of p)))))
    go none e = cc
    go (some s) e =
        let e' : unswap s ≡ ones (le_sum (take chksum_len (bytes_of p))) = some-injective _ _ e in
        rw e' (
          ap some (finish-ones src dest proto proto_len hs hd hp hl (take chksum_len (bytes_of p))))
