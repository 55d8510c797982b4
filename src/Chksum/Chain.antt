-- ===== src/Chksum/Chain.antt =====
-- The checksums over pbuf chains are those of the bytes laid end to end.
use my_lwip_poc.Base.{
  ℕ, ◌+◌, ◌*◌, ◌%◌, ◌<◌, ◌≡◌, refl, Bool, true, false, List, [], ◌∷◌, ◌++◌, arith, length, ap,
  append_assoc, append-nil, length-append, inl, inr, ◌==◌, not, if◌then◌else◌, Bool-cases, All, ◌∙◌,
}
use my_lwip_poc.Base.Word.{u16_mod}
use my_lwip_poc.Chksum.{
  Segment, swap_bytes, chksum_step, chksum_chain, unswap, complement16, inet_chksum_pbuf,
}
use my_lwip_poc.Chksum.Spec.{
  le_sum, ones, AreBytes, ones-congruent, ones-mod_u16, swap_bytes-ones_mul, fold_u32-ones,
  le_sum-append_even, le_sum-append_odd,
}
use my_lwip_poc.Chksum.Standard.{standard_chksum-ones}

abbrev weight : Bool → ℕ
weight false = 1
weight true = 256

-- What the loop keeps after the bytes `xs`: `swapped` tells whether their number is odd, and then
-- the bytes of `acc` stand the other way round.
pub record IsSum (xs : List ℕ) (s : ℕ × Bool) : Type 0 where
  pub parity : s.1 ≡ not (length xs % 2 == 0)
  pub sum : s.0 ≡ ones (weight s.1 * le_sum xs)

-- The sum of the bytes so far, from the sum before the last pbuf, in each of the four cases.
even_even :
    (xs ys : List ℕ)
    → length xs % 2 ≡ 0
    → ones (1 * le_sum xs + le_sum ys) ≡ ones (1 * le_sum (xs ++ ys))
even_even xs ys e = ap ones (omega (arith, le_sum-append_even xs ys e))

even_odd :
    (xs ys : List ℕ)
    → length xs % 2 ≡ 0
    → swap_bytes (ones (1 * le_sum xs + le_sum ys)) ≡ ones (256 * le_sum (xs ++ ys))
even_odd xs ys e = swap_bytes-ones_mul _ ∙ ap ones (omega (arith, le_sum-append_even xs ys e))

odd_even :
    (xs ys : List ℕ)
    → length xs % 2 ≡ 1
    → ones (256 * le_sum xs + le_sum ys) ≡ ones (256 * le_sum (xs ++ ys))
odd_even xs ys e =
    let (k, le, q) = le_sum-append_odd xs ys e in
    ones-congruent _ _ (le_sum ys) (256 * k) (omega arith) (λ z. omega arith) (λ z. omega arith)

odd_odd :
    (xs ys : List ℕ)
    → length xs % 2 ≡ 1
    → swap_bytes (ones (256 * le_sum xs + le_sum ys)) ≡ ones (1 * le_sum (xs ++ ys))
odd_odd xs ys e =
    let (k, le, q) = le_sum-append_odd xs ys e in
    swap_bytes-ones_mul _
    ∙ ones-congruent _ _ 0 (k + le_sum xs) (omega arith) (λ z. omega arith) (λ z. omega arith)

is_odd→mod : (n : ℕ) (b : Bool) → b ≡ not (n % 2 == 0) → n % 2 ≡ (if b then 1 else 0)
is_odd→mod n b h = ground arith

mod→is_odd : (n : ℕ) (b : Bool) → n % 2 ≡ (if b then 1 else 0) → b ≡ not (n % 2 == 0)
mod→is_odd n b h = ground arith

parity-append :
    (xs ys : List ℕ) (b c : Bool)
    → b ≡ not (length xs % 2 == 0)
    → c ≡ not (length ys % 2 == 0)
    → (if c then not b else b) ≡ not (length (xs ++ ys) % 2 == 0)
parity-append xs ys b c p q =
    rw (length-append xs ys)
      (ground (arith, is_odd→mod (length xs) b p, is_odd→mod (length ys) c q))

IsSum-next :
    (xs ys : List ℕ) (acc : ℕ) (swapped : Bool)
    → swapped ≡ not (length xs % 2 == 0)
    → acc ≡ ones (weight swapped * le_sum xs + le_sum ys)
    → IsSum
        (xs ++ ys)
        (if length ys % 2 == 0 then (acc, swapped) else (swap_bytes acc, not swapped))
IsSum-next xs ys acc false p a = elim (Bool-cases (length ys % 2 == 0)) [
  | inl e ↦ rw e (record {
    parity = parity-append xs ys false false p (rw e);
    sum = a ∙ even_even xs ys (is_odd→mod _ _ p);
  })
  | inr e ↦ rw e (record {
    parity = parity-append xs ys false true p (rw e);
    sum = ap swap_bytes a ∙ even_odd xs ys (is_odd→mod _ _ p);
  })
]
IsSum-next xs ys acc true p a = elim (Bool-cases (length ys % 2 == 0)) [
  | inl e ↦ rw e (record {
    parity = parity-append xs ys true false p (rw e);
    sum = a ∙ odd_even xs ys (is_odd→mod _ _ p);
  })
  | inr e ↦ rw e (record {
    parity = parity-append xs ys true true p (rw e);
    sum = ap swap_bytes a ∙ odd_odd xs ys (is_odd→mod _ _ p);
  })
]

pub IsSum-step :
    (xs ys : List ℕ) (s : ℕ × Bool) (chk : ℕ)
    → chk ≡ ones (le_sum ys)
    → IsSum xs s
    → IsSum (xs ++ ys) (chksum_step s chk (length ys))
unfolding chksum_step
IsSum-step xs ys (acc, swapped) chk e v =
    IsSum-next xs ys _ swapped v.parity (rw (v.sum, e) (fold_u32-ones _ _))

pub unswap-ones : (xs : List ℕ) (s : ℕ × Bool) → IsSum xs s → unswap s ≡ ones (le_sum xs)
unfolding unswap
unswap-ones xs (acc, false) v = v.sum ∙ ap ones (omega arith)
unswap-ones xs (acc, true) v =
    ap swap_bytes v.sum
    ∙ swap_bytes-ones_mul _
    ∙ ones-congruent _ _ 0 (le_sum xs) (omega arith) (λ z. omega arith) (λ z. omega arith)

-- The bytes of a chain, end to end.
abbrev pub bytes_of : List Segment → List ℕ
bytes_of [] = []
bytes_of (q ∷ qs) = q.payload ++ bytes_of qs

-- What each pbuf of a chain satisfies: `len` is a u16_t.
abbrev pub IsPayload : Segment → Type 0
IsPayload q = AreBytes q.payload × (length q.payload < u16_mod)

pub IsSum-chain :
    (xs : List ℕ) (s : ℕ × Bool) (qs : List Segment)
    → All IsPayload qs
    → IsSum xs s
    → IsSum (xs ++ bytes_of qs) (chksum_chain s qs)
unfolding chksum_chain
IsSum-chain xs s [] h v = rw (append-nil xs) v
IsSum-chain xs s (q ∷ qs) h v = rw (← append_assoc xs q.payload (bytes_of qs)) (
    IsSum-chain (xs ++ q.payload) _ qs h.1
      (IsSum-step xs q.payload s _ (standard_chksum-ones q.odd q.payload h.0.0 (omega arith)) v))

pub IsSum-nil : IsSum [] (0, false)
IsSum-nil = record { parity = refl; sum = refl }

pub inet_chksum_pbuf-bytes_of :
    (p : List Segment)
    → All IsPayload p
    → inet_chksum_pbuf p ≡ complement16 (ones (le_sum (bytes_of p)))
unfolding inet_chksum_pbuf
inet_chksum_pbuf-bytes_of p h =
    rw
      (unswap-ones (bytes_of p) (chksum_chain (0, false) p)
        (IsSum-chain [] (0, false) p h IsSum-nil))
      (ap complement16 (ones-mod_u16 _ _ refl))
