-- ===== src/Pbuf/Fill.antt =====
-- pbuf_take on the bytes of the packet.
use my_lwip_poc.Base.{
  ℕ, zero, suc, ◌-◌, ◌≤◌, ◌<◌, ◌≡◌, ◌≢◌, refl, List, [], ◌∷◌, ◌++◌, arith, ap, ap₂, sym, ◌∙◌, take,
  drop, length, length-take, length-drop, length-append, take-append_ge, take-append_le,
  if◌then◌else◌, ltb, Bool-cases, inl, inr, ◌⊎◌, ltb→lt, ltb→le, ne→==, some, append_assoc,
}
use my_lwip_poc.Base.Word.{u16_mod, sub16}
use my_lwip_poc.Pbuf.{Pbuf, take_loop, pbuf_take, err_ok, err_arg}
use my_lwip_poc.Pbuf.Bytes.{
  segment, bytes, Valid, length-segment, drop-append_le, drop-append_ge, take-take, drop-take,
  take-split,
}

-- The first `n` bytes at the payload are overwritten.
abbrev filled : Pbuf → ℕ → List ℕ → Pbuf
filled p n dataptr = record p { payload = take n dataptr ++ drop n p.payload }

-- The same pbufs, with other bytes.
abbrev pub Same : List Pbuf → List Pbuf → Type 0
Same [] [] = Unit
Same [] (q ∷ qs) = ⊥
Same (p ∷ ps) [] = ⊥
Same (p ∷ ps) (q ∷ qs) =
    (q.tot_len ≡ p.tot_len)
    × (q.len ≡ p.len)
    × (length q.payload ≡ length p.payload)
    × (q.kind ≡ p.kind)
    × Same ps qs

Same-self : (ps : List Pbuf) → Same ps ps
Same-self [] = tt
Same-self (p ∷ ps) = (refl, refl, refl, refl, Same-self ps)

segment-filled_all :
    (p : Pbuf) (dataptr : List ℕ)
    → p.len ≤ length dataptr
    → segment (filled p p.len dataptr) ≡ take p.len dataptr
segment-filled_all p dataptr h =
    let e = length-take p.len dataptr in
    take-append_le p.len (take p.len dataptr) (drop p.len p.payload) (omega (arith, e))
    ∙ take-take p.len p.len dataptr (omega arith)

segment-filled_part :
    (p : Pbuf) (n : ℕ) (dataptr : List ℕ)
    → n ≤ p.len
    → n ≤ length dataptr
    → segment (filled p n dataptr) ≡ take n dataptr ++ drop n (segment p)
segment-filled_part p n dataptr h k =
    let e : length (take n dataptr) ≡ n = omega (arith, length-take n dataptr) in
    take-append_ge p.len (take n dataptr) (drop n p.payload) (omega (arith, e))
    ∙ ap (λ j. take n dataptr ++ take (p.len - j) (drop n p.payload)) e
    ∙ ap (◌++◌ (take n dataptr)) (sym (drop-take n p.len p.payload))

length-filled :
    (p : Pbuf) (n : ℕ) (dataptr : List ℕ)
    → n ≤ length dataptr
    → n ≤ length p.payload
    → length (take n dataptr ++ drop n p.payload) ≡ length p.payload
length-filled p n dataptr h k = omega (
  arith,
  length-append (take n dataptr) (drop n p.payload),
  length-take n dataptr,
  length-drop n p.payload,
)

-- What a fill comes to.
abbrev Filled : List Pbuf → List ℕ → ℕ → Type 0
Filled ps dataptr n =
    (qs : List Pbuf) × (take_loop ps dataptr n ≡ some qs)
    × (bytes qs ≡ take n dataptr ++ drop n (bytes ps))
    × Same ps qs

take_loop_end : (ps : List Pbuf) (dataptr : List ℕ) → take_loop ps dataptr 0 ≡ some ps
unfolding take_loop
take_loop_end [] dataptr = refl
take_loop_end (p ∷ ps) dataptr = refl

take_loop_step :
    (p : Pbuf) (ps qs : List Pbuf) (dataptr : List ℕ) (total n : ℕ)
    → total ≢ 0
    → (if ltb p.len total then p.len else total) ≡ n
    → take_loop ps (drop n dataptr) (sub16 total n) ≡ some qs
    → take_loop (p ∷ ps) dataptr total ≡ some (filled p n dataptr ∷ qs)
unfolding take_loop
take_loop_step p ps qs dataptr total n nz e ih = rw (ne→== total 0 nz, e, ih) refl

-- The bytes of a packet whose first segment is overwritten and goes on, or ends, in the middle.
across :
    (k n : ℕ) (xs b dataptr : List ℕ)
    → length xs ≡ k
    → k ≤ n
    → take k dataptr ++ (take (n - k) (drop k dataptr) ++ drop (n - k) b)
      ≡ take n dataptr ++ drop n (xs ++ b)
across k n xs b dataptr e le =
    sym (append_assoc (take k dataptr) (take (n - k) (drop k dataptr)) (drop (n - k) b))
    ∙ ap (λ zs. zs ++ drop (n - k) b) (sym (take-split n k dataptr le))
    ∙ ap (λ j. take n dataptr ++ drop (n - j) b) (sym e)
    ∙ ap (◌++◌ (take n dataptr)) (sym (drop-append_ge n xs b (omega (arith, e))))

inside :
    (n : ℕ) (xs b dataptr : List ℕ)
    → n ≤ length xs
    → (take n dataptr ++ drop n xs) ++ b ≡ take n dataptr ++ drop n (xs ++ b)
inside n xs b dataptr le =
    append_assoc (take n dataptr) (drop n xs) b
    ∙ ap (◌++◌ (take n dataptr)) (sym (drop-append_le n xs b le))

take_loop-bytes :
    (ps : List Pbuf) (dataptr : List ℕ) (total : ℕ)
    → Valid ps
    → total < u16_mod
    → total ≤ length (bytes ps)
    → total ≤ length dataptr
    → Filled ps dataptr total
take_loop-bytes ps dataptr zero v w l d = (ps, take_loop_end ps dataptr, refl, Same-self ps)
take_loop-bytes [] dataptr (suc total) v w l d = absurd (omega arith)
take_loop-bytes (p ∷ ps) dataptr (suc total) v w l d =
    let seg = length-segment p v.0 in
    let both = length-append (segment p) (bytes ps) in
    elim (Bool-cases (ltb p.len (suc total))) [
      | inl t ↦
          let lt = ltb→lt p.len (suc total) t in
          let e : sub16 (suc total) p.len ≡ suc total - p.len = omega arith in
          let (qs, run, b, s) =
            take_loop-bytes ps (drop p.len dataptr) (suc total - p.len) v.3 (omega arith)
              (omega (arith, seg, both)) (omega (arith, length-drop p.len dataptr)) in
          (
            filled p p.len dataptr ∷ qs,
            take_loop_step p ps qs dataptr (suc total) p.len (omega arith) (rw t refl)
                (ap (take_loop ps (drop p.len dataptr)) e ∙ run),
            ap₂ ◌++◌ (segment-filled_all p dataptr (omega arith)) b
                ∙ across p.len (suc total) (segment p) (bytes ps) dataptr seg (omega arith),
            (refl, refl, length-filled p p.len dataptr (omega arith) v.0, refl, s),
          )
      | inr t ↦
          let le = ltb→le p.len (suc total) t in
          let z : sub16 (suc total) (suc total) ≡ 0 = omega arith in
          (
            filled p (suc total) dataptr ∷ ps,
            take_loop_step p ps ps dataptr (suc total) (suc total) (omega arith) (rw t refl) (
                ap (take_loop ps (drop (suc total) dataptr)) z
                ∙ take_loop_end ps (drop (suc total) dataptr)),
            ap (λ zs. zs ++ bytes ps) (segment-filled_part p (suc total) dataptr le d)
                ∙ inside (suc total) (segment p) (bytes ps) dataptr (omega (arith, seg)),
            (
              refl,
              refl,
              length-filled p (suc total) dataptr d (omega (arith, v.0)),
              refl,
              Same-self ps,
            ),
          )
    ]

-- pbuf_take returns ERR_ARG and changes nothing when the packet is shorter than the data. Otherwise
-- it aborts on no assertion, returns ERR_OK, and the first bytes of the packet are the data, the others
-- and the shape of the chain being as they were.
pub pbuf_take-bytes :
    (p : Pbuf) (ps : List Pbuf) (dataptr : List ℕ) (len : ℕ)
    → Valid (p ∷ ps)
    → len < u16_mod
    → len ≤ length dataptr
    → ((p.tot_len < len) × (pbuf_take (p ∷ ps) dataptr len ≡ some (err_arg, p ∷ ps)))
      ⊎ ((len ≤ p.tot_len)
          × ((qs : List Pbuf) × (pbuf_take (p ∷ ps) dataptr len ≡ some (err_ok, qs))
              × (bytes qs ≡ take len dataptr ++ drop len (bytes (p ∷ ps)))
              × Same (p ∷ ps) qs))
unfolding pbuf_take
pbuf_take-bytes p ps dataptr len v w d = elim (Bool-cases (ltb p.tot_len len)) [
  | inl t ↦ inl (ltb→lt p.tot_len len t, rw t refl)
  | inr t ↦
      let le = ltb→le p.tot_len len t in
      let (qs, run, b, s) = take_loop-bytes (p ∷ ps) dataptr len v w (omega (arith, v.1)) d in
      inr (le, (qs, rw (t, run) refl, b, s))
]
