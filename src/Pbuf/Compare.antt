-- ===== src/Pbuf/Compare.antt =====
-- pbuf_memcmp on the bytes of the packet.
use my_lwip_poc.Base.{
  ℕ, zero, suc, ◌+◌, ◌-◌, ◌≤◌, ◌<◌, ◌≡◌, ◌≢◌, refl, List, [], ◌∷◌, arith, ap, sym, ◌∙◌, length, ltb,
  leb, ◌==◌, Bool-cases, inl, inr, ◌⊎◌, leb→le, leb→lt, ltb→lt, ltb→le, get_or, subst,
  length-append, ==→ne, ==_iff,
}
use my_lwip_poc.Base.Word.{u16_mod, add16, sub16}
use my_lwip_poc.Pbuf.{Pbuf}
use my_lwip_poc.Pbuf.Bytes.{segment, bytes, Valid, length-segment, get_or-append_ge}
use my_lwip_poc.Pbuf.Copy.{pbuf_get_at-bytes}
use my_lwip_poc.Pbuf.Search.{skip_to, cmp_loop, compare_from, pbuf_memcmp}

-- The first `n` bytes of `s2` stand in `b` from `offset` on, where 0 is read behind the end.
abbrev pub Agrees : List ℕ → (offset : ℕ) → List ℕ → (n : ℕ) → Type 0
Agrees b offset s2 n = (i : ℕ) → i < n → get_or b (offset + i) 0 ≡ get_or s2 i 0

-- What a comparison of `n` bytes finds: they agree, or the place of the first difference.
abbrev pub Compared : List ℕ → (offset : ℕ) → List ℕ → (n r : ℕ) → Type 0
Compared b offset s2 n r =
    ((r ≡ 0) × Agrees b offset s2 n)
    ⊎ ((k : ℕ) × (k < n)
        × (r ≡ k + 1)
        × Agrees b offset s2 k
        × (get_or b (offset + k) 0 ≢ get_or s2 k 0))

Agrees-suc :
    (b : List ℕ) (offset : ℕ) (s2 : List ℕ) (n : ℕ)
    → Agrees b offset s2 n
    → get_or b (offset + n) 0 ≡ get_or s2 n 0
    → Agrees b offset s2 (n + 1)
Agrees-suc b offset s2 n h e i lt = elim (Bool-cases (ltb i n)) [
  | inl t ↦ h i (ltb→lt i n t)
  | inr t ↦
      let same : i ≡ n = omega (arith, ltb→le i n t) in
      subst (λ j. get_or b (offset + j) 0 ≡ get_or s2 j 0) (sym same) e
]

cmp_loop-Compared :
    (q : List Pbuf) (start : ℕ) (s2 : List ℕ) (todo i n : ℕ)
    → Valid q
    → start + n ≤ u16_mod
    → n < u16_mod
    → i + todo ≡ n
    → Agrees (bytes q) start s2 i
    → Compared (bytes q) start s2 n (cmp_loop q start s2 todo i)
unfolding cmp_loop
cmp_loop-Compared q start s2 zero i n v w s e h =
    inl (refl, subst (Agrees (bytes q) start s2) (omega arith) h)
cmp_loop-Compared q start s2 (suc todo) i n v w s e h =
    let sum : add16 start i ≡ start + i = omega arith in
    let next : add16 i 1 ≡ i + 1 = omega arith in
    let at = pbuf_get_at-bytes q (start + i) v (omega arith) in
    elim (Bool-cases (get_or (bytes q) (start + i) 0 == get_or s2 i 0)) [
      | inl t ↦
          let same = (==_iff (get_or (bytes q) (start + i) 0) (get_or s2 i 0)).0 t in
          rw (sum, at, t, next)
            (cmp_loop-Compared q start s2 todo (i + 1) n v w s (omega arith)
              (Agrees-suc (bytes q) start s2 i h same))
      | inr t ↦
          rw (sum, at, t)
            (inr
              (i, omega arith, next, h, ==→ne (get_or (bytes q) (start + i) 0) (get_or s2 i 0) t))
    ]

-- The pbuf from which the comparison starts: the same bytes follow.
abbrev Skipped : List Pbuf → ℕ → List Pbuf × ℕ → Type 0
Skipped ps offset r =
    ((length (bytes ps) ≤ offset) × (r.0 ≡ []))
    ⊎ ((offset < length (bytes ps))
        × ((q : Pbuf) × (qs : List Pbuf) × (r.0 ≡ q ∷ qs)
            × Valid (q ∷ qs)
            × (r.1 ≤ offset)
            × ((i : ℕ) → get_or (bytes (q ∷ qs)) (r.1 + i) 0 ≡ get_or (bytes ps) (offset + i) 0)))

skip_to-Skipped :
    (ps : List Pbuf) (offset : ℕ)
    → Valid ps
    → offset < u16_mod
    → Skipped ps offset (skip_to ps offset)
unfolding skip_to
skip_to-Skipped [] offset v o = inl (omega arith, refl)
skip_to-Skipped (p ∷ ps) offset v o =
    let seg = length-segment p v.0 in
    let both = length-append (segment p) (bytes ps) in
    elim (Bool-cases (leb p.len offset)) [
      | inl t ↦
          let le = leb→le p.len offset t in
          let e : sub16 offset p.len ≡ offset - p.len = omega arith in
          let shift : (i : ℕ)
              → get_or (bytes ps) (offset - p.len + i) 0 ≡ get_or (bytes (p ∷ ps)) (offset + i) 0 =
            λ i.
              ap (λ j. get_or (bytes ps) j 0) (omega (arith, seg))
              ∙ sym (get_or-append_ge (segment p) (bytes ps) (offset + i) 0 (omega (arith, seg))) in
          rw (t, e)
            (elim (skip_to-Skipped ps (offset - p.len) v.3 (omega arith)) [
              | inl (short, d) ↦ inl (omega (arith, seg, both), d)
              | inr (long, (q, qs, d, w, less, same)) ↦
                  inr (omega (arith, seg, both), (q, qs, d, w, omega arith, λ i. same i ∙ shift i))
            ])
      | inr t ↦
          let lt = leb→lt p.len offset t in
          rw t (inr (omega (arith, seg, both), (p, ps, refl, v, omega arith, λ i. refl)))
    ]

-- A comparison, read from another list of bytes that agrees with the first, and another result.
Compared-move :
    (b c : List ℕ) (k l : ℕ) (s2 : List ℕ) (n r t : ℕ)
    → ((i : ℕ) → get_or b (k + i) 0 ≡ get_or c (l + i) 0)
    → t ≡ r
    → Compared b k s2 n r
    → Compared c l s2 n t
Compared-move b c k l s2 n r t same e (inl (z, h)) = inl (e ∙ z, λ i lt. sym (same i) ∙ h i lt)
Compared-move b c k l s2 n r t same e (inr (j, lt, z, h, ne)) =
    inr (j, lt, e ∙ z, (λ i le. sym (same i) ∙ h i le), λ d. ne (same j ∙ d))

-- On a valid packet, with offset + n of at most 65536: pbuf_memcmp returns 0xffff when the offset is
-- not inside the packet. Else it returns 0 when the `n` bytes agree, and one more than the place of the first difference when they do not, where behind
-- the end of the packet 0 is read.
pub pbuf_memcmp-Compared :
    (ps : List Pbuf) (offset : ℕ) (s2 : List ℕ) (n : ℕ)
    → Valid ps
    → n < u16_mod
    → offset + n ≤ u16_mod
    → offset < u16_mod
    → ((length (bytes ps) ≤ offset) × (pbuf_memcmp ps offset s2 n ≡ 0xffff))
      ⊎ ((offset < length (bytes ps))
          × Compared (bytes ps) offset s2 n (pbuf_memcmp ps offset s2 n))
unfolding pbuf_memcmp compare_from
pbuf_memcmp-Compared ps offset s2 n v l w o = elim (skip_to-Skipped ps offset v o) [
  | inl (short, d) ↦ inl (short, ap (λ l. compare_from (l, (skip_to ps offset).1) s2 n) d)
  | inr (long, (q, qs, d, w', less, same)) ↦
      let start = (skip_to ps offset).1 in
      inr (
        long,
        Compared-move (bytes (q ∷ qs)) (bytes ps) start offset s2 n _ _ same
            (ap (λ l. compare_from (l, start) s2 n) d)
            (cmp_loop-Compared (q ∷ qs) start s2 n 0 n w' (omega arith) l (omega arith)
              (λ i lt. absurd (omega arith))),
      )
]
