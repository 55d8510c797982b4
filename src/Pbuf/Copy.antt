-- ===== src/Pbuf/Copy.antt =====
-- pbuf_copy_partial, pbuf_take and pbuf_get_at on the bytes of the packet.
use my_lwip_poc.Base.{
  ℕ, zero, suc, ◌+◌, ◌-◌, ◌≤◌, ◌<◌, ◌≡◌, ◌≢◌, refl, List, [], ◌∷◌, ◌++◌, false, not, ◌&&◌, arith,
  ap, ap₂, sym, ◌∙◌, take, drop, length, length-take, length-drop, length-append, if◌then◌else◌,
  ltb, leb, ◌==◌, ==→ne, ◌⊎◌, ltb→lt, ltb→le, Bool-cases, inl, inr, le→leb, leb→le, leb→lt, ne→==,
  get_or, take-nil, min, some, append-nil,
}
use my_lwip_poc.Base.Word.{u16_mod, add16, sub16}
use my_lwip_poc.Pbuf.{Pbuf, copy_loop, pbuf_copy_partial, pbuf_get_at}
use my_lwip_poc.Pbuf.Bytes.{
  segment, bytes, Valid, length-segment, drop-append_ge, get_or-append_lt, get_or-append_ge,
  get_or-take, stretch_inside, stretch_across,
}

-- The byte at an offset, or 0 behind the end of the packet.
pub pbuf_get_at-bytes :
    (ps : List Pbuf) (offset : ℕ)
    → Valid ps
    → offset < u16_mod
    → pbuf_get_at ps offset ≡ get_or (bytes ps) offset 0
unfolding pbuf_get_at
pbuf_get_at-bytes [] offset v o = refl
pbuf_get_at-bytes (p ∷ ps) offset v o =
    let seg = length-segment p v.0 in
    elim (Bool-cases (leb p.len offset)) [
      | inl t ↦
          let le = leb→le p.len offset t in
          let e : sub16 offset p.len ≡ offset - length (segment p) = omega (arith, seg) in
          rw (t, e, pbuf_get_at-bytes ps (offset - length (segment p)) v.3 (omega arith))
            (sym (get_or-append_ge (segment p) (bytes ps) offset 0 (omega (arith, seg))))
      | inr t ↦
          let lt = leb→lt p.len offset t in
          rw t (
            sym (
              get_or-append_lt (segment p) (bytes ps) offset 0 (omega (arith, seg))
              ∙ get_or-take p.len p.payload offset 0 lt))
    ]

-- The bytes that are copied, and `copied_total` behind them.
abbrev counted : ℕ → List ℕ → List ℕ × ℕ
counted total xs = (xs, total + length xs)

copy_skip :
    (p : Pbuf) (ps : List Pbuf) (len offset total : ℕ)
    → len ≢ 0
    → offset ≢ 0
    → p.len ≤ offset
    → copy_loop (p ∷ ps) len offset total ≡ copy_loop ps len (sub16 offset p.len) total
unfolding copy_loop
copy_skip p ps len offset total nz oz le =
    rw (ne→== len 0 nz, ne→== offset 0 oz, le→leb p.len offset le) refl

copy_part :
    (p : Pbuf) (ps : List Pbuf) (len offset total n : ℕ) (r : List ℕ × ℕ)
    → len ≢ 0
    → (not (offset == 0) && leb p.len offset) ≡ false
    → (if ltb len (sub16 p.len offset) then len else sub16 p.len offset) ≡ n
    → copy_loop ps (sub16 len n) 0 (add16 total n) ≡ r
    → copy_loop (p ∷ ps) len offset total ≡ (take n (drop offset p.payload) ++ r.0, r.1)
unfolding copy_loop
copy_part p ps len offset total n r nz t e ih = rw (ne→== len 0 nz, t, e, ih) refl

copy_none : (ps : List Pbuf) (offset total : ℕ) → copy_loop ps 0 offset total ≡ ([], total)
unfolding copy_loop
copy_none [] offset total = refl
copy_none (p ∷ ps) offset total = refl

skip_cases :
    (offset len : ℕ)
    → ((offset ≢ 0) × (len ≤ offset))
      ⊎ (((not (offset == 0) && leb len offset) ≡ false) × (offset ≤ len))
skip_cases offset len = elim (Bool-cases (leb len offset)) [
  | inl t ↦ elim (Bool-cases (offset == 0)) [
    | inl e ↦ inr (rw e refl, ground arith)
    | inr e ↦ inl (==→ne offset 0 e, leb→le len offset t)
  ]
  | inr t ↦ inr (ground arith, omega (arith, leb→lt len offset t))
]

counted-append :
    (total n : ℕ) (xs ys zs : List ℕ)
    → length xs ≡ n
    → total + n < u16_mod
    → zs ≡ xs ++ ys
    → ◌≡◌ {A = List ℕ × ℕ} (xs ++ ys, add16 total n + length ys) (counted total zs)
counted-append total n xs ys zs e lt f =
    ap₂ (λ (a : List ℕ) (b : ℕ). (a, b)) (sym f)
      (omega (arith, e, length-append {0} xs ys, ap length f))

drop-nil : (n : ℕ) → drop {A = ℕ} n [] ≡ []
drop-nil zero = refl
drop-nil (suc n) = refl

-- One pbuf from which `n` bytes are copied, and then the others.
copy_one :
    (p : Pbuf) (ps : List Pbuf) (len offset total n : ℕ)
    → len ≢ 0
    → p.len ≤ length p.payload
    → (not (offset == 0) && leb p.len offset) ≡ false
    → (if ltb len (sub16 p.len offset) then len else sub16 p.len offset) ≡ n
    → offset + n ≤ p.len
    → total + n < u16_mod
    → copy_loop ps (sub16 len n) 0 (add16 total n)
      ≡ counted (add16 total n) (take (sub16 len n) (bytes ps))
    → take len (drop offset (bytes (p ∷ ps)))
      ≡ take n (drop offset p.payload) ++ take (sub16 len n) (bytes ps)
    → copy_loop (p ∷ ps) len offset total ≡ counted total (take len (drop offset (bytes (p ∷ ps))))
copy_one p ps len offset total n nz room f e le lt ih stretch =
    copy_part p ps len offset total n _ nz f e ih
    ∙ counted-append total n (take n (drop offset p.payload)) (take (sub16 len n) (bytes ps)) _
        (omega (arith, length-take n (drop offset p.payload), length-drop offset p.payload)) lt
        stretch

copy_loop-bytes :
    (ps : List Pbuf) (len offset total : ℕ)
    → Valid ps
    → offset < u16_mod
    → total + len < u16_mod
    → copy_loop ps len offset total ≡ counted total (take len (drop offset (bytes ps)))
copy_loop-bytes [] len offset total v o t =
    let e : take len (drop offset []) ≡ [] = ap (take len) (drop-nil offset) ∙ take-nil len in
    unfold copy_loop in (rw e (ap (λ k. ([], k)) (omega arith)))
copy_loop-bytes (p ∷ ps) zero offset total v o t =
    copy_none (p ∷ ps) offset total ∙ ap (λ k. ([], k)) (omega arith)
copy_loop-bytes (p ∷ ps) (suc len) offset total v o t =
    let seg = length-segment p v.0 in
    let wide : p.len < u16_mod =
      omega (arith, seg, v.1, v.2, length-append {0} (segment p) (bytes ps)) in
    elim (skip_cases offset p.len) [
      | inl (oz, le) ↦
          let e : sub16 offset p.len ≡ offset - length (segment p) = omega (arith, seg) in
          copy_skip p ps (suc len) offset total (omega arith) oz le
          ∙ ap (λ k. copy_loop ps (suc len) k total) e
          ∙ copy_loop-bytes ps (suc len) (offset - length (segment p)) total v.3 (omega arith) t
          ∙ ap (λ xs. counted total (take (suc len) xs))
              (sym (drop-append_ge offset (segment p) (bytes ps) (omega (arith, seg))))
      | inr (f, le) ↦ elim (Bool-cases (ltb (suc len) (sub16 p.len offset))) [
        | inl b ↦
            let z : ◌≡◌ {A = ℕ} 0 (sub16 (suc len) (suc len)) = omega arith in
            copy_one p ps (suc len) offset total (suc len) (omega arith) v.0 f (rw b refl)
              (omega (arith, ltb→lt _ _ b)) t
              (copy_loop-bytes ps (sub16 (suc len) (suc len)) 0 (add16 total (suc len)) v.3
                (omega arith) (omega arith))
              (stretch_inside (suc len) offset p.len p.payload (bytes ps)
                  (omega (arith, ltb→lt _ _ b)) v.0
                ∙ sym (append-nil (take (suc len) (drop offset p.payload)))
                ∙ ap (λ k. take (suc len) (drop offset p.payload) ++ take k (bytes ps)) z)
        | inr b ↦
            let ge = ltb→le (suc len) (sub16 p.len offset) b in
            copy_one p ps (suc len) offset total (p.len - offset) (omega arith) v.0 f
              (rw b (omega arith)) (omega arith) (omega arith)
              (copy_loop-bytes ps (sub16 (suc len) (p.len - offset)) 0
                (add16 total (p.len - offset)) v.3 (omega arith) (omega arith))
              (stretch_across (suc len) offset p.len p.payload (bytes ps) le (omega arith) v.0
                ∙ ap (λ k. take (p.len - offset) (drop offset p.payload) ++ take k (bytes ps))
                    (omega arith))
      ]
    ]

-- pbuf_copy_partial writes the `len` bytes of the packet from `offset` on, or those that there are,
-- and returns their number.
pub pbuf_copy_partial-bytes :
    (p : Pbuf) (ps : List Pbuf) (len offset : ℕ)
    → Valid (p ∷ ps)
    → len < u16_mod
    → offset < u16_mod
    → pbuf_copy_partial (p ∷ ps) len offset
      ≡ some (take len (drop offset (bytes (p ∷ ps))), min len (length (bytes (p ∷ ps)) - offset))
unfolding pbuf_copy_partial
pbuf_copy_partial-bytes p ps len offset v l o =
    let b = bytes (p ∷ ps) in
    ap some (
      copy_loop-bytes (p ∷ ps) len offset 0 v o (omega arith)
      ∙ ap (λ k. (take len (drop offset b), k))
          (omega (arith, length-take len (drop offset b), length-drop offset b)))
