-- ===== src/Pbuf/Find.antt =====
-- pbuf_memfind and pbuf_strstr on the bytes of the packet.
use my_lwip_poc.Base.{
  ℕ, zero, suc, ◌+◌, ◌-◌, ◌≤◌, ◌<◌, ◌≡◌, ◌≢◌, refl, List, [], ◌∷◌, false, arith, ap, sym, ◌∙◌,
  length, leb, ◌==◌, Bool-cases, inl, inr, ◌⊎◌, leb→le, leb→lt, le→leb, lt→leb, get_or, subst,
  ne→==, ==_of_eq, some,
}
use my_lwip_poc.Base.Word.{u16_mod, add16, sub16}
use my_lwip_poc.Pbuf.{Pbuf}
use my_lwip_poc.Pbuf.Bytes.{bytes, Valid}
use my_lwip_poc.Pbuf.Search.{pbuf_memcmp, find_loop, pbuf_memfind, strlen, pbuf_strstr}
use my_lwip_poc.Pbuf.Compare.{Agrees, Compared, pbuf_memcmp-Compared}

-- A place from `start` on, below the end of the packet, where `mem` stands.
abbrev pub FoundAt : List ℕ → (start : ℕ) → List ℕ → (mem_len r : ℕ) → Type 0
FoundAt b start mem mem_len r = (start ≤ r) × (r + mem_len ≤ length b) × Agrees b r mem mem_len

find_hit :
    (fuel : ℕ) (ps : List Pbuf) (mem : List ℕ) (mem_len max i : ℕ)
    → i ≤ max
    → pbuf_memcmp ps i mem mem_len ≡ 0
    → find_loop (suc fuel) ps mem mem_len max i ≡ some i
unfolding find_loop
find_hit fuel ps mem mem_len max i le e =
    rw (le→leb i max le, ==_of_eq (pbuf_memcmp ps i mem mem_len) 0 e) refl

find_next :
    (fuel : ℕ) (ps : List Pbuf) (mem : List ℕ) (mem_len max i plus : ℕ)
    → i ≤ max
    → pbuf_memcmp ps i mem mem_len ≡ plus
    → plus ≢ 0
    → i + plus < u16_mod
    → find_loop (suc fuel) ps mem mem_len max i ≡ find_loop fuel ps mem mem_len max (i + plus)
unfolding find_loop
find_next fuel ps mem mem_len max i plus le e nz lt =
    let sum : add16 i plus ≡ i + plus = omega arith in
    rw (le→leb i max le, e, ne→== plus 0 nz, sum) refl

find_end :
    (fuel : ℕ) (ps : List Pbuf) (mem : List ℕ) (mem_len max i : ℕ)
    → max < i
    → find_loop (suc fuel) ps mem mem_len max i ≡ some 0xffff
unfolding find_loop
find_end fuel ps mem mem_len max i lt = rw (lt→leb i max lt) refl

module _ (ps : List Pbuf) (mem : List ℕ) (mem_len max : ℕ) (v : Valid ps) (pos : 0 < mem_len)
    (fit : max + mem_len ≡ length (bytes ps)) (small : length (bytes ps) < u16_mod) where
  memcmp_inside :
      (i : ℕ) → i ≤ max → Compared (bytes ps) i mem mem_len (pbuf_memcmp ps i mem mem_len)
  memcmp_inside i le =
      elim (pbuf_memcmp-Compared ps i mem mem_len v (omega arith) (omega arith) (omega arith)) [
        | inl (out, _) ↦ absurd (omega arith)
        | inr (_, c) ↦ c
      ]

  find_loop-FoundAt :
      (fuel start i : ℕ)
      → start ≤ i
      → i < u16_mod
      → max + 1 - i < fuel
      → (r : ℕ) × (find_loop fuel ps mem mem_len max i ≡ some r)
        × ((r ≡ 0xffff) ⊎ FoundAt (bytes ps) start mem mem_len r)
  find_loop-FoundAt zero start i s w f = absurd (omega arith)
  find_loop-FoundAt (suc fuel) start i s w f = elim (Bool-cases (leb i max)) [
    | inr t ↦ (0xffff, find_end fuel ps mem mem_len max i (leb→lt i max t), inl refl)
    | inl t ↦
        let le = leb→le i max t in
        elim (memcmp_inside i le) [
          | inl (z, h) ↦ (i, find_hit fuel ps mem mem_len max i le z, inr (s, omega arith, h))
          | inr (k, lt, e, h, ne) ↦
              let (r, run, found) =
                find_loop-FoundAt fuel start (i + (k + 1)) (omega arith) (omega arith)
                  (omega arith) in
              (
                r,
                find_next fuel ps mem mem_len max i (k + 1) le e (omega arith) (omega arith) ∙ run,
                found,
              )
        ]
  ]

memfind_run :
    (p : Pbuf) (ps : List Pbuf) (mem : List ℕ) (mem_len start max : ℕ)
    → mem_len + start ≤ p.tot_len
    → sub16 p.tot_len mem_len ≡ max
    → pbuf_memfind (p ∷ ps) mem mem_len start ≡ find_loop u16_mod (p ∷ ps) mem mem_len max start
unfolding pbuf_memfind
memfind_run p ps mem mem_len start max le e = rw (le→leb (mem_len + start) p.tot_len le, e) refl

-- When mem_len is not 0, pbuf_memfind ends within its fuel on a valid packet of fewer than 0x10000
-- bytes, and what it returns is 0xffff, or the place of an occurrence inside the packet, from the start offset on.
pub pbuf_memfind-FoundAt :
    (p : Pbuf) (ps : List Pbuf) (mem : List ℕ) (mem_len start : ℕ)
    → Valid (p ∷ ps)
    → 0 < mem_len
    → start < u16_mod
    → (r : ℕ) × (pbuf_memfind (p ∷ ps) mem mem_len start ≡ some r)
      × ((r ≡ 0xffff) ⊎ FoundAt (bytes (p ∷ ps)) start mem mem_len r)
pbuf_memfind-FoundAt p ps mem mem_len start v pos w =
    elim (Bool-cases (leb (mem_len + start) p.tot_len)) [
      | inr t ↦ (0xffff, unfold pbuf_memfind in (rw t refl), inl refl)
      | inl t ↦
          let le = leb→le (mem_len + start) p.tot_len t in
          let (r, run, found) =
            find_loop-FoundAt (p ∷ ps) mem mem_len (p.tot_len - mem_len) v pos (omega (arith, v.1))
              (omega (arith, v.1, v.2)) u16_mod start start (omega arith) w (omega (arith, v.2)) in
          (
            r,
            memfind_run p ps mem mem_len start (p.tot_len - mem_len) le (omega (arith, v.2)) ∙ run,
            found,
          )
    ]

second_differs : (x y r : ℕ) → x ≢ y → Compared (x ∷ x ∷ y ∷ []) 0 (x ∷ y ∷ []) 2 r → r ≡ 2
second_differs x y r ne (inl (z, h)) = absurd (ne (h 1 (omega arith)))
second_differs x y r ne (inr (zero, lt, e, h, d)) = absurd (d refl)
second_differs x y r ne (inr (suc zero, lt, e, h, d)) = e
second_differs x y r ne (inr (suc (suc k), lt, e, h, d)) = absurd (omega arith)

second-Agrees : (x y : ℕ) → Agrees (x ∷ x ∷ y ∷ []) 1 (x ∷ y ∷ []) 2
second-Agrees x y zero lt = refl
second-Agrees x y (suc zero) lt = refl
second-Agrees x y (suc (suc i)) lt = absurd (omega arith)

-- After a difference the search goes on behind it, also where an occurrence has begun before: in a
-- packet of the bytes x, x, y it does not find x, y, which stands there at offset 1.
pub pbuf_memfind-misses :
    (p : Pbuf) (ps : List Pbuf) (x y : ℕ)
    → Valid (p ∷ ps)
    → x ≢ y
    → bytes (p ∷ ps) ≡ x ∷ x ∷ y ∷ []
    → (pbuf_memfind (p ∷ ps) (x ∷ y ∷ []) 2 0 ≡ some 0xffff)
      × FoundAt (bytes (p ∷ ps)) 0 (x ∷ y ∷ []) 2 1
pbuf_memfind-misses p ps x y v ne b =
    let three : length (bytes (p ∷ ps)) ≡ 3 = ap length b in
    let plus : pbuf_memcmp (p ∷ ps) 0 (x ∷ y ∷ []) 2 ≡ 2 =
      second_differs x y (pbuf_memcmp (p ∷ ps) 0 (x ∷ y ∷ []) 2) ne (
        subst (λ l. Compared l 0 (x ∷ y ∷ []) 2 (pbuf_memcmp (p ∷ ps) 0 (x ∷ y ∷ []) 2)) b
          (memcmp_inside (p ∷ ps) (x ∷ y ∷ []) 2 1 v (omega arith) (omega (arith, three))
            (omega (arith, three)) 0 (omega arith))) in
    (
      memfind_run p ps (x ∷ y ∷ []) 2 0 1 (omega (arith, v.1, three)) (omega (arith, v.1, three))
          ∙ find_next 65535 (p ∷ ps) (x ∷ y ∷ []) 2 1 0 2 (omega arith) plus (omega arith)
              (omega arith)
          ∙ find_end 65534 (p ∷ ps) (x ∷ y ∷ []) 2 1 2 (omega arith),
      (
        omega arith,
        omega (arith, three),
        subst (λ l. Agrees l 1 (x ∷ y ∷ []) 2) (sym b) (second-Agrees x y),
      ),
    )

strlen_pos : (s : List ℕ) → (get_or s 0 0 == 0) ≡ false → 0 < strlen s
unfolding strlen
strlen_pos [] e = cc
strlen_pos (c ∷ cs) e = rw e (omega arith)

-- pbuf_strstr ends, and what it returns is 0xffff, or the offset of an occurrence of the text.
pub pbuf_strstr-FoundAt :
    (p : Pbuf) (ps : List Pbuf) (substr : List ℕ)
    → Valid (p ∷ ps)
    → (r : ℕ) × (pbuf_strstr (p ∷ ps) substr ≡ some r)
      × ((r ≡ 0xffff) ⊎ FoundAt (bytes (p ∷ ps)) 0 substr (strlen substr) r)
unfolding pbuf_strstr
pbuf_strstr-FoundAt p ps substr v = elim (Bool-cases (get_or substr 0 0 == 0)) [
  | inl t ↦ (0xffff, rw t refl, inl refl)
  | inr t ↦ elim (Bool-cases (p.tot_len == 0xffff)) [
    | inl u ↦ (0xffff, rw (t, u) refl, inl refl)
    | inr u ↦ elim (Bool-cases (leb 0xffff (strlen substr))) [
      | inl w ↦ (0xffff, rw (t, u, w) refl, inl refl)
      | inr w ↦
          let (r, run, found) =
            pbuf_memfind-FoundAt p ps substr (strlen substr) 0 v (strlen_pos substr t)
              (omega arith) in
          (r, rw (t, u, w) run, found)
    ]
  ]
]
