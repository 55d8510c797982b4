-- ===== src/Mem/Plug.antt =====
-- plug_holes on the list of blocks.
use my_lwip_poc.Base.{
  ℕ, ◌≤◌, ◌≡◌, refl, Bool, true, false, List, [], ◌∷◌, ◌++◌, not, inl, inr, arith, ap, sym, ◌∙◌,
  ne→==, ==_refl, ◌==◌, subst, append_assoc, append-nil, Bool-cases, ◌≢◌,
}
use my_lwip_poc.Mem.{
  mem_size_aligned, Header, header, Ram, Heap, write, set_next, set_prev, plug_forward,
  plug_backward,
}
use my_lwip_poc.Mem.Blocks.{
  Block, block, start, Seg, Seg-left, lowest, Apart, areas, start-le-stop, Inv,
}
use my_lwip_poc.Mem.Links.{header_at, Seg-join}
use my_lwip_poc.Mem.Views.{
  areas-append, lowest-append, lowest-le-stop, free_after, Apart-left, Apart-right, Apart-append,
  snoc_cases, start-append, free_after-snoc,
}

-- Writes that keep the flag of the header that they change keep all flags.
pub used-write :
    (ram : Ram) (a q x y : ℕ) → (write ram a (header x y (ram a).used) q).used ≡ (ram q).used
used-write ram a q x y = elim (Bool-cases (q == a)) [
  | inl t ↦ let e : q ≡ a = ground arith in rw t (ap (λ k. (ram k).used) (sym e))
  | inr t ↦ rw t
]

used-join :
    (ram : Ram) (p after q : ℕ) → (set_prev (set_next ram p after) after p q).used ≡ (ram q).used
used-join ram p after q =
    used-write (set_next ram p after) after q (set_next ram p after after).next p
    ∙ used-write ram p q after (ram p).prev

module _ (h : Heap) (p n : ℕ) (e : (h.ram p).next ≡ n) where
  plug_forward-used : (h.ram n).used ≡ true → plug_forward h p ≡ h
  unfolding plug_forward
  plug_forward-used u = elim (Bool-cases (p == n)) [ inl t ↦ rw (e, u, t) | inr t ↦ rw (e, u, t) ]

  plug_forward-free :
      (h.ram n).used ≡ false
      → p ≢ n
      → n ≢ mem_size_aligned
      → h.lfree ≢ n
      → plug_forward h p
        ≡ record h { ram = set_prev (set_next h.ram p (h.ram n).next) (h.ram n).next p }
  unfolding plug_forward
  plug_forward-free u ne ne' low = rw (e, u, ne→== _ _ ne, ne→== _ _ ne', ne→== _ _ low)

module _ (h : Heap) (p a : ℕ) (e : (h.ram p).prev ≡ a) where
  plug_backward-used : (h.ram a).used ≡ true → plug_backward h p ≡ h
  unfolding plug_backward
  plug_backward-used u = elim (Bool-cases (a == p)) [ inl t ↦ rw (e, u, t) | inr t ↦ rw (e, u, t) ]

  plug_backward_self : a ≡ p → plug_backward h p ≡ h
  unfolding plug_backward
  plug_backward_self q = rw (e, q, ==_refl p)

  plug_backward-free :
      (h.ram a).used ≡ false
      → a ≢ p
      → h.lfree ≢ p
      → plug_backward h p
        ≡ record h { ram = set_prev (set_next h.ram a (h.ram p).next) (h.ram p).next a }
  unfolding plug_backward
  plug_backward-free u ne low = rw (e, u, ne→== _ _ ne, ne→== _ _ low)

-- The heap between the steps of mem_free: `p` is free, and its neighbours may be too.
pub record Freed (h : Heap) (xs : List Block) (p : ℕ) (ys : List Block) : Type 0 where
  pub chain : Seg h.ram 0 mem_size_aligned (xs ++ block p false ∷ ys)
  pub end_used : (h.ram mem_size_aligned).used ≡ true
  pub low : h.lfree ≡ lowest p xs
  pub first : start p xs ≡ 0
  pub before : Apart false xs

Freed-low : (h : Heap) (xs : List Block) (p : ℕ) (ys : List Block) → Freed h xs p ys → h.lfree ≤ p
Freed-low h xs p ys f = omega (
  arith,
  f.low,
  lowest-le-stop h.ram 0 p xs (Seg-left h.ram 0 mem_size_aligned xs (block p false ∷ ys) f.chain),
)

-- What plug_holes leaves behind the block.
abbrev pub Plugged : Heap → List Block → ℕ → List Block → Type 0
Plugged h xs p ys =
    (zs : List Block) × Freed h xs p zs
    × Apart true zs
    × (areas mem_size_aligned zs ≡ areas mem_size_aligned ys)

forward_cons :
    (h : Heap) (xs : List Block) (p : ℕ) (c : Block) (zs : List Block) (u : Bool)
    → c.used ≡ u
    → Freed h xs p (c ∷ zs)
    → Apart (not u) zs
    → Plugged (plug_forward h p) xs p (c ∷ zs)
forward_cons h xs p c zs true u f a =
    let (e, size, al, (e', size', al', rest)) =
      header_at h.ram 0 mem_size_aligned xs (block p false) (c ∷ zs) f.chain in
    (
      c ∷ zs,
      rw
          (plug_forward-used h p c.pos (ap (λ (r : Header). r.next) e)
            (ap (λ (r : Header). r.used) e' ∙ u))
          f,
      (u, rw u a),
      refl,
    )
forward_cons h xs p c zs false u f a =
    let (e, size, al, (e', size', al', rest)) =
      header_at h.ram 0 mem_size_aligned xs (block p false) (c ∷ zs) f.chain in
    let after : ℕ = start mem_size_aligned zs in
    let last = start-le-stop h.ram c.pos mem_size_aligned zs rest in
    let next : (h.ram c.pos).next ≡ after = ap (λ (r : Header). r.next) e' in
    let low = Freed-low h xs p (c ∷ zs) f in
    (
      zs,
      subst (λ g. Freed g xs p zs)
          (sym (
            plug_forward-free h p c.pos (ap (λ (r : Header). r.next) e)
              (ap (λ (r : Header). r.used) e' ∙ u) (omega arith) (omega arith) (omega arith)))
          (record {
            chain = rw next (Seg-join h.ram 0 mem_size_aligned xs p false c zs f.chain);
            end_used = used-join h.ram p (h.ram c.pos).next mem_size_aligned ∙ f.end_used;
            low = f.low;
            first = f.first;
            before = f.before;
          }),
      a,
      rw u,
    )

pub plug_forward-Plugged :
    (h : Heap) (xs : List Block) (p : ℕ) (ys : List Block)
    → Freed h xs p ys
    → Apart false ys
    → Plugged (plug_forward h p) xs p ys
plug_forward-Plugged h xs p [] f a =
    let (e, size, al, rest) = header_at h.ram 0 mem_size_aligned xs (block p false) [] f.chain in
    (
      [],
      rw (plug_forward-used h p mem_size_aligned (ap (λ (r : Header). r.next) e) f.end_used) f,
      tt,
      refl,
    )
plug_forward-Plugged h xs p (c ∷ zs) f a = forward_cons h xs p c zs c.used refl f a.1

-- What mem_free comes to: a valid heap whose areas are those on both sides of the block.
abbrev pub Merged : Heap → List Block → ℕ → List Block → Type 0
Merged h xs p ys =
    (bs : List Block) × Inv h bs
    × (areas mem_size_aligned bs ≡ areas p xs ++ areas mem_size_aligned ys)

-- No merge backward: the block stays where it is.
backward_stays :
    (h : Heap) (xs : List Block) (p : ℕ) (ys : List Block)
    → Freed h xs p ys
    → Apart true ys
    → free_after false xs ≡ false
    → Merged h xs p ys
backward_stays h xs p ys f a u = (
  xs ++ block p false ∷ ys,
  record {
    chain = f.chain;
    first = start-append mem_size_aligned xs (block p false ∷ ys) ∙ f.first;
    end_used = f.end_used;
    lowest_free = f.low ∙ sym (lowest-append mem_size_aligned xs (block p false ∷ ys));
    apart = Apart-append false xs (block p false ∷ ys) f.before (rw u (tt, a));
  },
  areas-append mem_size_aligned xs (block p false ∷ ys),
)

backward_joins :
    (h : Heap) (ws : List Block) (a : Block) (p : ℕ) (ys : List Block)
    → Freed h (ws ++ a ∷ []) p ys
    → Apart true ys
    → a.used ≡ false
    → Merged (plug_backward h p) (ws ++ a ∷ []) p ys
backward_joins h ws a p ys f ap' u =
    let whole =
      subst (Seg h.ram 0 mem_size_aligned) (append_assoc ws (a ∷ []) (block p false ∷ ys))
        f.chain in
    let (e, size, al, (e', size', al', rest)) =
      header_at h.ram 0 mem_size_aligned ws a (block p false ∷ ys) whole in
    let next : (h.ram p).next ≡ start mem_size_aligned ys = ap (λ (r : Header). r.next) e' in
    let below =
      lowest-le-stop h.ram 0 a.pos ws
        (Seg-left h.ram 0 mem_size_aligned ws (a ∷ block p false ∷ ys) whole) in
    let low : h.lfree ≡ lowest a.pos ws = f.low ∙ lowest-append p ws (a ∷ []) ∙ rw u in
    (
      ws ++ a ∷ ys,
      subst (λ g. Inv g (ws ++ a ∷ ys))
          (sym (
            plug_backward-free h p a.pos (ap (λ (r : Header). r.prev) e')
              (ap (λ (r : Header). r.used) e ∙ u) (omega arith) (omega (arith, low, below))))
          (record {
            chain =
                rw next
                  (Seg-join h.ram 0 mem_size_aligned ws a.pos a.used (block p false) ys whole);
            first =
                start-append mem_size_aligned ws (a ∷ ys)
                ∙ sym (start-append p ws (a ∷ []))
                ∙ f.first;
            end_used = used-join h.ram a.pos (h.ram p).next mem_size_aligned ∙ f.end_used;
            lowest_free = low ∙ sym (lowest-append mem_size_aligned ws (a ∷ ys) ∙ rw u);
            apart =
                Apart-append false ws (a ∷ ys) (Apart-left false ws (a ∷ []) f.before)
                  ((Apart-right false ws (a ∷ []) f.before).0, rw u ap');
          }),
      areas-append mem_size_aligned ws (a ∷ ys)
          ∙ rw (areas-append p ws (a ∷ []), u, append-nil (areas a.pos ws)),
    )

backward_snoc :
    (h : Heap) (ws : List Block) (a : Block) (p : ℕ) (ys : List Block) (u : Bool)
    → a.used ≡ u
    → Freed h (ws ++ a ∷ []) p ys
    → Apart true ys
    → Merged (plug_backward h p) (ws ++ a ∷ []) p ys
backward_snoc h ws a p ys false u f ap' = backward_joins h ws a p ys f ap' u
backward_snoc h ws a p ys true u f ap' =
    let whole =
      subst (Seg h.ram 0 mem_size_aligned) (append_assoc ws (a ∷ []) (block p false ∷ ys))
        f.chain in
    let (e, size, al, (e', size', al', rest)) =
      header_at h.ram 0 mem_size_aligned ws a (block p false ∷ ys) whole in
    rw
      (plug_backward-used h p a.pos (ap (λ (r : Header). r.prev) e')
        (ap (λ (r : Header). r.used) e ∙ u))
      (backward_stays h (ws ++ a ∷ []) p ys f ap' (free_after-snoc false ws a ∙ rw u))

backward_nil :
    (h : Heap) (p : ℕ) (ys : List Block)
    → Freed h [] p ys
    → Apart true ys
    → Merged (plug_backward h p) [] p ys
backward_nil h p ys f ap' =
    rw (plug_backward_self h p 0 (ap (λ (r : Header). r.prev) f.chain.0) (sym f.first))
      (backward_stays h [] p ys f ap' refl)

pub plug_backward-Merged :
    (h : Heap) (xs : List Block) (p : ℕ) (ys : List Block)
    → Freed h xs p ys
    → Apart true ys
    → Merged (plug_backward h p) xs p ys
plug_backward-Merged h xs p ys f ap' = elim (snoc_cases xs) [
  | inl e ↦
      subst (λ l. Merged (plug_backward h p) l p ys) (sym e)
        (backward_nil h p ys (subst (λ l. Freed h l p ys) e f) ap')
  | inr (ws, a, e) ↦
      subst (λ l. Merged (plug_backward h p) l p ys) (sym e)
        (backward_snoc h ws a p ys a.used refl (subst (λ l. Freed h l p ys) e f) ap')
]
