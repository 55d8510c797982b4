-- ===== src/Mem/Free.antt =====
-- mem_free on the list of blocks.
use my_lwip_poc.Base.{
  ℕ, ◌+◌, ◌-◌, ◌%◌, ◌≤◌, ◌≡◌, true, false, List, ◌∷◌, ◌++◌, inl, inr, if◌then◌else◌, arith, ap, sym,
  ◌∙◌, ne→==, ==_refl, some, ltb, lt→ltb, le→ltb, le→leb, ==_of_eq, subst,
}
use my_lwip_poc.Mem.{
  mem_size_aligned, sizeof_struct_mem, Header, header, Heap, ok, write, set_used, plug_forward,
  plug_backward, plug_holes, mem_free, dec_used,
}
use my_lwip_poc.Base.Word.{sub16}
use my_lwip_poc.Mem.Blocks.{
  Block, block, start, last_pos, Seg, Seg-left, lowest, areas, start-le-stop, Inv,
}
use my_lwip_poc.Mem.Links.{header_at, Seg-mark}
use my_lwip_poc.Mem.Plug.{Freed, plug_forward-Plugged, plug_backward-Merged}
use my_lwip_poc.Mem.Views.{
  areas-append, lowest-append, lowest_cases, start-le-lowest, Apart-left, Apart-right, start-append,
}

-- The heap when mem_free calls plug_holes.
abbrev marked : Heap → ℕ → Heap
marked h p = record h {
  ram = set_used h.ram p false;
  lfree = if ltb p h.lfree then p else h.lfree;
  stats = dec_used h.stats (sub16 (h.ram p).next p);
}

module _ (h : Heap) (xs : List Block) (p : ℕ) (ys : List Block)
    (v : Inv h (xs ++ block p true ∷ ys)) where
  at_p :
      (h.ram p ≡ header (start mem_size_aligned ys) (last_pos 0 xs) true)
      × (p + 20 ≤ start mem_size_aligned ys)
      × (p % 4 ≡ 0)
      × Seg h.ram p mem_size_aligned ys
  at_p = header_at h.ram 0 mem_size_aligned xs (block p true) ys v.chain

  next-le : start mem_size_aligned ys ≤ mem_size_aligned
  next-le = start-le-stop h.ram p mem_size_aligned ys at_p.3

  marked-low : (if ltb p h.lfree then p else h.lfree) ≡ lowest p xs
  marked-low =
      let old : h.lfree ≡ lowest (lowest mem_size_aligned ys) xs =
        v.lowest_free ∙ lowest-append mem_size_aligned xs (block p true ∷ ys) in
      let above = start-le-lowest h.ram p mem_size_aligned ys at_p.3 in
      let size = at_p.1 in
      elim (lowest_cases h.ram 0 p xs
        (Seg-left h.ram 0 mem_size_aligned xs (block p true ∷ ys) v.chain)) [
          | inl g ↦
              rw (lt→ltb p h.lfree (omega (arith, old, g (lowest mem_size_aligned ys)))) (sym (g p))
          | inr (w, lt, g) ↦
              rw (le→ltb p h.lfree (omega (arith, old, g (lowest mem_size_aligned ys))))
                (omega (arith, old, g (lowest mem_size_aligned ys), g p))
        ]

  marked-Freed : Freed (marked h p) xs p ys
  marked-Freed = record {
    chain =
        subst (λ r. Seg (write h.ram p r) 0 mem_size_aligned (xs ++ block p false ∷ ys))
          (sym (ap (λ (r : Header). header r.next r.prev false) at_p.0))
          (Seg-mark h.ram 0 mem_size_aligned xs p true false ys v.chain);
    end_used = rw (ne→== mem_size_aligned p (omega (arith, next-le, at_p.1))) v.end_used;
    low = marked-low;
    first = sym (start-append mem_size_aligned xs (block p true ∷ ys)) ∙ v.first;
    before = Apart-left false xs (block p true ∷ ys) v.apart;
  }

  mem_free-run :
      mem_free h (some (p + sizeof_struct_mem)) ≡ ok (plug_backward (plug_forward (marked h p) p) p)
  unfolding mem_free plug_holes
  mem_free-run =
      let e : p + sizeof_struct_mem - sizeof_struct_mem ≡ p = omega arith in
      let next : (h.ram p).next ≡ start mem_size_aligned ys = ap (λ (r : Header). r.next) at_p.0 in
      rw (
        e,
        ==_of_eq ((p + sizeof_struct_mem) % 4) 0 (omega (arith, at_p.2)),
        lt→ltb (p + sizeof_struct_mem) mem_size_aligned (omega (arith, next-le, at_p.1)),
        le→leb sizeof_struct_mem (p + sizeof_struct_mem) (omega arith),
        ap (λ (r : Header). r.used) at_p.0,
        lt→ltb p mem_size_aligned (omega (arith, next-le, at_p.1)),
        ==_refl p,
        next,
        le→leb (start mem_size_aligned ys) mem_size_aligned next-le,
      )

-- Freeing an allocated block of a valid heap aborts on no assertion, and leaves a valid heap in
-- which that area is gone and every other allocated area stays as it was.
pub mem_free-Inv :
    (h : Heap) (xs : List Block) (p : ℕ) (ys : List Block)
    → Inv h (xs ++ block p true ∷ ys)
    → (h' : Heap) × (bs : List Block) × (mem_free h (some (p + sizeof_struct_mem)) ≡ ok h')
      × Inv h' bs
      × (areas mem_size_aligned (xs ++ block p true ∷ ys)
          ≡ areas p xs
            ++ (p + sizeof_struct_mem, start mem_size_aligned ys - p - sizeof_struct_mem)
              ∷ areas mem_size_aligned ys)
      × (areas mem_size_aligned bs ≡ areas p xs ++ areas mem_size_aligned ys)
mem_free-Inv h xs p ys v =
    let apart = (Apart-right false xs (block p true ∷ ys) v.apart).1 in
    let (zs, f, a, ar) =
      plug_forward-Plugged (marked h p) xs p ys (marked-Freed h xs p ys v) apart in
    let (bs, i, ar') = plug_backward-Merged (plug_forward (marked h p) p) xs p zs f a in
    (
      _,
      bs,
      mem_free-run h xs p ys v,
      i,
      areas-append mem_size_aligned xs (block p true ∷ ys),
      ar' ∙ ap (◌++◌ (areas p xs)) ar,
    )
