-- ===== src/Mem/Trim.antt =====
-- mem_trim on the list of blocks.
use my_lwip_poc.Base.{
  ℕ, ◌+◌, ◌-◌, ◌%◌, ◌≤◌, ◌≡◌, refl, Bool, true, false, List, [], ◌∷◌, ◌++◌, not, inl, inr,
  if◌then◌else◌, arith, ap, sym, ◌∙◌, ne→==, ◌==◌, Bool-cases, ==_of_eq,
}
use my_lwip_poc.Base.Word.{add16}
use my_lwip_poc.Mem.{
  mem_size_aligned, sizeof_struct_mem, Header, header, Heap, block_size, trim_block,
}
use my_lwip_poc.Mem.Blocks.{Block, block, start, Seg, lowest, Apart, start-le-stop, Inv}
use my_lwip_poc.Mem.Shrink.{
  Trimmed, at_p, next_of, mem_trim-run, lfree-lowest, left, trimmed, unchanged, changed, next_used,
}
use my_lwip_poc.Mem.Views.{lowest_cases, Apart-right, start-le-lowest}

module _ (h : Heap) (xs : List Block) (p : ℕ) (c : Block) (zs : List Block)
    (v : Inv h (xs ++ block p true ∷ c ∷ zs)) (newsize : ℕ) (hn : newsize ≤ 65532)
    (shrinks : block_size newsize ≤ c.pos - p - sizeof_struct_mem) where
  behind :
      (h.ram c.pos ≡ header (start mem_size_aligned zs) p c.used)
      × (c.pos + 20 ≤ start mem_size_aligned zs)
      × (c.pos % 4 ≡ 0)
      × Seg h.ram c.pos mem_size_aligned zs
  behind = (at_p h xs p (c ∷ zs) v newsize hn shrinks).3

  used_of : (h.ram c.pos).used ≡ c.used
  used_of = ap (λ (r : Header). r.used) behind.0

  alternation : Apart (not c.used) zs
  alternation = (Apart-right false xs (block p true ∷ c ∷ zs) v.apart).1.1

  -- The next block is free: it moves down.
  next_is_free :
      c.used ≡ false
      → (block_size newsize == c.pos - p - sizeof_struct_mem) ≡ false
      → Trimmed h xs p (c ∷ zs) newsize
  next_is_free u ne =
      let p2 : ℕ = p + sizeof_struct_mem + block_size newsize in
      let size = (at_p h xs p (c ∷ zs) v newsize hn shrinks).1 in
      let last = start-le-stop h.ram c.pos mem_size_aligned zs behind.3 in
      let wrap : add16 (p + sizeof_struct_mem) (block_size newsize) ≡ p2 =
        omega (arith, shrinks, last, behind.1) in
      let lowest_is : lowest mem_size_aligned (c ∷ zs) ≡ c.pos = rw u in
      let low : h.lfree ≡ lowest c.pos xs =
        lfree-lowest h xs p (c ∷ zs) v newsize hn shrinks ∙ ap (λ k. lowest k xs) lowest_is in
      changed h xs p (c ∷ zs) v newsize hn shrinks c.pos (if h.lfree == c.pos then p2 else h.lfree)
        zs
        (mem_trim-run h xs p (c ∷ zs) v newsize hn shrinks
          ∙ rw ne (
              unfold trim_block trimmed in
              rw (
                next_of h xs p (c ∷ zs) v newsize hn shrinks,
                used_of,
                u,
                wrap,
                ap (λ (r : Header). r.next) behind.0,
              )))
        behind.3 (omega (arith, shrinks, behind.1, size)) (rw u at alternation)
        (elim (lowest_cases h.ram 0 p xs (left h xs p (c ∷ zs) v newsize hn shrinks)) [
          | inl g ↦ rw (==_of_eq h.lfree c.pos (low ∙ g c.pos)) (sym (g p2))
          | inr (w, lt, g) ↦
              rw (ne→== h.lfree c.pos (omega (arith, low, g c.pos))) (low ∙ g c.pos ∙ sym (g p2))
        ])
        (rw u)

  trim_before :
      (u : Bool)
      → c.used ≡ u
      → (block_size newsize == c.pos - p - sizeof_struct_mem) ≡ false
      → Trimmed h xs p (c ∷ zs) newsize
  trim_before false u ne = next_is_free u ne
  trim_before true u ne =
      next_used h xs p (c ∷ zs) v newsize hn shrinks (used_of ∙ u) (u, alternation)
        (start-le-lowest h.ram p mem_size_aligned (c ∷ zs)
          (at_p h xs p (c ∷ zs) v newsize hn shrinks).3)
        ne

-- Trimming an allocated block of a valid heap to a size that it has room for aborts on no assertion,
-- returns the same pointer and leaves a valid heap: the area still begins there, holds at least
-- `newsize` bytes and has not grown, and every other allocated area stays as it was.
pub mem_trim-Inv :
    (h : Heap) (xs : List Block) (p : ℕ) (ys : List Block) (newsize : ℕ)
    → Inv h (xs ++ block p true ∷ ys)
    → newsize ≤ 65532
    → block_size newsize ≤ start mem_size_aligned ys - p - sizeof_struct_mem
    → Trimmed h xs p ys newsize
mem_trim-Inv h xs p ys newsize v hn shrinks =
    elim (Bool-cases (block_size newsize == start mem_size_aligned ys - p - sizeof_struct_mem)) [
      | inl t ↦
          unchanged h xs p ys v newsize hn shrinks
            (mem_trim-run h xs p ys v newsize hn shrinks ∙ rw t)
      | inr t ↦ split ys v shrinks t
    ]
  where
    split :
        (ys : List Block)
        → Inv h (xs ++ block p true ∷ ys)
        → block_size newsize ≤ start mem_size_aligned ys - p - sizeof_struct_mem
        → (block_size newsize == start mem_size_aligned ys - p - sizeof_struct_mem) ≡ false
        → Trimmed h xs p ys newsize
    split [] v shrinks t = next_used h xs p [] v newsize hn shrinks v.end_used tt (omega arith) t
    split (c ∷ zs) v shrinks t = trim_before h xs p c zs v newsize hn shrinks c.used refl t
