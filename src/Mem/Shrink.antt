-- ===== src/Mem/Shrink.antt =====
-- mem_trim where the block behind is used, and what it makes of the list of blocks.
use my_lwip_poc.Base.{
  ℕ, ◌+◌, ◌-◌, ◌%◌, ◌≤◌, ◌<◌, ◌≡◌, ◌≢◌, refl, Bool, true, false, List, ◌∷◌, ◌++◌, not, inl, inr,
  if◌then◌else◌, arith, ap, sym, ◌∙◌, ne→==, ◌==◌, some, ltb, leb, lt→ltb, le→ltb, le→leb,
  Bool-cases, leb→le,
}
use my_lwip_poc.Base.Word.{add16, sub16}
use my_lwip_poc.Mem.{
  mem_size_aligned, sizeof_struct_mem, min_size_aligned, Header, header, Ram, Heap, ok, write,
  set_prev, set_next, block_size, insert_header, trim_block, mem_trim, dec_used,
}
use my_lwip_poc.Mem.Blocks.{
  Block, block, start, last_pos, Seg, Seg-left, lowest, Apart, areas, start-le-stop, Inv,
}
use my_lwip_poc.Mem.Links.{header_at, Seg-splice}
use my_lwip_poc.Mem.Plug.{used-write}
use my_lwip_poc.Mem.Views.{
  areas-append, lowest-append, lowest_cases, Apart-left, Apart-right, Apart-append, start-append,
}
use my_lwip_poc.Mem.Allocate.{block_size_bounds}

module _ (ram : Ram) (p p2 next prev : ℕ) (u : Bool) (ne : p < p2) where
  -- The header that is made, in the form in which a block is split.
  insert_header-splice :
      (q : ℕ)
      → ram p ≡ header q prev u
      → insert_header ram p p2 next ≡ (
          let split = write (write ram p2 (header next p false)) p (header p2 prev u) in
          if not (next == mem_size_aligned) then set_prev split next p2 else split)
  unfolding insert_header
  insert_header-splice q e = rw (ne→== p p2 (omega arith), e)

  -- Flags elsewhere stay.
  insert_header-used :
      (a : ℕ) → p ≢ a → p2 ≢ a → (insert_header ram p p2 next a).used ≡ (ram a).used
  unfolding insert_header
  insert_header-used a na na2 =
      let r : Ram = set_next (write ram p2 (header next p false)) p p2 in
      let e : (r a).used ≡ (ram a).used =
        rw (ne→== a p (λ q. na (sym q)), ne→== a p2 (λ q. na2 (sym q))) in
      elim (Bool-cases (next == mem_size_aligned)) [
        | inl t ↦ rw t e
        | inr t ↦ rw t (used-write r next a (r next).next p2 ∙ e)
      ]

-- What mem_trim comes to: the same area, shortened, among the others, in a valid heap.
abbrev pub Trimmed : Heap → (xs : List Block) (p : ℕ) (ys : List Block) → ℕ → Type 0
Trimmed h xs p ys newsize =
    (h' : Heap) × (bs : List Block) × (room : ℕ) × (mem_trim h (p + sizeof_struct_mem) newsize
      ≡ ok (some (p + sizeof_struct_mem), h'))
    × Inv h' bs
    × (newsize ≤ room)
    × (room ≤ start mem_size_aligned ys - p - sizeof_struct_mem)
    × (areas mem_size_aligned bs
        ≡ areas p xs ++ (p + sizeof_struct_mem, room) ∷ areas mem_size_aligned ys)

module _ (h : Heap) (xs : List Block) (p : ℕ) (ys : List Block)
    (v : Inv h (xs ++ block p true ∷ ys)) (newsize : ℕ) (hn : newsize ≤ 65532)
    (shrinks : block_size newsize ≤ start mem_size_aligned ys - p - sizeof_struct_mem) where
  pub at_p :
      (h.ram p ≡ header (start mem_size_aligned ys) (last_pos 0 xs) true)
      × (p + 20 ≤ start mem_size_aligned ys)
      × (p % 4 ≡ 0)
      × Seg h.ram p mem_size_aligned ys
  at_p = header_at h.ram 0 mem_size_aligned xs (block p true) ys v.chain

  pub next_of : (h.ram p).next ≡ start mem_size_aligned ys
  next_of = ap (λ (r : Header). r.next) at_p.0

  next-le : start mem_size_aligned ys ≤ mem_size_aligned
  next-le = start-le-stop h.ram p mem_size_aligned ys at_p.3

  -- The call, past its first tests.
  pub mem_trim-run : mem_trim h (p + sizeof_struct_mem) newsize ≡ (
      let new = block_size newsize in
      let size = start mem_size_aligned ys - p - sizeof_struct_mem in
      if new == size
      then ok (some (p + sizeof_struct_mem), h)
      else ok (trim_block h (p + sizeof_struct_mem) p size new))
  unfolding mem_trim
  mem_trim-run =
      let e : p + sizeof_struct_mem - sizeof_struct_mem ≡ p = omega arith in
      let s : sub16 (sub16 (start mem_size_aligned ys) p) sizeof_struct_mem
          ≡ start mem_size_aligned ys - p - sizeof_struct_mem =
        omega (arith, next-le, at_p.1) in
      rw (
        e,
        next_of,
        s,
        le→ltb mem_size_aligned (block_size newsize) (omega (arith, next-le)),
        lt→ltb (p + sizeof_struct_mem) mem_size_aligned (omega (arith, next-le, at_p.1)),
        le→leb sizeof_struct_mem (p + sizeof_struct_mem) (omega arith),
        le→leb (block_size newsize) (start mem_size_aligned ys - p - sizeof_struct_mem) shrinks,
      )

  pub lfree-lowest : h.lfree ≡ lowest (lowest mem_size_aligned ys) xs
  lfree-lowest = v.lowest_free ∙ lowest-append mem_size_aligned xs (block p true ∷ ys)

  pub left : Seg h.ram 0 p xs
  left = Seg-left h.ram 0 mem_size_aligned xs (block p true ∷ ys) v.chain

  -- The heap that both branches of trim_block build, before the next block `zs`.
  unfoldable pub trimmed : ℕ → ℕ → ℕ → Heap
  trimmed p2 next low = record h {
    lfree = low;
    ram = insert_header h.ram p p2 next;
    stats =
        dec_used h.stats
          (sub16 (start mem_size_aligned ys - p - sizeof_struct_mem) (block_size newsize));
  }

  trimmed-Inv :
      (q p2 low : ℕ) (zs : List Block)
      → Seg h.ram q mem_size_aligned zs
      → p2 ≡ p + sizeof_struct_mem + block_size newsize
      → p2 + 20 ≤ start mem_size_aligned zs
      → Apart true zs
      → low ≡ lowest p2 xs
      → Inv (trimmed p2 (start mem_size_aligned zs) low) (xs ++ block p true ∷ block p2 false ∷ zs)
  unfolding trimmed
  trimmed-Inv q p2 low zs s e room ap' l =
      let bounds = block_size_bounds newsize hn in
      let stop = start-le-stop h.ram q mem_size_aligned zs s in
      record {
        chain =
            rw
              (insert_header-splice h.ram p p2 (start mem_size_aligned zs) (last_pos 0 xs) true
                (omega (arith, bounds)) (start mem_size_aligned ys) at_p.0)
              (Seg-splice h.ram 0 mem_size_aligned xs p p2 q true zs (omega (arith, bounds)) room
                at_p.2 (omega (arith, bounds, at_p.2)) left s);
        first =
            start-append mem_size_aligned xs (block p true ∷ block p2 false ∷ zs)
            ∙ sym (start-append mem_size_aligned xs (block p true ∷ ys))
            ∙ v.first;
        end_used =
            insert_header-used h.ram p p2 (start mem_size_aligned zs) (last_pos 0 xs) true
              (omega (arith, bounds)) mem_size_aligned (omega (arith, bounds))
              (omega (arith, bounds))
            ∙ v.end_used;
        lowest_free =
            l ∙ sym (lowest-append mem_size_aligned xs (block p true ∷ block p2 false ∷ zs));
        apart =
            Apart-append false xs (block p true ∷ block p2 false ∷ zs)
              (Apart-left false xs (block p true ∷ ys) v.apart)
              ((Apart-right false xs (block p true ∷ ys) v.apart).0, (tt, ap'));
      }

  trimmed-areas :
      (p2 : ℕ) (zs : List Block)
      → areas mem_size_aligned zs ≡ areas mem_size_aligned ys
      → areas mem_size_aligned (xs ++ block p true ∷ block p2 false ∷ zs)
        ≡ areas p xs
          ++ (p + sizeof_struct_mem, p2 - p - sizeof_struct_mem) ∷ areas mem_size_aligned ys
  trimmed-areas p2 zs e =
      areas-append mem_size_aligned xs (block p true ∷ block p2 false ∷ zs) ∙ rw e

  abbrev pub size : ℕ
  size = start mem_size_aligned ys - p - sizeof_struct_mem

  abbrev pub data_ptr : ℕ
  data_ptr = p + sizeof_struct_mem

  pub unchanged : mem_trim h data_ptr newsize ≡ ok (some data_ptr, h) → Trimmed h xs p ys newsize
  unchanged run = (
    h,
    xs ++ block p true ∷ ys,
    size,
    run,
    v,
    omega (arith, block_size_bounds newsize hn, shrinks),
    omega arith,
    areas-append mem_size_aligned xs (block p true ∷ ys),
  )

  -- Where trim_block makes a header, from its run and the order of the flags behind it.
  pub changed :
      (q low : ℕ) (zs : List Block)
      → let p2 = p + sizeof_struct_mem + block_size newsize in
        mem_trim h data_ptr newsize ≡ ok (some data_ptr, trimmed p2 (start mem_size_aligned zs) low)
        → Seg h.ram q mem_size_aligned zs
        → p2 + 20 ≤ start mem_size_aligned zs
        → Apart true zs
        → low ≡ lowest p2 xs
        → areas mem_size_aligned zs ≡ areas mem_size_aligned ys
        → Trimmed h xs p ys newsize
  changed q low zs run s room ap' l ar =
      let p2 : ℕ = p + sizeof_struct_mem + block_size newsize in
      (
        trimmed p2 (start mem_size_aligned zs) low,
        xs ++ block p true ∷ block p2 false ∷ zs,
        p2 - p - sizeof_struct_mem,
        run,
        trimmed-Inv q p2 low zs s refl room ap' l,
        omega (arith, block_size_bounds newsize hn),
        omega (arith, shrinks),
        trimmed-areas p2 zs ar,
      )

  -- The new header lies below what follows, so `lfree` moves exactly if all below is used.
  lower_lfree :
      p + sizeof_struct_mem + block_size newsize < lowest mem_size_aligned ys
      → (let p2 = p + sizeof_struct_mem + block_size newsize in
          if ltb p2 h.lfree then p2 else h.lfree)
        ≡ lowest (p + sizeof_struct_mem + block_size newsize) xs
  lower_lfree lt =
      let p2 : ℕ = p + sizeof_struct_mem + block_size newsize in
      let below = lowest mem_size_aligned ys in
      elim (lowest_cases h.ram 0 p xs left) [
        | inl g ↦ rw (lt→ltb p2 h.lfree (omega (arith, lfree-lowest, g below))) (sym (g p2))
        | inr (w, lt', g) ↦
            rw (le→ltb p2 h.lfree (omega (arith, lfree-lowest, g below)))
              (omega (arith, lfree-lowest, g below, g p2))
      ]

  pub next_used :
      (h.ram (start mem_size_aligned ys)).used ≡ true
      → Apart true ys
      → start mem_size_aligned ys ≤ lowest mem_size_aligned ys
      → (block_size newsize == size) ≡ false
      → Trimmed h xs p ys newsize
  next_used u ap' low ne =
      let p2 : ℕ = p + sizeof_struct_mem + block_size newsize in
      let wrap : add16 (p + sizeof_struct_mem) (block_size newsize) ≡ p2 =
        omega (arith, shrinks, next-le, at_p.1) in
      elim (Bool-cases (leb (block_size newsize + sizeof_struct_mem + min_size_aligned) size)) [
        | inl t ↦
            changed p (if ltb p2 h.lfree then p2 else h.lfree) ys
              (mem_trim-run ∙ rw ne (unfold trim_block trimmed in rw (next_of, u, t, wrap))) at_p.3
              (omega (arith, leb→le _ _ t, at_p.1)) ap'
              (lower_lfree (omega (arith, leb→le _ _ t, low, at_p.1))) refl
        | inr t ↦ unchanged (mem_trim-run ∙ rw ne (unfold trim_block in rw (next_of, u, t)))
      ]
