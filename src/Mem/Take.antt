-- ===== src/Mem/Take.antt =====
-- take_block, and the lowest free block behind it, on the list of blocks.
use my_lwip_poc.Base.{
  ℕ, ◌+◌, ◌-◌, ◌%◌, ◌≤◌, ◌≡◌, ◌≢◌, refl, Bool, true, false, List, [], ◌∷◌, ◌++◌, ◌⊎◌, inl, inr,
  if◌then◌else◌, arith, ap, sym, ◌∙◌, ne→==, ==→ne, ◌==◌, some, leb, le→leb, Bool-cases, leb→le,
  ==_of_eq,
}
use my_lwip_poc.Base.Word.{add16}
use my_lwip_poc.Mem.{
  mem_size_aligned, sizeof_struct_mem, min_size_aligned, Header, header, Heap, ok,
}
use my_lwip_poc.Mem.Malloc.{take_block, next_free, adjust_lfree, finish_malloc}
use my_lwip_poc.Mem.Blocks.{
  Block, block, start, last_pos, Seg, Seg-left, Seg-right, lowest, Apart, areas, start-le-stop, Inv,
}
use my_lwip_poc.Mem.Links.{header_at, Seg-mark, Seg-split}
use my_lwip_poc.Mem.Views.{
  lowest-append, lowest_cases, free_after, Apart-left, Apart-right, Apart-append, start-append,
}
use my_lwip_poc.Mem.Search.{next_free-lowest, lowest-free}

Apart-weaken : (bs : List Block) → Apart true bs → Apart false bs
Apart-weaken [] a = tt
Apart-weaken (b ∷ bs) a = (tt, a.1)

Apart-used : (f : Bool) (p : ℕ) (bs : List Block) → Apart false bs → Apart f (block p true ∷ bs)
Apart-used true p bs a = (refl, a)
Apart-used false p bs a = (tt, a)

-- What take_block makes of the block at `p` and of the blocks behind it.
abbrev taken : (n p next : ℕ) → List Block → List Block
taken n p next ys =
    if leb (p + sizeof_struct_mem + n + sizeof_struct_mem + min_size_aligned) next
    then block p true ∷ block (p + sizeof_struct_mem + n) false ∷ ys
    else block p true ∷ ys

module _ (h : Heap) (xs : List Block) (p : ℕ) (ys : List Block)
    (v : Inv h (xs ++ block p false ∷ ys)) (n : ℕ) (hn : 12 ≤ n) (al : n % 4 ≡ 0)
    (room : p + sizeof_struct_mem + n ≤ start mem_size_aligned ys) where
  pub at_p :
      (h.ram p ≡ header (start mem_size_aligned ys) (last_pos 0 xs) false)
      × (p + 20 ≤ start mem_size_aligned ys)
      × (p % 4 ≡ 0)
      × Seg h.ram p mem_size_aligned ys
  at_p = header_at h.ram 0 mem_size_aligned xs (block p false) ys v.chain

  next_of : (h.ram p).next ≡ start mem_size_aligned ys
  next_of = ap (λ (r : Header). r.next) at_p.0

  prev_of : (h.ram p).prev ≡ last_pos 0 xs
  prev_of = ap (λ (r : Header). r.prev) at_p.0

  next-le : start mem_size_aligned ys ≤ mem_size_aligned
  next-le = start-le-stop h.ram p mem_size_aligned ys at_p.3

  take_block-Seg :
      Seg (take_block h n p).ram 0 mem_size_aligned (xs ++ taken n p (start mem_size_aligned ys) ys)
  unfolding take_block
  take_block-Seg =
      let wrap : add16 (p + sizeof_struct_mem) n ≡ p + sizeof_struct_mem + n =
        omega (arith, room, next-le) in
      elim (Bool-cases (
        leb (p + sizeof_struct_mem + n + sizeof_struct_mem + min_size_aligned)
          (start mem_size_aligned ys))) [
            | inl t ↦
                rw (next_of, prev_of, wrap, t)
                  (Seg-split h.ram 0 mem_size_aligned xs p (p + sizeof_struct_mem + n) false true ys
                    (omega arith) (omega (arith, leb→le _ _ t)) (omega (arith, al, at_p.2)) v.chain)
            | inr t ↦
                rw (next_of, prev_of, t)
                  (Seg-mark h.ram 0 mem_size_aligned xs p false true ys v.chain)
          ]

  -- The blocks afterwards.
  pub after : List Block
  after = taken n p (start mem_size_aligned ys) ys

  take_block-lfree : (take_block h n p).lfree ≡ h.lfree
  unfolding take_block
  take_block-lfree =
      elim (Bool-cases
        (leb (p + sizeof_struct_mem + n + sizeof_struct_mem + min_size_aligned) (h.ram p).next)) [
          | inl t ↦ rw t
          | inr t ↦ rw t
        ]

  take_block-end_used : ((take_block h n p).ram mem_size_aligned).used ≡ true
  unfolding take_block
  take_block-end_used =
      let wrap : add16 (p + sizeof_struct_mem) n ≡ p + sizeof_struct_mem + n =
        omega (arith, room, next-le) in
      let ne = ne→== mem_size_aligned p (omega (arith, next-le, at_p.1)) in
      elim (Bool-cases (
        leb (p + sizeof_struct_mem + n + sizeof_struct_mem + min_size_aligned)
          (start mem_size_aligned ys))) [
            | inl t ↦
                let ne2 =
                  ne→== mem_size_aligned (p + sizeof_struct_mem + n)
                    (omega (arith, leb→le _ _ t, next-le)) in
                rw (next_of, prev_of, wrap, t)
                  (elim (Bool-cases (start mem_size_aligned ys == mem_size_aligned)) [
                    | inl e ↦ rw (e, ne, ne2) v.end_used
                    | inr e ↦
                        rw
                          (
                            e,
                            ne→== mem_size_aligned (start mem_size_aligned ys)
                                (λ q. ==→ne (start mem_size_aligned ys) mem_size_aligned e (sym q)),
                            ne,
                            ne2,
                          )
                          v.end_used
                  ])
            | inr t ↦ rw (next_of, prev_of, t, ne) v.end_used
          ]

  pub after-start : start mem_size_aligned after ≡ p
  unfolding after
  after-start =
      elim (Bool-cases (
        leb (p + sizeof_struct_mem + n + sizeof_struct_mem + min_size_aligned)
          (start mem_size_aligned ys))) [ inl t ↦ rw t | inr t ↦ rw t ]

  pub after-areas :
      (size : ℕ) × (n ≤ size)
      × (areas mem_size_aligned after ≡ (p + sizeof_struct_mem, size) ∷ areas mem_size_aligned ys)
  unfolding after
  after-areas =
      elim (Bool-cases (
        leb (p + sizeof_struct_mem + n + sizeof_struct_mem + min_size_aligned)
          (start mem_size_aligned ys))) [
            | inl t ↦ (p + sizeof_struct_mem + n - p - sizeof_struct_mem, omega arith, rw t)
            | inr t ↦ (start mem_size_aligned ys - p - sizeof_struct_mem, omega (arith, room), rw t)
          ]

  after-Apart : Apart false (xs ++ after)
  unfolding after
  after-Apart =
      let behind = (Apart-right false xs (block p false ∷ ys) v.apart).1 in
      let before = Apart-left false xs (block p false ∷ ys) v.apart in
      elim (Bool-cases (
        leb (p + sizeof_struct_mem + n + sizeof_struct_mem + min_size_aligned)
          (start mem_size_aligned ys))) [
            | inl t ↦ rw t (
                Apart-append false xs _ before (
                  Apart-used (free_after false xs) p (block (p + sizeof_struct_mem + n) false ∷ ys)
                    (tt, behind)))
            | inr t ↦ rw t (
                Apart-append false xs _ before
                  (Apart-used (free_after false xs) p ys (Apart-weaken ys behind)))
          ]

  lfree-lowest : h.lfree ≡ lowest p xs
  lfree-lowest = v.lowest_free ∙ lowest-append mem_size_aligned xs (block p false ∷ ys)

  -- The lowest free block afterwards: unless it was `p`, it stays.
  lowest-after :
      ((h.lfree ≡ p) × (lowest mem_size_aligned (xs ++ after) ≡ lowest mem_size_aligned after))
      ⊎ ((h.lfree ≢ p) × (lowest mem_size_aligned (xs ++ after) ≡ h.lfree))
  lowest-after =
      elim (lowest_cases h.ram 0 p xs
        (Seg-left h.ram 0 mem_size_aligned xs (block p false ∷ ys) v.chain)) [
          | inl g ↦ inl (
            lfree-lowest ∙ g p,
            lowest-append mem_size_aligned xs after ∙ g (lowest mem_size_aligned after),
          )
          | inr (w, lt, g) ↦ inr (
            omega (arith, lfree-lowest, g p),
            lowest-append mem_size_aligned xs after
                ∙ g (lowest mem_size_aligned after)
                ∙ sym (lfree-lowest ∙ g p),
          )
        ]

  pub result : Heap
  result = record (take_block h n p) { lfree = lowest mem_size_aligned (xs ++ after) }

  take_block-Seg' : Seg (take_block h n p).ram 0 mem_size_aligned (xs ++ after)
  unfolding after
  take_block-Seg' = take_block-Seg

  pub result-Inv : Inv result (xs ++ after)
  unfolding result
  result-Inv = record {
    chain = take_block-Seg';
    first =
        start-append mem_size_aligned xs after
        ∙ ap (λ q. start q xs) after-start
        ∙ sym (start-append mem_size_aligned xs (block p false ∷ ys))
        ∙ v.first;
    end_used = take_block-end_used;
    lowest_free = refl;
    apart = after-Apart;
  }

  adjust_lfree-result : adjust_lfree (take_block h n p) p ≡ ok result
  unfolding adjust_lfree result
  adjust_lfree-result = elim lowest-after [
    | inl (e, l) ↦
        let tail = Seg-right (take_block h n p).ram 0 mem_size_aligned xs after take_block-Seg' in
        let run =
          next_free-lowest mem_size_aligned (take_block h n p).ram _ after tail take_block-end_used
            (omega arith) in
        let run' : next_free mem_size_aligned (take_block h n p).ram h.lfree
            ≡ ok (lowest mem_size_aligned after) =
          ap (next_free mem_size_aligned (take_block h n p).ram) (e ∙ sym after-start) ∙ run in
        rw (take_block-lfree, ==_of_eq p h.lfree (sym e), run', lowest-free _ _ after tail, l)
    | inr (ne, l) ↦ rw (take_block-lfree, ne→== p h.lfree (λ q. ne (sym q)), l)
  ]

  -- The assertions of mem_malloc hold.
  pub finish_malloc-result : finish_malloc h n (some p) ≡ ok (some (p + sizeof_struct_mem), result)
  unfolding finish_malloc
  finish_malloc-result = rw (
    adjust_lfree-result,
    le→leb (p + sizeof_struct_mem + n) mem_size_aligned (omega (arith, room, next-le)),
    ==_of_eq ((p + sizeof_struct_mem) % 4) 0 (omega (arith, at_p.2)),
    ==_of_eq (p % 4) 0 at_p.2,
  )
