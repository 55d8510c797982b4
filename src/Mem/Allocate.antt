-- ===== src/Mem/Allocate.antt =====
-- mem_malloc on the list of blocks.
use my_lwip_poc.Base.{
  ℕ, ◌+◌, ◌%◌, ◌≤◌, ◌<◌, ◌≡◌, refl, false, List, [], ◌∷◌, ◌++◌, not, ◌⊎◌, inl, inr, ◌&&◌, arith, ap,
  ap₂, sym, ◌∙◌, subst, ne→==, ◌==◌, some, none, ltb, leb, lt→ltb, le→ltb, Bool-cases, ltb→lt,
  ltb→le, Option-cases,
}
use my_lwip_poc.Base.Word.{add16}
use my_lwip_poc.Mem.{mem_size_aligned, sizeof_struct_mem, Heap, Stats, ok, block_size}
use my_lwip_poc.Mem.Malloc.{search_block, finish_malloc, mem_malloc}
use my_lwip_poc.Mem.Blocks.{Block, block, start, areas, Inv}
use my_lwip_poc.Mem.Views.{areas-append}
use my_lwip_poc.Mem.Take.{
  at_p, after, after-start, after-areas, result, result-Inv, finish_malloc-result,
}
use my_lwip_poc.Mem.Search.{first_fit, first_fit-none, search_block-first_fit, lowest_suffix}

-- Requests that the rounding does not wrap get a multiple of four, at least what was asked for.
pub block_size_bounds :
    (size : ℕ)
    → size ≤ 65532
    → (size ≤ block_size size)
      × (12 ≤ block_size size)
      × (block_size size % 4 ≡ 0)
      × (block_size size ≤ size + 12)
unfolding block_size
block_size_bounds size h = ground arith

-- Where the first fit lies.
first_fit-some :
    (stop n p : ℕ) (bs : List Block)
    → first_fit stop n bs ≡ some p
    → (xs : List Block) × (ys : List Block) × (bs ≡ xs ++ block p false ∷ ys)
      × (p + sizeof_struct_mem + n ≤ start stop ys)
first_fit-some stop n p [] e = cc
first_fit-some stop n p (b ∷ bs) e =
    elim (Bool-cases (not b.used && leb (b.pos + sizeof_struct_mem + n) (start stop bs))) [
      | inl t ↦ ([], bs, ground arith, ground arith)
      | inr t ↦
          let e' : first_fit stop n bs ≡ some p = ground arith in
          let (xs, ys, q, room) = first_fit-some stop n p bs e' in (b ∷ xs, ys, ap (◌∷◌ b) q, room)
    ]

block_size-wraps : (size : ℕ) → 65533 ≤ size → size ≤ 65535 → block_size size ≡ block_size 12
unfolding block_size
block_size-wraps size lo hi = ground arith

-- What mem_malloc comes to when it gives out memory: an area of at least `size` bytes, aligned, next to
-- the areas that were there, in a valid heap.
abbrev pub Allocated : Heap → List Block → ℕ → Type 0
Allocated h bs size =
    (h' : Heap) × (bs' : List Block) × (p : ℕ) × (room : ℕ) × (left : List (ℕ × ℕ)) × (right : List
      (ℕ × ℕ))
    × (mem_malloc h size ≡ ok (some p, h'))
    × Inv h' bs'
    × (size ≤ room)
    × (p % 4 ≡ 0)
    × (areas mem_size_aligned bs ≡ left ++ right)
    × (areas mem_size_aligned bs' ≡ left ++ (p, room) ∷ right)

-- When it does not: no free block is big enough, and nothing but the error count changes.
abbrev pub Refused : Heap → List Block → ℕ → Type 0
Refused h bs size =
    (s : Stats) × (mem_malloc h size ≡ ok (none, record h { stats = s }))
    × (first_fit mem_size_aligned (block_size size) bs ≡ none)

search_found :
    (h : Heap) (bs : List Block) (n : ℕ)
    → Inv h bs
    → search_block mem_size_aligned h.ram n h.lfree ≡ ok (first_fit mem_size_aligned n bs)
search_found h bs n v =
    let (q, vs, s, l, f) = lowest_suffix h.ram 0 n bs v.chain in
    ap (search_block mem_size_aligned h.ram n) (v.lowest_free ∙ sym l)
    ∙ search_block-first_fit mem_size_aligned h.ram q n vs s (omega arith)
    ∙ ap ok f

-- The call, past its first tests.
malloc_searches :
    (h : Heap) (bs : List Block) (size : ℕ)
    → Inv h bs
    → 0 < size
    → block_size size ≤ mem_size_aligned
    → mem_malloc h size
      ≡ finish_malloc h (block_size size) (first_fit mem_size_aligned (block_size size) bs)
unfolding mem_malloc
malloc_searches h bs size v pos le = rw (
  ne→== size 0 (omega arith),
  le→ltb mem_size_aligned (block_size size) le,
  search_found h bs (block_size size) v,
)

malloc_too_big :
    (h : Heap) (size : ℕ) → mem_size_aligned < block_size size → mem_malloc h size ≡ ok (none, h)
unfolding mem_malloc
malloc_too_big h size lt = elim (Bool-cases (size == 0)) [
  | inl t ↦ rw t
  | inr t ↦ rw (t, lt→ltb mem_size_aligned (block_size size) lt)
]

finish_malloc-none :
    (h : Heap) (n : ℕ)
    → finish_malloc h n none
      ≡ ok (none, record h { stats = record (h.stats) { err = add16 h.stats.err 1 } })
unfolding finish_malloc
finish_malloc-none h n = refl

allocates :
    (h : Heap) (bs : List Block) (size n p : ℕ)
    → size ≤ n
    → 12 ≤ n
    → n % 4 ≡ 0
    → Inv h bs
    → first_fit mem_size_aligned n bs ≡ some p
    → mem_malloc h size ≡ finish_malloc h n (some p)
    → Allocated h bs size
allocates h bs size n p le hn al v e run =
    let (xs, ys, q, room) = first_fit-some mem_size_aligned n p bs e in
    let v' = subst (Inv h) q v in
    let (sz, fit, ar) = after-areas h xs p ys v' n hn al room in
    let post = after h xs p ys v' n hn al room in
    (
      result h xs p ys v' n hn al room,
      xs ++ post,
      p + sizeof_struct_mem,
      sz,
      areas p xs,
      areas mem_size_aligned ys,
      run ∙ finish_malloc-result h xs p ys v' n hn al room,
      result-Inv h xs p ys v' n hn al room,
      omega arith,
      omega (arith, (at_p h xs p ys v' n hn al room).2),
      ap (areas mem_size_aligned) q ∙ areas-append mem_size_aligned xs (block p false ∷ ys),
      areas-append mem_size_aligned xs post
          ∙ ap₂ ◌++◌ (ap (λ k. areas k xs) (after-start h xs p ys v' n hn al room)) ar,
    )

-- A request of 1 to 65532 bytes to a valid heap aborts on no assertion and ends: it gives out a new
-- aligned area that is big enough, leaving every allocated area as it was, or it returns NULL, and
-- then no free block has room for the request.
pub mem_malloc-Inv :
    (h : Heap) (bs : List Block) (size : ℕ)
    → Inv h bs
    → 0 < size
    → size ≤ 65532
    → Allocated h bs size ⊎ Refused h bs size
mem_malloc-Inv h bs size v pos le =
    let n = block_size size in
    let bounds = block_size_bounds size le in
    elim (Bool-cases (ltb mem_size_aligned (block_size size))) [
      | inl t ↦
          let lt = ltb→lt mem_size_aligned (block_size size) t in
          inr (
            h.stats,
            malloc_too_big h size lt,
            first_fit-none h.ram 0 mem_size_aligned (block_size size) bs v.chain (omega arith),
          )
      | inr t ↦
          let run = malloc_searches h bs size v pos (ltb→le mem_size_aligned (block_size size) t) in
          elim (Option-cases (first_fit mem_size_aligned (block_size size) bs)) [
            | inl e ↦ inr (_, run ∙ ap (finish_malloc h n) e ∙ finish_malloc-none h n, e)
            | inr (p, e) ↦ inl (
                allocates h bs size n p bounds.0 bounds.1 bounds.2 v e
                  (run ∙ ap (finish_malloc h n) e))
          ]
    ]

-- The rounding wraps for the three largest requests: they get what a request of 12 bytes gets.
pub mem_malloc-wraps :
    (h : Heap) (size : ℕ) → 65533 ≤ size → size ≤ 65535 → mem_malloc h size ≡ mem_malloc h 12
unfolding mem_malloc
mem_malloc-wraps h size lo hi =
    let e : block_size size ≡ block_size 12 = block_size-wraps size lo hi in
    rw (e, ne→== size 0 (omega arith))
