-- ===== src/Mem/Blocks.antt =====
-- The heap as a list of blocks in the order of their addresses, and when the headers in `ram`
-- represent it.
use my_lwip_poc.Base.{
  ℕ, ◌+◌, ◌-◌, ◌%◌, ◌≤◌, ◌<◌, ◌≡◌, Bool, true, false, not, List, [], ◌∷◌, ◌++◌, if◌then◌else◌,
  ne→==, arith,
}
use my_lwip_poc.Mem.{mem_size_aligned, sizeof_struct_mem, Header, header, Ram, Heap, write}

pub record Block : Type 0 where
  pub pos : ℕ
  pub used : Bool

abbrev pub block : ℕ → Bool → Block
block p u = record { pos = p; used = u }

-- Where the first block begins, or what follows when there is none.
abbrev pub start : ℕ → List Block → ℕ
start stop [] = stop
start stop (b ∷ bs) = b.pos

-- Where the last block begins.
abbrev pub last_pos : ℕ → List Block → ℕ
last_pos prev [] = prev
last_pos prev (b ∷ bs) = last_pos b.pos bs

-- From `start`, whose header points back to `prev`, the headers lead through the blocks to `stop`.
abbrev pub Seg : Ram → (prev stop : ℕ) → List Block → Type 0
Seg ram prev stop [] = Unit
Seg ram prev stop (b ∷ bs) =
    (ram b.pos ≡ header (start stop bs) prev b.used)
    × (b.pos + 20 ≤ start stop bs)
    × (b.pos % 4 ≡ 0)
    × Seg ram b.pos stop bs

-- The lowest free block.
abbrev pub lowest : ℕ → List Block → ℕ
lowest stop [] = stop
lowest stop (b ∷ bs) = if b.used then lowest stop bs else b.pos

-- No free block next to a free block; `free` tells whether the block before is free.
abbrev pub Apart : Bool → List Block → Type 0
Apart free [] = Unit
Apart free (b ∷ bs) = (if free then b.used ≡ true else Unit {0}) × Apart (not b.used) bs

pub record Inv (h : Heap) (bs : List Block) : Type 0 where
  pub chain : Seg h.ram 0 mem_size_aligned bs
  pub first : start mem_size_aligned bs ≡ 0
  pub end_used : (h.ram mem_size_aligned).used ≡ true
  pub lowest_free : h.lfree ≡ lowest mem_size_aligned bs
  pub apart : Apart false bs

-- The allocated areas: where the data begin, and how many bytes there are.
abbrev pub areas : ℕ → List Block → List (ℕ × ℕ)
areas stop [] = []
areas stop (b ∷ bs) =
    let rest = areas stop bs in
    if b.used
    then (b.pos + sizeof_struct_mem, start stop bs - b.pos - sizeof_struct_mem) ∷ rest
    else rest

module _ (ram : Ram) where
  pub start-le-stop :
      (prev stop : ℕ) (bs : List Block) → Seg ram prev stop bs → start stop bs ≤ stop
  start-le-stop prev stop [] s = omega arith
  start-le-stop prev stop (b ∷ bs) s = omega (arith, start-le-stop b.pos stop bs s.3)

  -- A segment that ends where the next one starts, and back.
  pub Seg-append :
      (prev stop : ℕ) (xs ys : List Block)
      → Seg ram prev (start stop ys) xs
      → Seg ram (last_pos prev xs) stop ys
      → Seg ram prev stop (xs ++ ys)
  Seg-append prev stop [] ys s t = t
  Seg-append prev stop (b ∷ []) ys s t = (s.0, s.1, s.2, t)
  Seg-append prev stop (b ∷ c ∷ xs) ys s t =
      (s.0, s.1, s.2, Seg-append b.pos stop (c ∷ xs) ys s.3 t)

  pub Seg-left :
      (prev stop : ℕ) (xs ys : List Block)
      → Seg ram prev stop (xs ++ ys)
      → Seg ram prev (start stop ys) xs
  Seg-left prev stop [] ys s = tt
  Seg-left prev stop (b ∷ []) ys s = (s.0, s.1, s.2, tt)
  Seg-left prev stop (b ∷ c ∷ xs) ys s = (s.0, s.1, s.2, Seg-left b.pos stop (c ∷ xs) ys s.3)

  pub Seg-right :
      (prev stop : ℕ) (xs ys : List Block)
      → Seg ram prev stop (xs ++ ys)
      → Seg ram (last_pos prev xs) stop ys
  Seg-right prev stop [] ys s = s
  Seg-right prev stop (b ∷ xs) ys s = Seg-right b.pos stop xs ys s.3

  -- A write at or above the end of a segment, or below its start, leaves it alone.
  pub Seg-write_above :
      (prev stop a : ℕ) (v : Header) (bs : List Block)
      → stop ≤ a
      → Seg ram prev stop bs
      → Seg (write ram a v) prev stop bs
  Seg-write_above prev stop a v [] le s = tt
  Seg-write_above prev stop a v (b ∷ bs) le s = (
    rw (ne→== b.pos a (omega (arith, start-le-stop b.pos stop bs s.3))) s.0,
    s.1,
    s.2,
    Seg-write_above b.pos stop a v bs le s.3,
  )

  pub Seg-write_below :
      (prev stop a : ℕ) (v : Header) (bs : List Block)
      → a < start stop bs
      → Seg ram prev stop bs
      → Seg (write ram a v) prev stop bs
  Seg-write_below prev stop a v [] lt s = tt
  Seg-write_below prev stop a v (b ∷ bs) lt s = (
    rw (ne→== b.pos a (omega arith)) s.0,
    s.1,
    s.2,
    Seg-write_below b.pos stop a v bs (omega arith) s.3,
  )
