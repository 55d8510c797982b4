-- ===== src/Mem/Tests.antt =====
-- The heap on concrete calls.
use my_lwip_poc.Base.{none, ℕ, ◌≡◌, ◌⊎◌, refl, true, false, List, [], ◌∷◌, arith, some, Option}
use my_lwip_poc.Mem.{
  header, Ram, Heap, Outcome, ok, ◌>>=◌, write, mem_init, mem_free, plug_holes, plug_forward,
  plug_backward, block_size,
}
use my_lwip_poc.Mem.Malloc.{
  mem_malloc, mem_calloc, search_block, finish_malloc, take_block, adjust_lfree, next_free,
}
use my_lwip_poc.Mem.Blocks.{Block, block, Inv, areas}
use my_lwip_poc.Mem.Free.{mem_free-Inv}
use my_lwip_poc.Mem.Shrink.{Trimmed}
use my_lwip_poc.Mem.Trim.{mem_trim-Inv}
use my_lwip_poc.Mem.Allocate.{mem_malloc-Inv, mem_malloc-wraps, Allocated, Refused}
use my_lwip_poc.Mem.Reach.{boot, malloc, Owns, Reach-Owns, own}

-- What the array held before mem_init.
abbrev blank : Ram
blank p = header 0 0 false

abbrev pointers : Outcome (Heap) → Outcome ℕ
pointers m = m >>= λ h. ok h.lfree

-- Two allocations, and the free of the first: the lowest free block is at offset 0 again.
malloc_malloc_free :
    pointers (do a ← mem_malloc (mem_init blank) 100; b ← mem_malloc a.1 13; mem_free b.1 (some 8))
    ≡ ok 0
unfolding mem_malloc mem_init search_block finish_malloc take_block adjust_lfree next_free mem_free
    plug_holes plug_forward plug_backward block_size
malloc_malloc_free = refl

-- Three blocks: used, used, free.
abbrev two_used : Heap
two_used = record {
  ram =
      write
        (write (write (write blank 0 (header 40 0 true)) 40 (header 100 0 true)) 100
          (header 16000 40 false))
        16000 (header 16000 16000 true);
  lfree = 100;
  stats = record { used = 100; max = 100; err = 0 };
}

abbrev two_used_blocks : List Block
two_used_blocks = block 0 true ∷ block 40 true ∷ block 100 false ∷ []

two_used-Inv : Inv two_used two_used_blocks
two_used-Inv = record {
  chain = (refl, omega arith, refl, (refl, omega arith, refl, (refl, omega arith, refl, tt)));
  first = refl;
  end_used = refl;
  lowest_free = refl;
  apart = (tt, (tt, (tt, tt)));
}

mem_free-Inv_example :
    (h' : Heap) × (bs : List Block) × (mem_free two_used (some 48) ≡ ok h')
    × Inv h' bs
    × (areas 16000 two_used_blocks ≡ (8, 32) ∷ (48, 52) ∷ [])
    × (areas 16000 bs ≡ (8, 32) ∷ [])
mem_free-Inv_example =
    mem_free-Inv two_used (block 0 true ∷ []) 40 (block 100 false ∷ []) two_used-Inv

mem_malloc-Inv_example :
    Allocated two_used two_used_blocks 200 ⊎ Refused two_used two_used_blocks 200
mem_malloc-Inv_example =
    mem_malloc-Inv two_used two_used_blocks 200 two_used-Inv (omega arith) (omega arith)

mem_trim-Inv_example : Trimmed two_used (block 0 true ∷ []) 40 (block 100 false ∷ []) 20
mem_trim-Inv_example =
    mem_trim-Inv two_used (block 0 true ∷ []) 40 (block 100 false ∷ []) 20 two_used-Inv
      (omega arith) (unfold block_size in omega arith)

mem_malloc-wraps_example : mem_malloc two_used 65535 ≡ mem_malloc two_used 12
mem_malloc-wraps_example = mem_malloc-wraps two_used 65535 (omega arith) (omega arith)

-- The heap that a call leaves.
abbrev left : Heap → Outcome (Option ℕ × Heap) → Heap
left h (ok r) = r.1
left h m = h

abbrev first_malloc : Heap
first_malloc = left (mem_init blank) (mem_malloc (mem_init blank) 100)

first_malloc_runs : mem_malloc (mem_init blank) 100 ≡ ok (some 8, first_malloc)
unfolding mem_malloc mem_init search_block finish_malloc take_block adjust_lfree next_free
    block_size
first_malloc_runs = refl

Reach-Owns_example : (bs : List Block) × Owns first_malloc (own (λ q. false) (some 8)) bs
Reach-Owns_example =
    Reach-Owns (malloc 100 (boot blank) (omega arith) (omega arith) first_malloc_runs)

-- A product of 2^31 or more overflows.
mem_calloc-overflows : mem_calloc first_malloc 65535 65535 ≡ none
unfolding mem_calloc
mem_calloc-overflows = refl
