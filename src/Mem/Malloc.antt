-- ===== src/Mem/Malloc.antt =====
-- lwip-1.4.1/src/core/mem.c: mem_malloc and mem_calloc. The two loops walk along `next`; they are
-- given as much fuel as the heap has bytes.
use my_lwip_poc.Base.{
  ℕ, zero, suc, ◌+◌, ◌-◌, ◌*◌, ◌%◌, Bool, true, false, not, ◌&&◌, ◌||◌, Option, none, some,
  if◌then◌else◌, ltb, leb, ◌==◌,
}
use my_lwip_poc.Base.Word.{u16_mod, add16, sub16}
use my_lwip_poc.Mem.{
  mem_size_aligned, sizeof_struct_mem, min_size_aligned, header, Ram, Heap, Outcome, ok,
  out_of_fuel, ◌>>=◌, asserting, write, set_used, set_prev, inc_used, block_size,
}

-- The test of the search loop. The difference in the source is unsigned: it does not wrap when the
-- block reaches behind its own header, as every block of a valid heap does.
abbrev pub fits : Ram → ℕ → ℕ → Bool
fits ram size ptr = not (ram ptr).used && leb (ptr + sizeof_struct_mem + size) (ram ptr).next

-- The search loop: the first free block that is big enough, or `none`.
unfoldable pub search_block : ℕ → Ram → (size ptr : ℕ) → Outcome (Option ℕ)
search_block zero ram size ptr = out_of_fuel
search_block (suc fuel) ram size ptr =
    let next = search_block fuel ram size (ram ptr).next in
    if ltb ptr (mem_size_aligned - size)
    then (if fits ram size ptr then ok (some ptr) else next)
    else ok none

-- Takes the free block at `ptr`: splits it, or gives it whole. The difference is as in `fits`.
unfoldable pub take_block : Heap → (size ptr : ℕ) → Heap
take_block h size ptr =
    let next = (h.ram ptr).next in
    let ptr2 = add16 (ptr + sizeof_struct_mem) size in
    let split =
      write (write h.ram ptr2 (header next ptr false)) ptr (header ptr2 (h.ram ptr).prev true) in
    if leb (ptr + sizeof_struct_mem + size + sizeof_struct_mem + min_size_aligned) next
    then record h {
      ram = if not (next == mem_size_aligned) then set_prev split next ptr2 else split;
      stats = inc_used h.stats (size + sizeof_struct_mem);
    }
    else record h { ram = set_used h.ram ptr true; stats = inc_used h.stats (sub16 next ptr) }

-- `while (cur->used && cur != ram_end)`
unfoldable pub next_free : ℕ → Ram → ℕ → Outcome ℕ
next_free zero ram cur = out_of_fuel
next_free (suc fuel) ram cur =
    let next = next_free fuel ram (ram cur).next in
    if (ram cur).used && not (cur == mem_size_aligned) then next else ok cur

-- mem_malloc_adjust_lfree, with the assertion behind it.
unfoldable pub adjust_lfree : Heap → ℕ → Outcome Heap
adjust_lfree h mem =
    if mem == h.lfree
    then (do
      cur ← next_free mem_size_aligned h.ram h.lfree
      asserting (cur == mem_size_aligned || not (h.ram cur).used) (ok (record h { lfree = cur })))
    else ok h

-- Behind the search: `none` is NULL.
unfoldable pub finish_malloc : Heap → ℕ → Option ℕ → Outcome (Option ℕ × Heap)
finish_malloc h size none =
    ok (none, record h { stats = record (h.stats) { err = add16 h.stats.err 1 } })
finish_malloc h size (some ptr) = do
  h' ← adjust_lfree (take_block h size ptr) ptr
  asserting
      (leb (ptr + sizeof_struct_mem + size) mem_size_aligned
        && ((ptr + sizeof_struct_mem) % 4 == 0)
        && (ptr % 4 == 0))
      (ok (some (ptr + sizeof_struct_mem), h'))

-- The result is the offset of the data in `ram`.
unfoldable pub mem_malloc : Heap → ℕ → Outcome (Option ℕ × Heap)
mem_malloc h size =
    let n = block_size size in
    if size == 0
    then ok (none, h)
    else if ltb mem_size_aligned n
    then ok (none, h)
    else (do found ← search_block mem_size_aligned h.ram n h.lfree; finish_malloc h n found)

-- `if (p) memset(p, 0, n)`
abbrev zeroed : Option ℕ → ℕ → ℕ
zeroed none n = 0
zeroed (some p) n = n

-- The product is taken in `int`, and `none` stands for its overflow, which C does not define.
-- `mem_malloc` takes a mem_size_t, a u16_t; the product that `memset` is given is not cut. The result
-- also says how many bytes are set to zero at the address that comes back.
unfoldable pub mem_calloc : Heap → ℕ → ℕ → Option (Outcome (Option ℕ × ℕ × Heap))
mem_calloc h count size =
    if ltb 2147483647 (count * size)
    then none
    else some
        (mem_malloc h (count * size % u16_mod) >>= λ r. ok (r.0, zeroed r.0 (count * size), r.1))
