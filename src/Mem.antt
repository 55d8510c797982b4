-- ===== src/Mem.antt =====
-- lwip-1.4.1/src/core/mem.c: the heap, a doubly linked list of `struct mem` headers inside the
-- array `ram`. A header is addressed by its offset in `ram`, and the array is read as a function from
-- offsets to the headers written there. NO_SYS is 1 in the build of this file, so the mutex is empty,
-- and LWIP_ALLOW_MEM_FREE_FROM_OTHER_CONTEXT is 0.
pub mod Blocks
pub mod Links
pub mod Views
pub mod Plug
pub mod Free
pub mod Search
pub mod Take
pub mod Allocate
pub mod Shrink
pub mod Trim
pub mod Reach
mod Tests
pub mod Malloc
use my_lwip_poc.Base.{
  ℕ, zero, suc, ◌+◌, ◌-◌, ◌*◌, ◌/◌, ◌%◌, Bool, true, false, not, ◌&&◌, ◌||◌, Option, none, some,
  if◌then◌else◌, ltb, leb, ◌==◌,
}
pub use my_lwip_poc.Base.Outcome.{Outcome, ok, assert_failed, out_of_fuel, ◌>>=◌, asserting}
use my_lwip_poc.Base.Word.{u16_mod, add16, sub16}

-- MEM_SIZE_ALIGNED, SIZEOF_STRUCT_MEM, MIN_SIZE_ALIGNED at MEM_SIZE 16000 and MEM_ALIGNMENT 4.
abbrev pub mem_size_aligned : ℕ
mem_size_aligned = 16000

abbrev pub sizeof_struct_mem : ℕ
sizeof_struct_mem = 8

abbrev pub min_size_aligned : ℕ
min_size_aligned = 12

-- struct mem
pub record Header : Type 0 where
  pub next : ℕ
  pub prev : ℕ
  pub used : Bool

abbrev pub header : ℕ → ℕ → Bool → Header
header next prev used = record { next = next; prev = prev; used = used }

abbrev pub Ram : Type 0
Ram = ℕ → Header

-- lwip_stats.mem, whose counters are u16_t (`used` and `max` are mem_size_t).
pub record Stats : Type 0 where
  pub used : ℕ
  pub max : ℕ
  pub err : ℕ

pub record Heap : Type 0 where
  pub ram : Ram
  pub lfree : ℕ
  pub stats : Stats

abbrev pub write : Ram → ℕ → Header → Ram
write ram a v p = if p == a then v else ram p

abbrev pub set_next : Ram → ℕ → ℕ → Ram
set_next ram a v = write ram a (header v (ram a).prev (ram a).used)

abbrev pub set_prev : Ram → ℕ → ℕ → Ram
set_prev ram a v = write ram a (header (ram a).next v (ram a).used)

abbrev pub set_used : Ram → ℕ → Bool → Ram
set_used ram a v = write ram a (header (ram a).next (ram a).prev v)

abbrev pub inc_used : Stats → ℕ → Stats
inc_used s y =
    let u = add16 s.used y in record s { used = u; max = if ltb s.max u then u else s.max }

abbrev pub dec_used : Stats → ℕ → Stats
dec_used s y = record s { used = sub16 s.used y }

-- LWIP_MEM_ALIGN_SIZE, assigned to a mem_size_t, which is a u16_t.
unfoldable pub align_size : ℕ → ℕ
align_size size = (size + 3) / 4 * 4 % u16_mod

-- The rounding and the minimum that mem_malloc and mem_trim begin with.
unfoldable pub block_size : ℕ → ℕ
unfolding align_size
block_size size =
    if ltb (align_size size) min_size_aligned then min_size_aligned else align_size size

-- plug_holes, the part that looks forward.
unfoldable pub plug_forward : Heap → ℕ → Heap
plug_forward h mem =
    let nmem = (h.ram mem).next in
    let after = (h.ram nmem).next in
    if not (mem == nmem) && not (h.ram nmem).used && not (nmem == mem_size_aligned)
    then record h {
      lfree = if h.lfree == nmem then mem else h.lfree;
      ram = set_prev (set_next h.ram mem after) after mem;
    }
    else h

-- plug_holes, the part that looks backward.
unfoldable pub plug_backward : Heap → ℕ → Heap
plug_backward h mem =
    let pmem = (h.ram mem).prev in
    let after = (h.ram mem).next in
    if not (pmem == mem) && not (h.ram pmem).used
    then record h {
      lfree = if h.lfree == mem then pmem else h.lfree;
      ram = set_prev (set_next h.ram pmem after) after pmem;
    }
    else h

unfoldable pub plug_holes : Heap → ℕ → Outcome Heap
plug_holes h mem = asserting (ltb mem mem_size_aligned && not (h.ram mem).used) (
    asserting (leb (h.ram mem).next mem_size_aligned) (ok (plug_backward (plug_forward h mem) mem)))

-- `ram` holds what the array held before.
unfoldable pub mem_init : Ram → Heap
mem_init ram = record {
  ram =
      write (write ram 0 (header mem_size_aligned 0 false)) mem_size_aligned
        (header mem_size_aligned mem_size_aligned true);
  lfree = 0;
  stats = record { used = 0; max = 0; err = 0 };
}

-- The argument is the offset of the data in `ram`, or `none` for NULL. The range test behind the
-- assertions of the source tests what they have asserted, so its branch is never entered. A
-- pointer into the first header counts as a failed assertion.
unfoldable pub mem_free : Heap → Option ℕ → Outcome Heap
mem_free h none = ok h
mem_free h (some rmem) = asserting (rmem % 4 == 0) (
    asserting (ltb rmem mem_size_aligned && leb sizeof_struct_mem rmem) (
      let mem = rmem - sizeof_struct_mem in
      asserting (h.ram mem).used (
        plug_holes
          (record h {
            ram = set_used h.ram mem false;
            lfree = if ltb mem h.lfree then mem else h.lfree;
            stats = dec_used h.stats (sub16 (h.ram mem).next mem);
          })
          mem)))

-- The header that mem_trim makes at `ptr2` behind the block at `ptr`, in both branches.
unfoldable pub insert_header : Ram → (ptr ptr2 next : ℕ) → Ram
insert_header ram ptr ptr2 next =
    let linked = set_next (write ram ptr2 (header next ptr false)) ptr ptr2 in
    if not (next == mem_size_aligned) then set_prev linked next ptr2 else linked

unfoldable pub trim_block : Heap → (rmem ptr size newsize : ℕ) → Option ℕ × Heap
trim_block h rmem ptr size newsize =
    let mem_next = (h.ram ptr).next in
    let ptr2 = add16 (ptr + sizeof_struct_mem) newsize in
    let stats = dec_used h.stats (sub16 size newsize) in
    if not (h.ram mem_next).used
    then (
      some rmem,
      record h {
        lfree = if h.lfree == mem_next then ptr2 else h.lfree;
        ram = insert_header h.ram ptr ptr2 (h.ram mem_next).next;
        stats = stats;
      },
    )
    else if leb (newsize + sizeof_struct_mem + min_size_aligned) size
    then (
      some rmem,
      record h {
        lfree = if ltb ptr2 h.lfree then ptr2 else h.lfree;
        ram = insert_header h.ram ptr ptr2 mem_next;
        stats = stats;
      },
    )
    else (some rmem, h)

-- The data pointer comes back, or `none` for NULL.
unfoldable pub mem_trim : Heap → ℕ → ℕ → Outcome (Option ℕ × Heap)
mem_trim h rmem newsize =
    let new = block_size newsize in
    if ltb mem_size_aligned new
    then ok (none, h)
    else asserting (ltb rmem mem_size_aligned && leb sizeof_struct_mem rmem) (
        let ptr = rmem - sizeof_struct_mem in
        let size = sub16 (sub16 (h.ram ptr).next ptr) sizeof_struct_mem in
        asserting (leb new size)
          (if new == size then ok (some rmem, h) else ok (trim_block h rmem ptr size new)))
