-- ===== src/Memp.antt =====
-- lwip-1.4.1/src/core/memp.c: pools of elements of one size. As configured, MEMP_MEM_MALLOC,
-- MEMP_SEPARATE_POOLS, MEMP_OVERFLOW_CHECK and MEMP_SANITY_CHECK are 0, and SYS_ARCH_PROTECT is empty.
pub mod Lists
pub mod Carve
pub mod Runs
pub mod Client
pub mod Return
mod Tests
use my_lwip_poc.Base.{ℕ, zero, suc, ◌+◌, ◌*◌, ◌%◌, Bool, not, if◌then◌else◌, ltb, ◌==◌}
use my_lwip_poc.Base.Word.{add16}
use my_lwip_poc.Base.Outcome.{Outcome, ok, assert_failed, asserting}
use my_lwip_poc.Mem.{Stats, inc_used, dec_used}

-- memp_tab; the field next of the element at an address, NULL being 0; lwip_stats.memp, and its field
-- avail.
pub record Memp : Type 0 where
  pub tab : ℕ → ℕ
  pub next : ℕ → ℕ
  pub stats : ℕ → Stats
  pub avail : ℕ → ℕ

-- An array, or a field of all elements, with one value written.
abbrev pub set_at : {A : Type 0} → (ℕ → A) → ℕ → A → ℕ → A
set_at f i v j = if j == i then v else f j

-- MEMP_STATS_INC(err, type)
abbrev pub inc_err : Stats → Stats
inc_err s = record s { err = add16 s.err 1 }

abbrev pub no_stats : Stats
no_stats = record { used = 0; max = 0; err = 0 }

-- An element goes to the front of the list of its pool.
abbrev pub push : Memp → (type memp : ℕ) → Memp
push s type memp = record s { next = set_at s.next memp (s.tab type); tab = set_at s.tab type memp }

-- memp_num and memp_sizes, which the build makes from memp_std.h and the sizes of its types, for
-- MEMP_MAX pools; and the aligned address of memp_memory.
module _ (memp_num memp_sizes : ℕ → ℕ) (memp_max memory : ℕ) where
  -- The loop that carves out one pool, and where the next one begins.
  unfoldable pub carve_pool : (n type memp : ℕ) → Memp → ℕ × Memp
  carve_pool zero type memp s = (memp, s)
  carve_pool (suc n) type memp s = carve_pool n type (memp + memp_sizes type) (push s type memp)

  -- The loop over the pools, `n` of them from `type` on.
  unfoldable pub carve_pools : (n type memp : ℕ) → Memp → Memp
  carve_pools zero type memp s = s
  carve_pools (suc n) type memp s =
      let r = carve_pool (memp_num type) type memp (record s { tab = set_at s.tab type 0 }) in
      carve_pools n (suc type) r.0 r.1

  -- The counters are set first.
  unfoldable pub memp_init : Memp → Memp
  memp_init s = carve_pools memp_max 0 memory (record s {
    stats = λ i. if ltb i memp_max then no_stats else s.stats i;
    avail = λ i. if ltb i memp_max then memp_num i else s.avail i;
  })

  -- The element taken, and the rest.
  abbrev pub take_first : Memp → (type memp : ℕ) → Outcome (ℕ × Memp)
  take_first s type memp = asserting (memp % 4 == 0) (
      ok (
        memp,
        record s {
          tab = set_at s.tab type (s.next memp);
          stats = set_at s.stats type (inc_used (s.stats type) 1);
        },
      ))

  -- LWIP_ERROR aborts.
  unfoldable pub memp_malloc : (type : ℕ) → Memp → Outcome (ℕ × Memp)
  memp_malloc type s =
      if not (ltb type memp_max)
      then assert_failed
      else if s.tab type == 0
      then ok (0, record s { stats = set_at s.stats type (inc_err (s.stats type)) })
      else take_first s type (s.tab type)

  unfoldable pub memp_free : (type mem : ℕ) → Memp → Outcome Memp
  memp_free type mem s =
      if mem == 0
      then ok s
      else asserting (mem % 4 == 0) (
          ok (push (record s { stats = set_at s.stats type (dec_used (s.stats type) 1) }) type mem))
