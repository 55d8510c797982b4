-- ===== src/Memp/Tests.antt =====
-- Pools on concrete calls.
use my_lwip_poc.Base.{ℕ, ◌≡◌, refl, [], ◌∷◌, arith}
use my_lwip_poc.Base.Outcome.{Outcome, ok, assert_failed, out_of_fuel}
use my_lwip_poc.Memp.{Memp, no_stats, carve_pool, carve_pools, memp_init, memp_malloc, memp_free}
use my_lwip_poc.Memp.Client.{Inv, Refines, memp_malloc-Refines}
use my_lwip_poc.Memp.Return.{returned, memp_free-memp_malloc}
use my_lwip_poc.Memp.Carve.{memp_init-Inv}
use my_lwip_poc.Memp.Runs.{Run, start, allocated, Run-Inv}

-- Two pools of two elements each, of eight bytes.
abbrev two : ℕ → ℕ
two t = 2

abbrev bytes : ℕ → ℕ
bytes t = 8

-- The memory before memp_init.
abbrev blank : Memp
blank = record { tab = λ t. 0; next = λ a. 0; stats = λ t. no_stats; avail = λ t. 0 }

abbrev fresh : Memp
fresh = memp_init two bytes 2 100 blank

fresh-Inv : Inv two bytes 2 100 fresh []
fresh-Inv = memp_init-Inv two bytes 2 100 (λ t. omega arith) (λ t. refl) (omega arith) refl blank

memp_malloc-Refines_example : Refines two bytes 2 100 (λ t. omega arith) fresh [] 1
memp_malloc-Refines_example =
    memp_malloc-Refines two bytes 2 100 (λ t. omega arith) fresh [] 1 fresh-Inv (omega arith)

-- The state that a call returns.
abbrev state_of : Outcome (ℕ × Memp) → Memp
state_of (ok r) = r.1
state_of assert_failed = blank
state_of out_of_fuel = blank

abbrev one_taken : Memp
one_taken = state_of (memp_malloc two bytes 2 100 1 fresh)

gives_last : memp_malloc two bytes 2 100 1 fresh ≡ ok (124, one_taken)
unfolding memp_init carve_pools carve_pool memp_malloc
gives_last = refl

one_taken-Run : Run two bytes 2 100 blank one_taken ((1, 124) ∷ [])
one_taken-Run = allocated start (omega arith) gives_last (omega arith)

Run-Inv_example : Inv two bytes 2 100 one_taken ((1, 124) ∷ [])
Run-Inv_example =
    Run-Inv two bytes 2 100 (λ t. omega arith) (λ t. refl) (omega arith) refl blank one_taken
      ((1, 124) ∷ []) one_taken-Run

memp_free-memp_malloc_example :
    (memp_free two bytes 2 100 1 124 one_taken
      ≡ ok (returned two bytes 2 100 (λ t. omega arith) one_taken 1 124))
    × Inv two bytes 2 100 (returned two bytes 2 100 (λ t. omega arith) one_taken 1 124) []
    × ((u : Memp) × (memp_malloc two bytes 2 100 1
            (returned two bytes 2 100 (λ t. omega arith) one_taken 1 124)
          ≡ ok (124, u))
        × Inv two bytes 2 100 u ((1, 124) ∷ []))
memp_free-memp_malloc_example =
    memp_free-memp_malloc two bytes 2 100 (λ t. omega arith) one_taken [] [] 1 124 (λ t. refl)
      (omega arith) refl
      (Run-Inv two bytes 2 100 (λ t. omega arith) (λ t. refl) (omega arith) refl blank one_taken
        ((1, 124) ∷ []) one_taken-Run)
      (omega arith)
