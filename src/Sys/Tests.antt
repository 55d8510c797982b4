-- ===== src/Sys/Tests.antt =====
-- The timers and mailboxes of cwrap/sys_arch.c on concrete calls.
use my_lwip_poc.Base.{
  ℕ, ◌<◌, ◌≡◌, ◌⊎◌, refl, Bool, true, false, List, [], ◌∷◌, ◌&&◌, if◌then◌else◌, ◌==◌, arith, All,
  some,
}
use my_lwip_poc.Sys.Mbox.{
  Store, Mbox, node, sys_mbox_new, sys_mbox_post, mbox_append, returns, waits, err_ok, err_mem,
  sys_mbox_trypost,
}
use my_lwip_poc.Sys.Queue.{Entry, Queue, Linked, Fresh}
use my_lwip_poc.Sys.Passes.{post_cases, Unlinked}
use my_lwip_poc.Sys.History.{create, post, Run-Fifo, Fifo}
use my_lwip_poc.Sys.Timer.{
  TimeEntry, Timers, entry, sys_timeout, sys_untimeout, run_expired, due, thread_round, timed_wait,
}
use my_lwip_poc.Sys.Order.{Inserted, Sorted, sys_timeout-Inserted, sys_untimeout-pending, pending}
use my_lwip_poc.Sys.Expire.{Round}
use my_lwip_poc.Sys.Wrap.{run_expired-none_due, sys_timeout-wraps, Near}
use my_lwip_poc.Sys.Lock.{verdict, ends, misuses, thread_round-verdict}

abbrev no_nodes : Store
no_nodes a = node 0 0

abbrev empty_mbox : Mbox
empty_mbox = record { capacity = 2; count = 0; head = 0; tail = 0; valid = true; nodes = no_nodes }

abbrev one_message : Mbox
one_message = record {
  capacity = 2;
  count = 1;
  head = 64;
  tail = 64;
  valid = true;
  nodes = λ a. if a == 64 then node 0 7 else no_nodes a;
}

empty_mbox_new : sys_mbox_new 2 true true no_nodes ≡ (err_ok, some empty_mbox)
unfolding sys_mbox_new
empty_mbox_new = refl

empty_mbox-Unlinked : Unlinked empty_mbox 64
empty_mbox-Unlinked = (omega arith, fresh)
  where
    fresh : (xs : List Entry) → Linked no_nodes 0 xs → Fresh 64 xs
    fresh [] l = tt
    fresh (x ∷ xs) l = absurd (omega arith)

empty_mbox_post : sys_mbox_post empty_mbox 64 7 ≡ returns one_message
unfolding sys_mbox_post mbox_append
empty_mbox_post = refl

Run-Fifo_example : Fifo one_message (7 ∷ []) []
Run-Fifo_example =
    Run-Fifo (post 64 7 (create 2 true no_nodes empty_mbox_new) empty_mbox-Unlinked empty_mbox_post)

one_message-Queue : Queue one_message ((64, 7) ∷ [])
one_message-Queue = record {
  linked = (refl, omega arith, refl, tt, refl);
  last = refl;
  counted = refl;
  bounded = omega arith;
  open_ = refl;
}

empty_mbox-Queue : Queue empty_mbox []
empty_mbox-Queue = record {
  linked = refl;
  last = refl;
  counted = refl;
  bounded = omega arith;
  open_ = refl;
}

post_cases_example :
    ((◌≡◌ {A = ℕ} 2 0)
      × (sys_mbox_post empty_mbox 64 7 ≡ waits)
      × (sys_mbox_trypost empty_mbox 64 7 ≡ returns (err_mem, empty_mbox)))
    ⊎ ((◌<◌ 0 2)
        × ((m' : Mbox) × (sys_mbox_post empty_mbox 64 7 ≡ returns m')
            × (sys_mbox_trypost empty_mbox 64 7 ≡ returns (err_ok, m'))
            × Queue m' ((64, 7) ∷ [])))
post_cases_example = post_cases empty_mbox 64 7 [] empty_mbox-Queue empty_mbox-Unlinked

abbrev timer : (when_ms handler arg : ℕ) → TimeEntry
timer when_ms handler arg = record { when_ms = when_ms; handler = handler; arg = arg }

abbrev two_timers : Timers
two_timers = timer 100 1 0 ∷ timer 200 2 0 ∷ []

two_timers-Sorted : Sorted two_timers
two_timers-Sorted = ((omega arith, tt), (tt, tt))

sys_timeout-Inserted_example :
    Inserted two_timers (entry 50 50 3 0) (sys_timeout two_timers 50 50 3 0 true)
sys_timeout-Inserted_example =
    sys_timeout-Inserted two_timers 50 50 3 0 two_timers-Sorted (omega arith)

sys_untimeout-pending_example :
    Sorted (sys_untimeout two_timers 1 0)
    × (pending (sys_untimeout two_timers 1 0) 2 0
        ≡ (if 2 == 1 && 0 == 0 then 0 else pending two_timers 2 0))
sys_untimeout-pending_example =
    sys_untimeout-pending two_timers 1 0 2 0 two_timers-Sorted (omega arith)

-- A clock that goes from 150 to 250 at the first reading, and handlers that do nothing.
abbrev clock : Bool → ℕ × Bool
clock false = (150, true)
clock true = (250, true)

abbrev idle : (handler arg : ℕ) → Bool × Timers → Bool × Timers
idle handler arg s = s

run_expired-none_due_example :
    (r : Round clock idle false two_timers) × All
      (λ (x : TimeEntry). due x (clock r.end_).0 ≡ false)
      r.rest
run_expired-none_due_example =
    run_expired-none_due clock idle false two_timers (λ h a x us. refl) two_timers-Sorted near
  where
    near : (x : Bool) → All (Near (clock x).0) two_timers
    near false = (
      (omega arith, omega arith, omega arith, omega arith),
      ((omega arith, omega arith, omega arith, omega arith), tt),
    )
    near true = (
      (omega arith, omega arith, omega arith, omega arith),
      ((omega arith, omega arith, omega arith, omega arith), tt),
    )

-- 50 ms before the clock wraps.
abbrev late : Bool → ℕ × Bool
late b = (4294967246, b)

sys_timeout-wraps_example :
    (sys_timeout (timer 4294967200 1 0 ∷ []) 4294967246 100 3 0 true
      ≡ entry 4294967246 100 3 0 ∷ timer 4294967200 1 0 ∷ [])
    × (run_expired late idle 10 false
          (sys_timeout (timer 4294967200 1 0 ∷ []) 4294967246 100 3 0 true)
        ≡ some (false, entry 4294967246 100 3 0 ∷ timer 4294967200 1 0 ∷ []))
sys_timeout-wraps_example =
    sys_timeout-wraps late idle false false (timer 4294967200 1 0) [] 100 0 3 0 9 (omega arith)
      (omega arith) (omega arith) (omega arith) (omega arith) refl

thread_round-verdict_example :
    (verdict false (thread_round late idle [] 150 9 false two_timers) ≡ ends false)
    × (verdict false (thread_round late idle two_timers 150 9 false two_timers)
        ≡ (if due (timer 100 1 0) 150 then misuses (timed_wait 1000) else ends false))
thread_round-verdict_example =
    thread_round-verdict late idle 150 (timer 100 1 0) (timer 200 2 0 ∷ []) 9 false two_timers
