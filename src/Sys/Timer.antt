-- ===== src/Sys/Timer.antt =====
-- cwrap/sys_arch.c: the timers, a linked list under one mutex, and the timer thread. Handlers and
-- their arguments are addresses, 0 being NULL.
use my_lwip_poc.Base.{
  ℕ, zero, suc, Bool, List, [], ◌∷◌, ◌++◌, not, ◌&&◌, if◌then◌else◌, leb, ◌==◌, Option, none, some,
}
use my_lwip_poc.Base.Word.{add32, sub32, s32_diff_le_zero}

-- time_entry_t
pub record TimeEntry : Type 0 where
  pub when_ms : ℕ
  pub handler : ℕ
  pub arg : ℕ

abbrev pub Timers : Type 0
Timers = List TimeEntry

-- The loop that looks for the place of a new entry, and its linking there.
unfoldable pub insert_entry : Timers → TimeEntry → Timers
insert_entry [] e = e ∷ []
insert_entry (x ∷ xs) e =
    let rest = insert_entry xs e in if leb x.when_ms e.when_ms then x ∷ rest else e ∷ x ∷ xs

abbrev pub entry : (now msecs handler arg : ℕ) → TimeEntry
entry now msecs handler arg = record { when_ms = add32 now msecs; handler = handler; arg = arg }

-- `now` is what sys_now returns, and `malloc_ok` says whether malloc gives an entry.
unfoldable pub sys_timeout : Timers → (now msecs handler arg : ℕ) → (malloc_ok : Bool) → Timers
sys_timeout ts now msecs handler arg malloc_ok =
    if handler == 0
    then ts
    else if not malloc_ok
    then ts
    else insert_entry ts (entry now msecs handler arg)

abbrev pub matches : TimeEntry → (handler arg : ℕ) → Bool
matches x handler arg = x.handler == handler && x.arg == arg

-- The loop of sys_untimeout.
unfoldable pub remove_entries : Timers → (handler arg : ℕ) → Timers
remove_entries [] handler arg = []
remove_entries (x ∷ xs) handler arg =
    let rest = remove_entries xs handler arg in if matches x handler arg then rest else x ∷ rest

unfoldable pub sys_untimeout : Timers → (handler arg : ℕ) → Timers
sys_untimeout ts handler arg = if handler == 0 then ts else remove_entries ts handler arg

-- `(s32_t)(e->when_ms - now) <= 0`
abbrev pub due : TimeEntry → ℕ → Bool
due e now = s32_diff_le_zero e.when_ms now

-- What the timer thread does with the mutex, and the handlers that it runs.
pub data LockEvent : Type 0 where
  enter : LockEvent
  leave : LockEvent
  timed_wait : ℕ → LockEvent
  handle : (handler arg : ℕ) → LockEvent

-- The first half of the timer thread's loop.
unfoldable pub wait_phase : Timers → (now : ℕ) → List LockEvent
wait_phase [] now = enter ∷ timed_wait 1000 ∷ leave ∷ []
wait_phase (e ∷ ts) now =
    if due e now
    then enter ∷ leave ∷ timed_wait 1000 ∷ leave ∷ []
    else enter ∷ timed_wait (sub32 e.when_ms now) ∷ leave ∷ []

-- The second half, which runs the expired handlers. `W` is the state of the rest of the program:
-- sys_now reads its clock, and a handler, which runs with the mutex free, may change it and the
-- timers. `none` stands for more rounds than the fuel allows.
module _ {W : Type 0} (sys_now : W → ℕ × W)
    (call : (handler arg : ℕ) → W × Timers → W × Timers) where
  unfoldable pub run_expired : ℕ → W → Timers → Option (W × Timers)
  run_expired zero w ts = none
  run_expired (suc fuel) w [] = some ((sys_now w).1, [])
  run_expired (suc fuel) w (e ∷ ts) =
      let (now, w') = sys_now w in
      let (w'', ts') = call e.handler e.arg (w', ts) in
      let rest = run_expired fuel w'' ts' in if due e now then rest else some (w', e ∷ ts)

  -- What that half does with the mutex, in `fuel` rounds at most.
  unfoldable pub expired_locks : ℕ → W → Timers → List LockEvent
  expired_locks zero w ts = []
  expired_locks (suc fuel) w [] = enter ∷ leave ∷ []
  expired_locks (suc fuel) w (e ∷ ts) =
      let (now, w') = sys_now w in
      let (w'', ts') = call e.handler e.arg (w', ts) in
      let rest = expired_locks fuel w'' ts' in
      if due e now then enter ∷ leave ∷ handle e.handler e.arg ∷ rest else enter ∷ leave ∷ []

  -- One round of the thread. While it waits, other threads may change the timers, so that the second
  -- half begins with `ts'`.
  unfoldable pub thread_round : (ts : Timers) (now fuel : ℕ) → W → (ts' : Timers) → List LockEvent
  thread_round ts now fuel w ts' = wait_phase ts now ++ expired_locks fuel w ts'
