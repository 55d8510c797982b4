-- ===== src/Sys/Lock.antt =====
-- cwrap/sys_arch.c: the mutex g_time_lock in the hands of the timer thread.
use my_lwip_poc.Base.{
  ℕ, zero, suc, ◌≡◌, refl, Bool, true, false, List, [], ◌∷◌, if◌then◌else◌, Bool-cases, inl, inr,
}
use my_lwip_poc.Sys.Timer.{
  TimeEntry, Timers, due, LockEvent, enter, leave, timed_wait, handle, wait_phase, expired_locks,
  thread_round,
}

-- What comes of a thread's acts: the mutex is held at the end or not, or the first act that is not
-- allowed: entering the mutex while holding it, leaving it or waiting on it without holding it, or
-- running a handler while holding it.
pub data Verdict : Type 0 where
  ends : (holding : Bool) → Verdict
  misuses : LockEvent → Verdict

abbrev pub verdict : (holding : Bool) → List LockEvent → Verdict
verdict b [] = ends b
verdict false (enter ∷ es) = verdict true es
verdict true (enter ∷ es) = misuses enter
verdict true (leave ∷ es) = verdict false es
verdict false (leave ∷ es) = misuses leave
verdict true (timed_wait ms ∷ es) = verdict true es
verdict false (timed_wait ms ∷ es) = misuses (timed_wait ms)
verdict false (handle h a ∷ es) = verdict false es
verdict true (handle h a ∷ es) = misuses (handle h a)

module _ {W : Type 0} (sys_now : W → ℕ × W)
    (call : (handler arg : ℕ) → W × Timers → W × Timers) where
  expired_locks-ends :
      (fuel : ℕ) (w : W) (ts : Timers)
      → verdict false (expired_locks sys_now call fuel w ts) ≡ ends false
  unfolding expired_locks
  expired_locks-ends zero w ts = refl
  expired_locks-ends (suc fuel) w [] = refl
  expired_locks-ends (suc fuel) w (e ∷ ts) =
      let r = call e.handler e.arg ((sys_now w).1, ts) in
      elim (Bool-cases (due e (sys_now w).0)) [
        | inl d ↦ rw d (expired_locks-ends fuel r.0 r.1)
        | inr d ↦ rw d refl
      ]

  -- In one round of the timer thread, whatever the handlers do, and however the timers change while it
  -- waits, the thread keeps to the discipline of the mutex, runs every handler without holding it, and
  -- does not hold it at the end, when there is no timer or the first one is not due. When the first
  -- timer is due, its first misuse is to wait on the mutex, for 1 s, without holding it.
  pub thread_round-verdict :
      (now : ℕ) (e : TimeEntry) (ts : Timers) (fuel : ℕ) (w : W) (us : Timers)
      → (verdict false (thread_round sys_now call [] now fuel w us) ≡ ends false)
        × (verdict false (thread_round sys_now call (e ∷ ts) now fuel w us)
            ≡ (if due e now then misuses (timed_wait 1000) else ends false))
  unfolding thread_round wait_phase
  thread_round-verdict now e ts fuel w us = (
    expired_locks-ends fuel w us,
    elim (Bool-cases (due e now)) [
      | inl d ↦ rw d refl
      | inr d ↦ rw d (expired_locks-ends fuel w us)
    ],
  )
