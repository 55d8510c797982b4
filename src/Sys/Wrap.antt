-- ===== src/Sys/Wrap.antt =====
-- cwrap/sys_arch.c: the order of the list, which compares times unsigned, against the test for an
-- expired timer, which compares them signed.
use my_lwip_poc.Base.{
  ℕ, suc, ◌+◌, ◌<◌, ◌≡◌, ◌≢◌, refl, true, false, [], ◌∷◌, ◌++◌, leb, arith, sym, ◌∙◌, All, some,
  subst, ne→==, lt→leb, leb→lt,
}
use my_lwip_poc.Base.Word.{add32, u32_mod, s32_diff_le_zero}
use my_lwip_poc.Sys.Timer.{TimeEntry, Timers, entry, sys_timeout, insert_entry, due, run_expired}
use my_lwip_poc.Sys.Order.{Above, Sorted}
use my_lwip_poc.Sys.Expire.{Waiting, Round, run_expired-Round}

-- A time and a clock reading less than 2^31 ms apart, with no wrap between them.
abbrev pub Near : ℕ → TimeEntry → Type 0
Near now e =
    (now < u32_mod)
    × (e.when_ms < u32_mod)
    × (now < e.when_ms + 2147483648)
    × (e.when_ms < now + 2147483648)

due_le : (now : ℕ) (e : TimeEntry) → Near now e → due e now ≡ leb e.when_ms now
due_le now e n = ground arith

Above-not_due :
    (now k : ℕ) (ts : Timers)
    → now < k
    → Above k ts
    → All (Near now) ts
    → All (λ (x : TimeEntry). due x now ≡ false) ts
Above-not_due now k [] lt a n = tt
Above-not_due now k (x ∷ xs) lt a n = (
  due_le now x n.0 ∙ lt→leb x.when_ms now (omega (arith, a.0)),
  Above-not_due now k xs lt a.1 n.1,
)

-- In an ordered list whose times are all near the clock reading, if the first timer is not due then
-- none is: what the loop over the expired timers leaves can wait.
pub first_not_due :
    (now : ℕ) (e : TimeEntry) (ts : Timers)
    → Sorted (e ∷ ts)
    → All (Near now) (e ∷ ts)
    → due e now ≡ false
    → All (λ (x : TimeEntry). due x now ≡ false) (e ∷ ts)
first_not_due now e ts s n d =
    let lt = leb→lt e.when_ms now (sym (due_le now e n.0) ∙ d) in
    (d, Above-not_due now e.when_ms ts lt s.0 n.1)

Sorted-suffix : (xs ys : Timers) → Sorted (xs ++ ys) → Sorted ys
Sorted-suffix [] ys s = s
Sorted-suffix (x ∷ xs) ys s = Sorted-suffix xs ys s.1

Near-suffix : (now : ℕ) (xs ys : Timers) → All (Near now) (xs ++ ys) → All (Near now) ys
Near-suffix now [] ys n = n
Near-suffix now (x ∷ xs) ys n = Near-suffix now xs ys n.1

wrapped-first :
    (x : TimeEntry) (xs : Timers) (e : TimeEntry)
    → e.when_ms < x.when_ms
    → insert_entry (x ∷ xs) e ≡ e ∷ x ∷ xs
unfolding insert_entry
wrapped-first x xs e lt = rw (lt→leb x.when_ms e.when_ms lt) refl

sum_not_due :
    (now msecs k : ℕ)
    → now < u32_mod
    → k < msecs
    → msecs < 2147483648
    → s32_diff_le_zero (add32 now msecs) (add32 now k) ≡ false
sum_not_due now msecs k l p q = ground arith

module _ {W : Type 0} (sys_now : W → ℕ × W)
    (call : (handler arg : ℕ) → W × Timers → W × Timers) where
  left-Waiting :
      (w : W) (ts : Timers)
      → Sorted ts
      → All (Near (sys_now w).0) ts
      → Waiting sys_now call w ts
      → All (λ (x : TimeEntry). due x (sys_now w).0 ≡ false) ts
  left-Waiting w [] s n d = tt
  left-Waiting w (e ∷ ts) s n d = first_not_due (sys_now w).0 e ts s n d

  -- If the handlers leave the timers alone, the list is ordered, and its times stay less than 2^31 ms
  -- from the clock with no wrap between, the loop ends, has run an initial part of the list in its
  -- order, each handler when it was due, and no timer that it leaves is due at its last reading.
  pub run_expired-none_due :
      (w : W) (ts : Timers)
      → ((h a : ℕ) (x : W) (us : Timers) → (call h a (x, us)).1 ≡ us)
      → Sorted ts
      → ((x : W) → All (Near (sys_now x).0) ts)
      → (r : Round sys_now call w ts) × All
          (λ (x : TimeEntry). due x (sys_now r.end_).0 ≡ false)
          r.rest
  run_expired-none_due w ts keep s n =
      let r = run_expired-Round sys_now call w ts keep in
      (
        r,
        left-Waiting r.end_ r.rest (Sorted-suffix r.done r.rest (subst Sorted r.parts s))
            (Near-suffix (sys_now r.end_).0 r.done r.rest
              (subst (All (Near (sys_now r.end_).0)) r.parts (n r.end_)))
            r.waiting,
      )

  -- A timeout with a handler, for which malloc gives an entry, and of fewer than 2^31 ms, whose
  -- time lies below that of the first timer, as it does when it wraps past 2^32, goes to the front
  -- of the list. At any later reading of the clock, fewer than msecs milliseconds after the call,
  -- and with the timers as the call leaves them, the timer thread runs no handler at all, also of
  -- no timer behind it that is due.
  pub sys_timeout-wraps :
      (w v : W) (x : TimeEntry) (xs : Timers) (msecs k handler arg fuel : ℕ)
      → (sys_now w).0 < u32_mod
      → k < msecs
      → msecs < 2147483648
      → handler ≢ 0
      → add32 (sys_now w).0 msecs < x.when_ms
      → (sys_now v).0 ≡ add32 (sys_now w).0 k
      → (sys_timeout (x ∷ xs) (sys_now w).0 msecs handler arg true
          ≡ entry (sys_now w).0 msecs handler arg ∷ x ∷ xs)
        × (run_expired sys_now call
              (suc fuel)
              v
              (sys_timeout (x ∷ xs) (sys_now w).0 msecs handler arg true)
            ≡ some ((sys_now v).1, entry (sys_now w).0 msecs handler arg ∷ x ∷ xs))
  unfolding sys_timeout run_expired
  sys_timeout-wraps w v x xs msecs k handler arg fuel l p q nz lt later =
      let ins = wrapped-first x xs (entry (sys_now w).0 msecs handler arg) lt in
      let nd = sum_not_due (sys_now w).0 msecs k l p q in
      (rw (ne→== handler 0 nz) ins, rw (ne→== handler 0 nz, ins, later, nd) refl)
