-- ===== src/Sys/Order.antt =====
-- The list of timers of cwrap/sys_arch.c is kept in order.
use my_lwip_poc.Base.{
  ℕ, ◌+◌, ◌≤◌, ◌<◌, ◌≡◌, ◌≢◌, refl, Bool, true, false, [], ◌∷◌, ◌++◌, not, ◌&&◌, inl, inr,
  if◌then◌else◌, leb, ◌==◌, arith, ap, ne→==, ==_refl, leb→le, leb→lt, Bool-cases, All,
}
use my_lwip_poc.Sys.Timer.{
  TimeEntry, Timers, insert_entry, entry, sys_timeout, matches, remove_entries, sys_untimeout,
}

abbrev pub Above : ℕ → Timers → Type 0
Above k ts = All (λ (x : TimeEntry). k ≤ x.when_ms) ts

abbrev pub Sorted : Timers → Type 0
Sorted [] = Unit
Sorted (x ∷ xs) = Above x.when_ms xs × Sorted xs

-- The entry `e` stands in `ts'` where it belongs in `ts`: behind all that are due no later.
pub record Inserted (ts : Timers) (e : TimeEntry) (ts' : Timers) : Type 0 where
  pub before : Timers
  pub after : Timers
  pub old : ts ≡ before ++ after
  pub new : ts' ≡ before ++ e ∷ after
  pub earlier : All (λ (x : TimeEntry). x.when_ms ≤ e.when_ms) before
  pub later : All (λ (x : TimeEntry). e.when_ms < x.when_ms) after
  pub sorted : Sorted ts'

lower : (j k : ℕ) (ts : Timers) → j < k → Above k ts → All (λ (x : TimeEntry). j < x.when_ms) ts
lower j k [] lt a = tt
lower j k (x ∷ xs) lt a = (omega (arith, a.0), lower j k xs lt a.1)

weaken : (j : ℕ) (ts : Timers) → All (λ (x : TimeEntry). j < x.when_ms) ts → Above j ts
weaken j [] a = tt
weaken j (x ∷ xs) a = (omega (arith, a.0), weaken j xs a.1)

insert-Above :
    (k : ℕ) (ts : Timers) (e : TimeEntry) → k ≤ e.when_ms → Above k ts → Above k (insert_entry ts e)
unfolding insert_entry
insert-Above k [] e le a = (le, tt)
insert-Above k (x ∷ xs) e le a = elim (Bool-cases (leb x.when_ms e.when_ms)) [
  | inl t ↦ rw t (a.0, insert-Above k xs e le a.1)
  | inr t ↦ rw t (le, (a.0, a.1))
]

insert-Inserted : (ts : Timers) (e : TimeEntry) → Sorted ts → Inserted ts e (insert_entry ts e)
unfolding insert_entry
insert-Inserted [] e s = record {
  before = [];
  after = [];
  old = refl;
  new = refl;
  earlier = tt;
  later = tt;
  sorted = (tt, tt);
}
insert-Inserted (x ∷ xs) e s = elim (Bool-cases (leb x.when_ms e.when_ms)) [
  | inl t ↦
      let i = insert-Inserted xs e s.1 in
      let le = leb→le x.when_ms e.when_ms t in
      rw t (record {
        before = x ∷ i.before;
        after = i.after;
        old = ap (◌∷◌ x) i.old;
        new = ap (◌∷◌ x) i.new;
        earlier = (le, i.earlier);
        later = i.later;
        sorted = (insert-Above x.when_ms xs e le s.0, i.sorted);
      })
  | inr t ↦
      let lt = leb→lt x.when_ms e.when_ms t in
      rw t (record {
        before = [];
        after = x ∷ xs;
        old = refl;
        new = refl;
        earlier = tt;
        later = (lt, lower e.when_ms x.when_ms xs lt s.0);
        sorted = ((omega arith, weaken e.when_ms xs (lower e.when_ms x.when_ms xs lt s.0)), s);
      })
]

-- A timeout with a handler, for which malloc gives an entry, goes into an ordered list of timers
-- behind all that are due no later, so timers for the same time keep the order of the calls. The
-- list stays ordered.
pub sys_timeout-Inserted :
    (ts : Timers) (now msecs handler arg : ℕ)
    → Sorted ts
    → handler ≢ 0
    → Inserted ts (entry now msecs handler arg) (sys_timeout ts now msecs handler arg true)
unfolding sys_timeout
sys_timeout-Inserted ts now msecs handler arg s nz =
    rw (ne→== handler 0 nz) (insert-Inserted ts (entry now msecs handler arg) s)

remove_none :
    (ts : Timers) (handler arg : ℕ)
    → All (λ (x : TimeEntry). matches x handler arg ≡ false) ts
    → remove_entries ts handler arg ≡ ts
unfolding remove_entries
remove_none [] handler arg a = refl
remove_none (x ∷ xs) handler arg a = rw (a.0, remove_none xs handler arg a.1) refl

remove-insert :
    (ts : Timers) (e : TimeEntry)
    → All (λ (x : TimeEntry). matches x e.handler e.arg ≡ false) ts
    → remove_entries (insert_entry ts e) e.handler e.arg ≡ ts
unfolding insert_entry remove_entries
remove-insert [] e a = rw (==_refl e.handler, ==_refl e.arg) refl
remove-insert (x ∷ xs) e a = elim (Bool-cases (leb x.when_ms e.when_ms)) [
  | inl t ↦ rw (t, a.0, remove-insert xs e a.1) refl
  | inr t ↦ rw (t, ==_refl e.handler, ==_refl e.arg, a.0, remove_none xs e.handler e.arg a.1) refl
]

-- A timeout that is taken back, while no other timer has this handler and argument, leaves the
-- timers as they were.
pub sys_untimeout-sys_timeout :
    (ts : Timers) (now msecs handler arg : ℕ) (malloc_ok : Bool)
    → All (λ (x : TimeEntry). matches x handler arg ≡ false) ts
    → sys_untimeout (sys_timeout ts now msecs handler arg malloc_ok) handler arg ≡ ts
unfolding sys_timeout sys_untimeout
sys_untimeout-sys_timeout ts now msecs handler arg malloc_ok a = elim (Bool-cases (handler == 0)) [
  | inl t ↦ rw t refl
  | inr t ↦ rw t (go malloc_ok)
]
  where
    go :
        (m : Bool)
        → remove_entries
            (if not m then ts else insert_entry ts (entry now msecs handler arg))
            handler
            arg
          ≡ ts
    go true = remove-insert ts (entry now msecs handler arg) a
    go false = remove_none ts handler arg a

-- How many timers have this handler and argument.
abbrev pub pending : Timers → (handler arg : ℕ) → ℕ
pending [] handler arg = 0
pending (x ∷ xs) handler arg =
    if matches x handler arg then pending xs handler arg + 1 else pending xs handler arg

remove-Above :
    (k : ℕ) (ts : Timers) (handler arg : ℕ) → Above k ts → Above k (remove_entries ts handler arg)
unfolding remove_entries
remove-Above k [] handler arg a = tt
remove-Above k (x ∷ xs) handler arg a = elim (Bool-cases (matches x handler arg)) [
  | inl t ↦ rw t (remove-Above k xs handler arg a.1)
  | inr t ↦ rw t (a.0, remove-Above k xs handler arg a.1)
]

remove-Sorted : (ts : Timers) (handler arg : ℕ) → Sorted ts → Sorted (remove_entries ts handler arg)
unfolding remove_entries
remove-Sorted [] handler arg s = tt
remove-Sorted (x ∷ xs) handler arg s = elim (Bool-cases (matches x handler arg)) [
  | inl t ↦ rw t (remove-Sorted xs handler arg s.1)
  | inr t ↦ rw t (remove-Above x.when_ms xs handler arg s.0, remove-Sorted xs handler arg s.1)
]

-- Taking out what (h, a) has does not touch what (k, b) has.
remove-pending :
    (ts : Timers) (h a k b : ℕ)
    → pending (remove_entries ts h a) k b ≡ (if k == h && b == a then 0 else pending ts k b)
unfolding remove_entries
remove-pending [] h a k b = ground arith
remove-pending (x ∷ xs) h a k b = ground (arith, remove-pending xs h a k b)

-- After sys_untimeout on an ordered list, the list is ordered, no timer has the handler and the
-- argument, and every other pair of a handler and an argument has as many timers as before.
pub sys_untimeout-pending :
    (ts : Timers) (handler arg k b : ℕ)
    → Sorted ts
    → handler ≢ 0
    → Sorted (sys_untimeout ts handler arg)
      × (pending (sys_untimeout ts handler arg) k b
          ≡ (if k == handler && b == arg then 0 else pending ts k b))
unfolding sys_untimeout
sys_untimeout-pending ts handler arg k b s nz =
    rw (ne→== handler 0 nz) (remove-Sorted ts handler arg s, remove-pending ts handler arg k b)
