-- ===== src/Sys/Expire.antt =====
-- cwrap/sys_arch.c: the handlers that the timer thread runs in one round.
use my_lwip_poc.Base.{
  ℕ, suc, ◌≡◌, refl, true, false, [], ◌∷◌, ◌++◌, inl, inr, ap, Bool-cases, some, length,
}
use my_lwip_poc.Sys.Timer.{Timers, due, run_expired}

module _ {W : Type 0} (sys_now : W → ℕ × W)
    (call : (handler arg : ℕ) → W × Timers → W × Timers) where
  -- The entries of `done` are run in this order from the state `w`, each due at the clock reading
  -- before its call, and leave the state `end_`; `rest` follows them in the list.
  abbrev pub Fired : W → (done rest : Timers) → W → Type 0
  Fired w [] rest end_ = w ≡ end_
  Fired w (e ∷ es) rest end_ =
      (due e (sys_now w).0 ≡ true)
      × Fired (call e.handler e.arg ((sys_now w).1, es ++ rest)).0 es rest end_

  -- Nothing is left, or the next entry is not due.
  abbrev pub Waiting : W → Timers → Type 0
  Waiting w [] = Unit
  Waiting w (e ∷ es) = due e (sys_now w).0 ≡ false

  pub record Round (w : W) (ts : Timers) : Type 0 where
    pub done : Timers
    pub rest : Timers
    pub end_ : W
    pub run : run_expired sys_now call (suc (length ts)) w ts ≡ some ((sys_now end_).1, rest)
    pub parts : ts ≡ done ++ rest
    pub fired : Fired w done rest end_
    pub waiting : Waiting end_ rest

  -- If the handlers leave the timers alone, one more round than there are timers is enough for the
  -- loop to end. It runs the handlers of an initial part of the list, in its order, each due at the
  -- clock reading before its call; the rest of the list is empty or begins with a timer not yet due.
  pub run_expired-Round :
      (w : W) (ts : Timers)
      → ((h a : ℕ) (x : W) (us : Timers) → (call h a (x, us)).1 ≡ us)
      → Round w ts
  unfolding run_expired
  run_expired-Round w [] keep = record {
    done = [];
    rest = [];
    end_ = w;
    run = refl;
    parts = refl;
    fired = refl;
    waiting = tt;
  }
  run_expired-Round w (e ∷ ts) keep = elim (Bool-cases (due e (sys_now w).0)) [
    | inl t ↦
        let r = run_expired-Round (call e.handler e.arg ((sys_now w).1, ts)).0 ts keep in
        record {
          done = e ∷ r.done;
          rest = r.rest;
          end_ = r.end_;
          run = rw (t, keep e.handler e.arg (sys_now w).1 ts) r.run;
          parts = ap (◌∷◌ e) r.parts;
          fired = (t, rw⁻¹ r.parts (r.fired));
          waiting = r.waiting;
        }
    | inr t ↦ record {
      done = [];
      rest = e ∷ ts;
      end_ = w;
      run = rw t refl;
      parts = refl;
      fired = refl;
      waiting = t;
    }
  ]
