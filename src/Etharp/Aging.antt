-- ===== src/Etharp/Aging.antt =====
-- netif/etharp.c: entries expire.
use my_lwip_poc.Base.{
  ℕ, zero, suc, ◌+◌, ◌≤◌, ◌<◌, ◌≡◌, ◌≢◌, refl, true, false, ◌||◌, ◌⊎◌, inl, inr, ◌==◌, arith,
  Bool-cases, ==→ne, sym, subst,
}
use my_lwip_poc.Etharp.{ArpEntry, Arp, older, expired, etharp_tmr}
use my_lwip_poc.Etharp.Find.{Inv}
use my_lwip_poc.Etharp.Timer.{tick, etharp_tmr-tick}

-- `n` calls of etharp_tmr.
abbrev pub ticks : ℕ → Arp → Arp
ticks zero s = s
ticks (suc n) s = ticks n (etharp_tmr s)

-- An entry that is not static and has not expired, of which `n` ticks are left at most.
record Waits (n : ℕ) (e : ArpEntry) : Type 0 where
  used : e.state ≢ 0
  dynamic : e.state ≢ 4
  old : e.ctime < 240
  young : e.state ≡ 1 → e.ctime < 2
  left : (240 ≤ n + e.ctime) ⊎ ((e.state ≡ 1) × (2 ≤ n + e.ctime))

abbrev Expires : ℕ → ArpEntry → Type 0
Expires n e = (e.state ≡ 0) ⊎ Waits n e

awake : (e : ArpEntry) → e.state ≢ 0 → e.state ≢ 4 → ((e.state == 0) || (e.state == 4)) ≡ false
awake e used dynamic = ground arith

asleep : (e : ArpEntry) → e.state ≡ 0 → ((e.state == 0) || (e.state == 4)) ≡ true
asleep e z = ground arith

three_one : (e : ArpEntry) → (e.state == 3) ≡ true → e.state ≢ 1
three_one e c x = ground arith

tick-Waits : (n : ℕ) (e : ArpEntry) → Waits (suc n) e → Expires n (tick e)
tick-Waits n e w =
    let used = w.used in
    let dynamic = w.dynamic in
    let old = w.old in
    elim (Bool-cases (expired (older e))) [
      | inl b ↦ rw (awake e used dynamic) (rw b (inl refl))
      | inr b ↦ rw (awake e used dynamic) (
          rw b (elim (Bool-cases (e.state == 3)) [
            | inl c ↦ rw c (
                inr (record {
                  used = λ x. omega (arith, x);
                  dynamic = λ x. omega (arith, x);
                  old = ground arith;
                  young = λ x. absurd (omega (arith, x));
                  left = elim w.left [
                    | inl l ↦ inl (omega arith)
                    | inr l ↦ absurd (three_one e c l.0)
                  ];
                }))
            | inr c ↦ rw c (
                inr (record {
                  used = used;
                  dynamic = dynamic;
                  old = ground arith;
                  young = λ x. ground arith;
                  left = elim w.left [
                    | inl l ↦ inl (omega arith)
                    | inr l ↦ inr (l.0, omega (arith, l.1))
                  ];
                }))
          ]))
    ]

tick-Expires : (n : ℕ) (e : ArpEntry) → Expires (suc n) e → Expires n (tick e)
tick-Expires n e (inl z) = rw (asleep e z) (inl z)
tick-Expires n e (inr w) = tick-Waits n e w

done : (e : ArpEntry) → Expires 0 e → e.state ≡ 0
done e (inl z) = z
done e (inr w) =
    absurd
      (elim w.left [ inl l ↦ omega (arith, l, w.old) | inr l ↦ omega (arith, l.1, w.young l.0) ])

ticks-Expires :
    (n j : ℕ) (s : Arp) → j < 10 → Expires n (s.table j) → ((ticks n s).table j).state ≡ 0
ticks-Expires zero j s lt x = done (s.table j) x
ticks-Expires (suc n) j s lt x =
    ticks-Expires n j (etharp_tmr s) lt
      (subst (λ e. Expires n e) (sym (etharp_tmr-tick s j lt)) (tick-Expires n (s.table j) x))

-- On a table in order, an entry that is not static becomes unused when nothing updates it: after any
-- number of calls of etharp_tmr that, with its age, comes to 240 or more, or to 2 or more when it is
-- pending.
pub ticks-expire :
    (n j : ℕ) (s : Arp)
    → Inv s.table
    → j < 10
    → (s.table j).state ≢ 4
    → (240 ≤ n + (s.table j).ctime) ⊎ (((s.table j).state ≡ 1) × (2 ≤ n + (s.table j).ctime))
    → ((ticks n s).table j).state ≡ 0
ticks-expire n j s inv lt dynamic left = elim (Bool-cases ((s.table j).state == 0)) [
  | inl e ↦ ticks-Expires n j s lt (inl (ground arith))
  | inr e ↦
      let o = inv.sound j lt in
      ticks-Expires n j s lt (
        inr (record {
          used = ==→ne (s.table j).state 0 e;
          dynamic = dynamic;
          old = o.old (==→ne (s.table j).state 0 e);
          young = o.young;
          left = left;
        }))
]
