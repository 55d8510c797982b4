-- ===== src/Etharp/Timer.antt =====
-- netif/etharp.c: the loops over the table, and how entries age.
use my_lwip_poc.Base.{
  ℕ, zero, suc, ◌+◌, ◌≤◌, ◌<◌, ◌≡◌, ◌≢◌, refl, true, false, not, ◌&&◌, ◌||◌, inl, inr,
  if◌then◌else◌, ◌==◌, arith, Bool-cases, sym, ap, ◌∙◌, ==_refl, ne→==, subst,
}
use my_lwip_poc.Etharp.{
  ArpEntry, Arp, older, expired, etharp_free_entry, age_entry, each_entry, etharp_tmr,
  cleanup_entry, etharp_cleanup_netif,
}
use my_lwip_poc.Etharp.Find.{Sound, Inv}

-- A body of a loop that does this to its entry, and to no other.
pub record Does (f : ℕ → Arp → Arp) (g : ArpEntry → ArpEntry) : Type 0 where
  pub there : (i : ℕ) (s : Arp) → (f i s).table i ≡ g (s.table i)
  pub other : (i j : ℕ) (s : Arp) → j ≢ i → (f i s).table j ≡ s.table j
  pub hint : (i : ℕ) (s : Arp) → (f i s).cached ≡ s.cached

module _ (f : ℕ → Arp → Arp) (g : ArpEntry → ArpEntry) (d : Does f g) where
  pub each_entry-cached : (n i : ℕ) (s : Arp) → (each_entry f n i s).cached ≡ s.cached
  unfolding each_entry
  each_entry-cached zero i s = refl
  each_entry-cached (suc n) i s = each_entry-cached n (suc i) (f i s) ∙ d.hint i s

  each_entry-before : (n i j : ℕ) (s : Arp) → j < i → (each_entry f n i s).table j ≡ s.table j
  unfolding each_entry
  each_entry-before zero i j s lt = refl
  each_entry-before (suc n) i j s lt =
      each_entry-before n (suc i) j (f i s) (omega (arith, lt)) ∙ d.other i j s (omega (arith, lt))

  same : (i j : ℕ) → (j == i) ≡ true → i ≡ j
  same i j e = ground arith

  pub each_entry_lem :
      (n i j : ℕ) (s : Arp) → i ≤ j → j < n + i → (each_entry f n i s).table j ≡ g (s.table j)
  unfolding each_entry
  each_entry_lem zero i j s le lt = absurd (omega (arith, le, lt))
  each_entry_lem (suc n) i j s le lt = elim (Bool-cases (j == i)) [
    | inl e ↦
        each_entry-before n (suc i) j (f i s) (ground arith)
        ∙ subst (λ k. (f i s).table k ≡ g (s.table k)) (same i j e) (d.there i s)
    | inr e ↦
        each_entry_lem n (suc i) j (f i s) (ground arith) (omega (arith, lt))
        ∙ ap g (d.other i j s (ground arith))
  ]

-- What etharp_tmr does to an entry.
abbrev pub tick : ArpEntry → ArpEntry
tick e =
    if (e.state == 0) || (e.state == 4)
    then e
    else if expired (older e)
    then record (older e) { q = 0; state = 0 }
    else if e.state == 3
    then record (older e) { state = 2 }
    else older e

age_entry-Does : Does age_entry tick
unfolding age_entry etharp_free_entry
age_entry-Does = record {
  there = λ i s. elim (Bool-cases (((s.table i).state == 0) || ((s.table i).state == 4))) [
    | inl a ↦ rw a refl
    | inr a ↦ rw a (elim (Bool-cases (expired (older (s.table i)))) [
      | inl b ↦ rw b (rw (==_refl i) refl)
      | inr b ↦ rw b (elim (Bool-cases ((s.table i).state == 3)) [
        | inl c ↦ rw c (rw (==_refl i) refl)
        | inr c ↦ rw c (rw (==_refl i) refl)
      ])
    ])
  ];
  other = λ i j s ne. elim (Bool-cases (((s.table i).state == 0) || ((s.table i).state == 4))) [
    | inl a ↦ rw a refl
    | inr a ↦ rw a (elim (Bool-cases (expired (older (s.table i)))) [
      | inl b ↦ rw b (rw (ne→== j i ne) refl)
      | inr b ↦ rw b (elim (Bool-cases ((s.table i).state == 3)) [
        | inl c ↦ rw c (rw (ne→== j i ne) refl)
        | inr c ↦ rw c (rw (ne→== j i ne) refl)
      ])
    ])
  ];
  hint = λ i s. elim (Bool-cases (((s.table i).state == 0) || ((s.table i).state == 4))) [
    | inl a ↦ rw a refl
    | inr a ↦ rw a (elim (Bool-cases (expired (older (s.table i)))) [
      | inl b ↦ rw b refl
      | inr b ↦
          rw b
            (elim (Bool-cases ((s.table i).state == 3)) [ inl c ↦ rw c refl | inr c ↦ rw c refl ])
    ])
  ];
}

pub etharp_tmr-tick : (s : Arp) (j : ℕ) → j < 10 → (etharp_tmr s).table j ≡ tick (s.table j)
unfolding etharp_tmr
etharp_tmr-tick s j lt =
    each_entry_lem age_entry tick age_entry-Does 10 0 j s (omega arith) (omega (arith, lt))

-- What etharp_cleanup_netif does to an entry.
abbrev pub cleaned : ℕ → ArpEntry → ArpEntry
cleaned netif e =
    if not (e.state == 0) && (e.netif == netif) then record e { q = 0; state = 0 } else e

cleanup_entry-Does : (netif : ℕ) → Does (cleanup_entry netif) (cleaned netif)
unfolding cleanup_entry etharp_free_entry
cleanup_entry-Does netif = record {
  there = λ i s. elim (Bool-cases (not ((s.table i).state == 0) && ((s.table i).netif == netif))) [
    | inl a ↦ rw a (rw (==_refl i) refl)
    | inr a ↦ rw a refl
  ];
  other = λ i j s ne.
      elim (Bool-cases (not ((s.table i).state == 0) && ((s.table i).netif == netif))) [
        | inl a ↦ rw a (rw (ne→== j i ne) refl)
        | inr a ↦ rw a refl
      ];
  hint = λ i s. elim (Bool-cases (not ((s.table i).state == 0) && ((s.table i).netif == netif))) [
    | inl a ↦ rw a refl
    | inr a ↦ rw a refl
  ];
}

pub etharp_cleanup_netif-cleaned :
    (netif : ℕ) (s : Arp) (j : ℕ)
    → j < 10
    → (etharp_cleanup_netif netif s).table j ≡ cleaned netif (s.table j)
unfolding etharp_cleanup_netif
etharp_cleanup_netif-cleaned netif s j lt =
    each_entry_lem (cleanup_entry netif) (cleaned netif) (cleanup_entry-Does netif) 10 0 j s
      (omega arith) (omega (arith, lt))

-- An entry that stays in order, and is not taken into use.
record Settles (e e' : ArpEntry) : Type 0 where
  sound : Sound e'
  used : e'.state ≢ 0 → e.state ≢ 0
  same : e'.ipaddr ≡ e.ipaddr

Settles-Inv :
    (t t' : ℕ → ArpEntry) (g : ArpEntry → ArpEntry)
    → ((j : ℕ) → j < 10 → t' j ≡ g (t j))
    → ((e : ArpEntry) → Sound e → Settles e (g e))
    → Inv t
    → Inv t'
Settles-Inv t t' g now settles inv =
    let at_ : (j : ℕ) → j < 10 → Settles (t j) (t' j) =
      λ j lt. subst (λ k. Settles (t j) k) (sym (now j lt)) (settles (t j) (inv.sound j lt)) in
    record {
      sound = λ j lt. (at_ j lt).sound;
      unique = λ i j li lj ui uj same.
          inv.unique i j li lj ((at_ i li).used ui) ((at_ j lj).used uj)
            (sym (at_ i li).same ∙ same ∙ (at_ j lj).same);
    }

freed_Sound : (e : ArpEntry) → Sound (record e { q = 0; state = 0 })
freed_Sound e = record {
  known = omega arith;
  waiting = λ x. refl;
  old = λ x. absurd (x refl);
  young = λ x. absurd (omega (arith, x));
}

-- An entry in use that has not expired.
older_Sound :
    (e : ArpEntry) → Sound e → (e.state == 0) ≡ false → expired (older e) ≡ false → Sound (older e)
older_Sound e s used live = record {
  known = s.known;
  waiting = s.waiting;
  old = λ x. ground arith;
  young = λ x. ground arith;
}

stable_Sound :
    (e : ArpEntry)
    → Sound e
    → e.state ≡ 3
    → expired (older e) ≡ false
    → Sound (record (older e) { state = 2 })
stable_Sound e s three live = record {
  known = omega arith;
  waiting = λ x. s.waiting (λ y. omega (arith, y, three));
  old = λ x. ground arith;
  young = λ x. absurd (omega (arith, x));
}

tick-Settles : (e : ArpEntry) → Sound e → Settles e (tick e)
tick-Settles e s = elim (Bool-cases ((e.state == 0) || (e.state == 4))) [
  | inl a ↦ rw a (record { sound = s; used = λ x. x; same = refl })
  | inr a ↦ rw a (elim (Bool-cases (expired (older e))) [
    | inl b ↦
        rw b (record { sound = freed_Sound (older e); used = λ x. absurd (x refl); same = refl })
    | inr b ↦ rw b (elim (Bool-cases (e.state == 3)) [
      | inl c ↦ rw c (record {
        sound = stable_Sound e s (ground arith) b;
        used = λ x. ground arith;
        same = refl;
      })
      | inr c ↦
          rw c (record { sound = older_Sound e s (ground arith) b; used = λ x. x; same = refl })
    ])
  ])
]

pub etharp_tmr-Inv : (s : Arp) → Inv s.table → Inv (etharp_tmr s).table
etharp_tmr-Inv s inv =
    Settles-Inv s.table (etharp_tmr s).table tick (etharp_tmr-tick s) tick-Settles inv

cleaned-Settles : (netif : ℕ) (e : ArpEntry) → Sound e → Settles e (cleaned netif e)
cleaned-Settles netif e s = elim (Bool-cases (not (e.state == 0) && (e.netif == netif))) [
  | inl a ↦ rw a (record { sound = freed_Sound e; used = λ x. absurd (x refl); same = refl })
  | inr a ↦ rw a (record { sound = s; used = λ x. x; same = refl })
]

pub etharp_cleanup_netif-Inv :
    (netif : ℕ) (s : Arp) → Inv s.table → Inv (etharp_cleanup_netif netif s).table
etharp_cleanup_netif-Inv netif s inv =
    Settles-Inv s.table (etharp_cleanup_netif netif s).table (cleaned netif)
      (etharp_cleanup_netif-cleaned netif s) (cleaned-Settles netif) inv

pub etharp_tmr-cached : (s : Arp) → (etharp_tmr s).cached ≡ s.cached
unfolding etharp_tmr
etharp_tmr-cached s = each_entry-cached age_entry tick age_entry-Does 10 0 s

pub etharp_cleanup_netif-cached :
    (netif : ℕ) (s : Arp) → (etharp_cleanup_netif netif s).cached ≡ s.cached
unfolding etharp_cleanup_netif
etharp_cleanup_netif-cached netif s =
    each_entry-cached (cleanup_entry netif) (cleaned netif) (cleanup_entry-Does netif) 10 0 s
