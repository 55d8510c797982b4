-- ===== src/Etharp/Choice.antt =====
-- netif/etharp.c: which entry etharp_find_entry gives.
use my_lwip_poc.Base.{
  ℕ, ◌≤◌, ◌<◌, ◌≡◌, ◌≢◌, refl, true, false, Option, none, some, ◌⊎◌, inl, inr, ◌==◌, arith,
  Bool-cases, subst, sym, ==_refl, ==_of_eq, ne→==, lt→ltb,
}
use my_lwip_poc.Base.Outcome.{Outcome, ok, ◌>>=◌}
use my_lwip_poc.Etharp.{
  ArpEntry, Arp, Candidates, put, etharp_free_entry, try_hard, find_only, create, select,
  etharp_find_entry, sweep, no_candidates,
}
use my_lwip_poc.Etharp.Ages.{Stable, Bare, Queued}
use my_lwip_poc.Etharp.Sweep.{Seen, Swept, matched, searched, sweep_all}
use my_lwip_poc.Etharp.Find.{Inv}

-- The entry `i`, of this address from now on.
abbrev pub entered : (ipaddr i : ℕ) → Arp → Arp
entered ipaddr i s = put s i (record (s.table i) { ipaddr = ipaddr; ctime = 0 })

-- No entry in use has the address; no entry is of a kind; `i` is an oldest one of a kind.
abbrev pub Absent : (ℕ → ArpEntry) → (ipaddr : ℕ) → Type 0
Absent t ipaddr = (j : ℕ) → j < 10 → (t j).state ≢ 0 → (t j).ipaddr ≢ ipaddr

abbrev pub Full : (ℕ → ArpEntry) → Type 0
Full t = (j : ℕ) → j < 10 → (t j).state ≢ 0

abbrev pub Lacks : (ArpEntry → Type 0) → (ℕ → ArpEntry) → Type 0
Lacks K t = (j : ℕ) → j < 10 → ¬ K (t j)

abbrev pub IsOldest : (ArpEntry → Type 0) → (ℕ → ArpEntry) → ℕ → Type 0
IsOldest K t i = (i < 10) × K (t i) × ((j : ℕ) → j < 10 → K (t j) → (t j).ctime ≤ (t i).ctime)

-- The entry that is lost: an oldest stable one, or else an oldest pending one without a packet, or
-- else an oldest pending one.
pub data Victim (t : ℕ → ArpEntry) (i : ℕ) : Type 0 where
  victim_stable : IsOldest Stable t i → Victim t i
  victim_pending : Lacks Stable t → IsOldest Bare t i → Victim t i
  victim_queue : Lacks Stable t → Lacks Bare t → IsOldest Queued t i → Victim t i

-- What etharp_find_entry returns, and the table then.
pub data Choice (ipaddr flags : ℕ) (s : Arp) : Outcome (Option ℕ × Arp) → Type 0 where
  present :
      (i : ℕ)
      → i < 10
      → (s.table i).state ≢ 0
      → (s.table i).ipaddr ≡ ipaddr
      → Choice ipaddr flags s (ok (some i, s))
  unused :
      (i : ℕ)
      → i < 10
      → (s.table i).state ≡ 0
      → Absent s.table ipaddr
      → find_only flags ≡ false
      → Choice ipaddr flags s (ok (some i, entered ipaddr i s))
  recycled :
      (i : ℕ)
      → i < 10
      → Absent s.table ipaddr
      → Full s.table
      → find_only flags ≡ false
      → try_hard flags ≡ true
      → Victim s.table i
      → Choice ipaddr flags s (ok (some i, entered ipaddr i (etharp_free_entry i s)))
  refused :
      Absent s.table ipaddr
      → (find_only flags ≡ true)
        ⊎ (Full s.table
            × ((try_hard flags ≡ false)
                ⊎ (Lacks Stable s.table × Lacks Bare s.table × Lacks Queued s.table)))
      → Choice ipaddr flags s (ok (none, s))

create_lem :
    (ipaddr i : ℕ) (s : Arp)
    → i < 10
    → (s.table i).state ≡ 0
    → create ipaddr i s ≡ ok (some i, entered ipaddr i s)
unfolding create
create_lem ipaddr i s lt e = rw (lt→ltb i 10 lt) (rw (==_of_eq (s.table i).state 0 e) refl)

recycle_lem :
    (ipaddr i : ℕ) (s : Arp)
    → i < 10
    → create ipaddr i (etharp_free_entry i s)
      ≡ ok (some i, entered ipaddr i (etharp_free_entry i s))
unfolding create etharp_free_entry
recycle_lem ipaddr i s lt = rw (lt→ltb i 10 lt) (rw (==_refl i) refl)

module _ (ipaddr flags : ℕ) (s : Arp) (inv : Inv s.table) where
  oldest_now :
      (K : ArpEntry → Type 0) (b age : ℕ)
      → age ≡ (s.table b).ctime
      → ((j : ℕ) → j < 10 → K (s.table j) → (s.table j).ctime ≤ age)
      → (j : ℕ) → j < 10
      → K (s.table j)
      → (s.table j).ctime ≤ (s.table b).ctime
  oldest_now K b age e h j lt k = omega (arith, e, h j lt k)

  recycle-Choice :
      (i : ℕ)
      → i < 10
      → Absent s.table ipaddr
      → Full s.table
      → find_only flags ≡ false
      → try_hard flags ≡ true
      → Victim s.table i
      → Choice ipaddr flags s (create ipaddr i (etharp_free_entry i s))
  recycle-Choice i lt absent full f h v =
      subst (λ r. Choice ipaddr flags s r) (sym (recycle_lem ipaddr i s lt))
        (recycled i lt absent full f h v)

  no_packet : (i : ℕ) → i < 10 → Stable (s.table i) → ((s.table i).q == 0) ≡ true
  no_packet i lt k =
      ==_of_eq (s.table i).q 0 ((inv.sound i lt).waiting (λ e. omega (arith, e, k.0)))

  select-Choice :
      (c : Candidates) → Seen s.table ipaddr 10 c → Choice ipaddr flags s (select ipaddr flags c s)
  unfolding select
  select-Choice c seen = elim (Bool-cases (find_only flags)) [
    | inl f ↦ rw f (refused seen.absent (inl f))
    | inr f ↦ rw f (elim seen.first [
      | inl e ↦ rw (ne→== c.first_empty 10 (omega (arith, e.0))) (
          rw (lt→ltb c.first_empty 10 e.0) (
            subst (λ r. Choice ipaddr flags s r) (sym (create_lem ipaddr c.first_empty s e.0 e.1))
              (unused c.first_empty e.0 e.1 seen.absent f)))
      | inr e ↦ rw e.0 (elim (Bool-cases (try_hard flags)) [
        | inr h ↦ rw h (refused seen.absent (inr (e.1, inl h)))
        | inl h ↦ rw h (elim seen.ages.stable [
          | inr o ↦ rw (lt→ltb c.old_stable 10 o.0) (
              rw (no_packet c.old_stable o.0 o.1) (
                recycle-Choice c.old_stable o.0 seen.absent e.1 f h
                  (victim_stable (o.0, o.1, oldest_now Stable c.old_stable c.age_stable o.2 o.3))))
          | inl none_stable ↦ rw none_stable.0 (elim seen.ages.pending [
            | inr o ↦ rw (lt→ltb c.old_pending 10 o.0) (
                recycle-Choice c.old_pending o.0 seen.absent e.1 f h (
                  victim_pending none_stable.2
                    (o.0, o.1, oldest_now Bare c.old_pending c.age_pending o.2 o.3)))
            | inl none_bare ↦ rw none_bare.0 (elim seen.ages.queue [
              | inr o ↦ rw (lt→ltb c.old_queue 10 o.0) (
                  recycle-Choice c.old_queue o.0 seen.absent e.1 f h (
                    victim_queue none_stable.2 none_bare.2
                      (o.0, o.1, oldest_now Queued c.old_queue c.age_queue o.2 o.3)))
              | inl none_queue ↦
                  rw none_queue.0 (
                    refused seen.absent (inr (e.1, inr (none_stable.2, none_bare.2, none_queue.2))))
            ])
          ])
        ])
      ])
    ])
  ]

  choose :
      (r : Outcome (ℕ ⊎ Candidates))
      → Swept s.table ipaddr 10 r
      → Choice ipaddr flags s
          (r >>= λ x. elim x [ inl i ↦ ok (some i, s) | inr c ↦ select ipaddr flags c s ])
  choose _ (matched i lt used same) = present i lt used same
  choose _ (searched c seen) = select-Choice c seen

  -- On a table in order etharp_find_entry fails no assertion. It gives the entry of the address, if there
  -- is one. Otherwise, with ETHARP_FLAG_FIND_ONLY, it gives none; without, it enters the address at an
  -- unused entry; if all are in use, and with ETHARP_FLAG_TRY_HARD, it frees an oldest stable entry, or
  -- else an oldest pending entry without a packet, or else an oldest pending entry, never a static one,
  -- and enters the address there; else it gives none and changes nothing.
  pub etharp_find_entry-Choice : Choice ipaddr flags s (etharp_find_entry ipaddr flags s)
  unfolding etharp_find_entry
  etharp_find_entry-Choice =
      choose (sweep s.table ipaddr 10 0 no_candidates)
        (sweep_all s.table ipaddr (λ j lt. (inv.sound j lt).known))
