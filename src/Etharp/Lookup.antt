-- ===== src/Etharp/Lookup.antt =====
-- netif/etharp.c: an address that is stored is found.
use my_lwip_poc.Base.{
  ℕ, ◌≤◌, ◌<◌, ◌≡◌, refl, Bool, true, false, Option, none, some, ◌⊎◌, inl, inr, if◌then◌else◌, leb,
  arith, Bool-cases, sym, ==_of_eq, ap, ◌∙◌, subst, ==_refl, le→leb,
}
use my_lwip_poc.Base.Outcome.{Outcome, ok, ◌>>=◌}
use my_lwip_poc.Etharp.{
  Arp, ArpErr, err_ok, err_mem, err_arg, etharp_free_entry, resolve, static_entry, find_only,
  try_hard, etharp_find_entry, etharp_find_addr, etharp_update_arp_entry,
}
use my_lwip_poc.Etharp.Find.{Inv}
use my_lwip_poc.Etharp.Ages.{Stable, Bare, Queued}
use my_lwip_poc.Etharp.Choice.{
  Choice, present, unused, recycled, refused, Absent, Full, Lacks, entered,
  etharp_find_entry-Choice,
}
use my_lwip_poc.Etharp.Steps.{InOrder, Ready, entered-Ready, free-Absent, freed_state, free-InOrder}
use my_lwip_poc.Etharp.Storing.{resolved, resolve_lem, resolved-InOrder}

-- What etharp_find_addr makes of the entry found.
abbrev addr_of : Option ℕ × Arp → Outcome (Option (ℕ × ℕ) × Arp)
addr_of r = elim r.0 [
  | none ↦ ok (none, r.1)
  | some i ↦
      if leb 2 (r.1.table i).state
      then ok (some (i, (r.1.table i).ethaddr), r.1)
      else ok (none, r.1)
]

finds :
    (ipaddr i : ℕ) (s : Arp) (r : Outcome (Option ℕ × Arp))
    → Inv s.table
    → i < 10
    → 2 ≤ (s.table i).state
    → (s.table i).ipaddr ≡ ipaddr
    → Choice ipaddr 2 s r
    → (r >>= addr_of) ≡ ok (some (i, (s.table i).ethaddr), s)
finds ipaddr i s _ inv lt st same (present k lk used e) =
    let q : i ≡ k = inv.unique i k lt lk (λ z. omega (arith, z, st)) used (same ∙ sym e) in
    subst (λ j. (ok (some j, s) >>= addr_of) ≡ ok (some (i, (s.table i).ethaddr), s)) q
      (rw (le→leb 2 (s.table i).state st) refl)
finds ipaddr i s _ inv lt st same (unused k lk z absent f) =
    absurd (absent i lt (λ y. omega (arith, y, st)) same)
finds ipaddr i s _ inv lt st same (recycled k lk absent full f h v) =
    absurd (absent i lt (λ y. omega (arith, y, st)) same)
finds ipaddr i s _ inv lt st same (refused absent why) =
    absurd (absent i lt (λ y. omega (arith, y, st)) same)

etharp_find_addr_lem :
    (ipaddr i : ℕ) (s : Arp)
    → Inv s.table
    → i < 10
    → 2 ≤ (s.table i).state
    → (s.table i).ipaddr ≡ ipaddr
    → etharp_find_addr ipaddr s ≡ ok (some (i, (s.table i).ethaddr), s)
unfolding etharp_find_addr
etharp_find_addr_lem ipaddr i s inv lt st same =
    finds ipaddr i s (etharp_find_entry ipaddr 2 s) inv lt st same
      (etharp_find_entry-Choice ipaddr 2 s inv)

-- What etharp_update_arp_entry returns, and what is found then.
pub data Stores (non_unicast : (netif ipaddr : ℕ) → Bool) (netif ipaddr ethaddr flags : ℕ) (s : Arp)
    : Outcome (ArpErr × Arp) → Type 0 where
  stored :
      (i : ℕ) (s' : Arp)
      → etharp_find_addr ipaddr s' ≡ ok (some (i, ethaddr), s')
      → Stores non_unicast netif ipaddr ethaddr flags s (ok (err_ok, s'))
  no_room :
      Absent s.table ipaddr
      → (find_only flags ≡ true)
        ⊎ (Full s.table
            × ((try_hard flags ≡ false)
                ⊎ (Lacks Stable s.table × Lacks Bare s.table × Lacks Queued s.table)))
      → Stores non_unicast netif ipaddr ethaddr flags s (ok (err_mem, s))
  not_allowed :
      non_unicast netif ipaddr ≡ true
      → Stores non_unicast netif ipaddr ethaddr flags s (ok (err_arg, s))

kind_of : (b : Bool) → 2 ≤ (if b then 4 else 2)
kind_of true = omega arith
kind_of false = omega arith

resolved-found :
    (netif ipaddr ethaddr flags i : ℕ) (s : Arp)
    → Ready i s
    → (s.table i).ipaddr ≡ ipaddr
    → etharp_find_addr ipaddr (resolved netif ethaddr flags i s)
      ≡ ok (some (i, ethaddr), resolved netif ethaddr flags i s)
resolved-found netif ipaddr ethaddr flags i s r same =
    etharp_find_addr_lem ipaddr i (resolved netif ethaddr flags i s)
      (resolved-InOrder netif ethaddr flags i s r).inv r.within
      (rw (==_refl i) (kind_of (static_entry flags))) (rw (==_refl i) same)
    ∙ ap (λ e. ok (some (i, e), resolved netif ethaddr flags i s)) (rw (==_refl i) refl)

module _ (hwaddr_len : ℕ → ℕ) (non_unicast : (netif ipaddr : ℕ) → Bool)
    (netif ipaddr ethaddr flags : ℕ) (s : Arp) (six : hwaddr_len netif ≡ 6) (o : InOrder s) where
  update-Stores :
      (r : Outcome (Option ℕ × Arp))
      → Choice ipaddr flags s r
      → Stores non_unicast netif ipaddr ethaddr flags s (
          r >>= λ x. elim x.0 [
            | none ↦ ok (err_mem, x.1)
            | some i ↦ resolve hwaddr_len netif ethaddr flags i x.1 >>= λ u. ok (err_ok, u)
          ])
  update-Stores _ (present i lt used same) =
      rw (resolve_lem hwaddr_len netif ethaddr flags i s six) (
        stored i (resolved netif ethaddr flags i s) (
          resolved-found netif ipaddr ethaddr flags i s
            (record {
              within = lt;
              order = o;
              alone = λ j lj ne uj e. ne (o.inv.unique j i lj lt uj used e);
              fresh = λ x. absurd (used x);
            })
            same))
  update-Stores _ (unused i lt z absent f) =
      let u = entered ipaddr i s in
      rw (resolve_lem hwaddr_len netif ethaddr flags i u six) (
        stored i (resolved netif ethaddr flags i u) (
          resolved-found netif ipaddr ethaddr flags i u (entered-Ready ipaddr i s lt o z absent)
            (rw (==_refl i) refl)))
  update-Stores _ (recycled i lt absent full f h v) =
      let w = etharp_free_entry i s in
      let u = entered ipaddr i w in
      rw (resolve_lem hwaddr_len netif ethaddr flags i u six) (
        stored i (resolved netif ethaddr flags i u) (
          resolved-found netif ipaddr ethaddr flags i u
            (entered-Ready ipaddr i w lt (free-InOrder i s o) (freed_state i s)
              (free-Absent ipaddr i s absent))
            (rw (==_refl i) refl)))
  update-Stores _ (refused absent why) = no_room absent why

  -- For an interface whose hwaddr_len is 6, on a table in order, etharp_update_arp_entry fails no
  -- assertion. It returns ERR_OK, and then etharp_find_addr finds the
  -- Ethernet address given, whatever the entry was, a static one included; or ERR_MEM, when no entry has
  -- the address and none may be taken for it, or ERR_ARG, when the address is not unicast; then it
  -- changes nothing.
  pub etharp_find_addr-etharp_update_arp_entry :
      Stores non_unicast netif ipaddr ethaddr flags s
        (etharp_update_arp_entry hwaddr_len non_unicast netif ipaddr ethaddr flags s)
  unfolding etharp_update_arp_entry
  etharp_find_addr-etharp_update_arp_entry =
      rw (==_of_eq (hwaddr_len netif) 6 six) (elim (Bool-cases (non_unicast netif ipaddr)) [
        | inl n ↦ rw n (not_allowed n)
        | inr n ↦ rw n (
            update-Stores (etharp_find_entry ipaddr flags s)
              (etharp_find_entry-Choice ipaddr flags s o.inv))
      ])
