-- ===== src/Etharp/Storing.antt =====
-- netif/etharp.c: the operations that store, find and remove addresses keep the table in order.
use my_lwip_poc.Base.{
  ℕ, ◌≡◌, ◌∷◌, ==_of_eq, refl, Bool, true, false, not, none, some, inl, inr, if◌then◌else◌, leb,
  ◌==◌, arith, Bool-cases,
}
use my_lwip_poc.Base.Outcome.{ok, ◌>>=◌}
use my_lwip_poc.Memp.{set_at}
use my_lwip_poc.Etharp.{
  Arp, etharp_send_ip, sent, freed, etharp_free_entry, resolve, static_entry,
  etharp_remove_static_entry, etharp_find_addr, etharp_update_arp_entry, etharp_add_static_entry,
  err_ok, err_mem, err_arg, err_rte,
}
use my_lwip_poc.Etharp.Find.{Sound}
use my_lwip_poc.Etharp.Steps.{InOrder, Keeps, keeps, Ready, free-InOrder, find-Keeps, put-InOrder}

fresh_Sound :
    (b : Bool) (ipaddr netif ethaddr : ℕ)
    → Sound (record {
      q = 0;
      ipaddr = ipaddr;
      netif = netif;
      ethaddr = ethaddr;
      state = if b then 4 else 2;
      ctime = 0;
    })
fresh_Sound true ipaddr netif ethaddr = record {
  known = omega arith;
  waiting = λ x. refl;
  old = λ x. omega arith;
  young = λ x. omega arith;
}
fresh_Sound false ipaddr netif ethaddr = record {
  known = omega arith;
  waiting = λ x. refl;
  old = λ x. omega arith;
  young = λ x. omega arith;
}

-- The state behind `resolve` when no assertion fails.
abbrev pub resolved : (netif ethaddr flags i : ℕ) → Arp → Arp
resolved netif ethaddr flags i s = record s {
  log =
      if (s.table i).q == 0
      then s.log
      else freed (s.table i).q ∷ sent netif (s.table i).q ethaddr ∷ s.log;
  table = set_at s.table i (record (s.table i) {
    q = 0;
    netif = netif;
    ethaddr = ethaddr;
    state = if static_entry flags then 4 else 2;
    ctime = 0;
  });
}

pub resolve_lem :
    (hwaddr_len : ℕ → ℕ) (netif ethaddr flags i : ℕ) (s : Arp)
    → hwaddr_len netif ≡ 6
    → resolve hwaddr_len netif ethaddr flags i s ≡ ok (resolved netif ethaddr flags i s)
unfolding resolve etharp_send_ip
resolve_lem hwaddr_len netif ethaddr flags i s six = elim (Bool-cases ((s.table i).q == 0)) [
  | inl e ↦ rw e refl
  | inr e ↦ rw e (rw (==_of_eq (hwaddr_len netif) 6 six) refl)
]

pub resolved-InOrder :
    (netif ethaddr flags i : ℕ) (s : Arp) → Ready i s → InOrder (resolved netif ethaddr flags i s)
resolved-InOrder netif ethaddr flags i s r =
    put-InOrder i s (resolved netif ethaddr flags i s)
      (record (s.table i) {
        q = 0;
        netif = netif;
        ethaddr = ethaddr;
        state = if static_entry flags then 4 else 2;
        ctime = 0;
      })
      r refl r.order.cached (fresh_Sound (static_entry flags) (s.table i).ipaddr netif ethaddr) refl

module _ (hwaddr_len : ℕ → ℕ) (non_unicast : (netif ipaddr : ℕ) → Bool) where
  pub etharp_update_arp_entry-Keeps :
      (netif ipaddr ethaddr flags : ℕ) (s : Arp)
      → hwaddr_len netif ≡ 6
      → InOrder s
      → Keeps (etharp_update_arp_entry hwaddr_len non_unicast netif ipaddr ethaddr flags s)
  unfolding etharp_update_arp_entry
  etharp_update_arp_entry-Keeps netif ipaddr ethaddr flags s six o =
      rw (==_of_eq (hwaddr_len netif) 6 six) (elim (Bool-cases (non_unicast netif ipaddr)) [
        | inl n ↦ rw n (keeps err_arg s o)
        | inr n ↦ rw n (
            find-Keeps
              (λ r. elim r.0 [
                | none ↦ ok (err_mem, r.1)
                | some i ↦ resolve hwaddr_len netif ethaddr flags i r.1 >>= λ u. ok (err_ok, u)
              ])
              (λ u p. keeps err_mem u p)
              (λ i u r. rw (resolve_lem hwaddr_len netif ethaddr flags i u six) (
                keeps err_ok (resolved netif ethaddr flags i u)
                  (resolved-InOrder netif ethaddr flags i u r)))
              ipaddr flags s o)
      ])

  pub etharp_add_static_entry-Keeps :
      (route : ℕ → ℕ) (ipaddr ethaddr : ℕ) (s : Arp)
      → ((n : ℕ) → hwaddr_len n ≡ 6)
      → InOrder s
      → Keeps (etharp_add_static_entry hwaddr_len non_unicast route ipaddr ethaddr s)
  unfolding etharp_add_static_entry
  etharp_add_static_entry-Keeps route ipaddr ethaddr s six o =
      elim (Bool-cases (route ipaddr == 0)) [
        | inl n ↦ rw n (keeps err_rte s o)
        | inr n ↦
            rw n (
              etharp_update_arp_entry-Keeps (route ipaddr) ipaddr ethaddr 5 s (six (route ipaddr))
                o)
      ]

pub etharp_remove_static_entry-Keeps :
    (ipaddr : ℕ) (s : Arp) → InOrder s → Keeps (etharp_remove_static_entry ipaddr s)
unfolding etharp_remove_static_entry
etharp_remove_static_entry-Keeps ipaddr s o =
    find-Keeps
      (λ r. elim r.0 [
        | none ↦ ok (err_mem, r.1)
        | some i ↦
            if not ((r.1.table i).state == 4)
            then ok (err_arg, r.1)
            else ok (err_ok, etharp_free_entry i r.1)
      ])
      (λ u p. keeps err_mem u p)
      (λ i u r. elim (Bool-cases ((u.table i).state == 4)) [
        | inl e ↦ rw e (keeps err_ok (etharp_free_entry i u) (free-InOrder i u r.order))
        | inr e ↦ rw e (keeps err_arg u r.order)
      ])
      ipaddr 2 s o

pub etharp_find_addr-Keeps : (ipaddr : ℕ) (s : Arp) → InOrder s → Keeps (etharp_find_addr ipaddr s)
unfolding etharp_find_addr
etharp_find_addr-Keeps ipaddr s o =
    find-Keeps
      (λ r. elim r.0 [
        | none ↦ ok (none, r.1)
        | some i ↦
            if leb 2 (r.1.table i).state
            then ok (some (i, (r.1.table i).ethaddr), r.1)
            else ok (none, r.1)
      ])
      (λ u p. keeps none u p)
      (λ i u r. elim (Bool-cases (leb 2 (u.table i).state)) [
        | inl e ↦ rw e (keeps (some (i, (u.table i).ethaddr)) u r.order)
        | inr e ↦ rw e (keeps none u r.order)
      ])
      ipaddr 2 s o
