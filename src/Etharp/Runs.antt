-- ===== src/Etharp/Runs.antt =====
-- netif/etharp.c: whatever is called, from the table that is zero at first.
use my_lwip_poc.Base.{ℕ, ◌≡◌, All, Option, refl, Bool, List, [], ◌∷◌, arith}
use my_lwip_poc.Base.Outcome.{Outcome, ok, ◌>>=◌}
use my_lwip_poc.Etharp.{
  Arp, ArpErr, etharp_tmr, etharp_cleanup_netif, etharp_remove_static_entry, etharp_find_addr,
  etharp_update_arp_entry, etharp_add_static_entry,
}
use my_lwip_poc.Pbuf.{Pbuf}
use my_lwip_poc.Etharp.Query.{etharp_query, output_unicast}
use my_lwip_poc.Etharp.Timer.{
  etharp_tmr-Inv, etharp_cleanup_netif-Inv, etharp_tmr-cached, etharp_cleanup_netif-cached,
}
use my_lwip_poc.Etharp.Steps.{InOrder, Keeps, keeps}
use my_lwip_poc.Etharp.Storing.{
  etharp_update_arp_entry-Keeps, etharp_add_static_entry-Keeps, etharp_remove_static_entry-Keeps,
  etharp_find_addr-Keeps,
}
use my_lwip_poc.Etharp.Leaving.{Whole, etharp_query-Keeps, output_unicast-Keeps}

-- The state before any call.
abbrev pub cleared : Arp
cleared = record {
  table = λ i. record { q = 0; ipaddr = 0; netif = 0; ethaddr = 0; state = 0; ctime = 0 };
  cached = 0;
  log = [];
}

pub cleared-InOrder : InOrder cleared
cleared-InOrder = record {
  inv = record {
    sound = λ i lt. record {
      known = omega arith;
      waiting = λ x. refl;
      old = λ x. omega arith;
      young = λ x. omega arith;
    };
    unique = λ i j li lj ui uj same. absurd (ui refl);
  };
  cached = omega arith;
}

-- A call of an operation, with its arguments.
pub data Call : Type 0 where
  tmr : Call
  cleanup : (netif : ℕ) → Call
  remove_static : (ipaddr : ℕ) → Call
  find_addr : (ipaddr : ℕ) → Call
  update : (netif ipaddr ethaddr flags : ℕ) → Call
  add_static : (ipaddr ethaddr : ℕ) → Call
  query :
      (requested : Option ArpErr) (link : ArpErr) (copy netif ipaddr q : ℕ) (pbufs : List Pbuf)
      → Call
  output :
      (requested : Option ArpErr) (link : ArpErr) (copy netif q dst_addr : ℕ) (pbufs : List Pbuf)
      → Call

-- A packet that is given is one packet.
abbrev pub Proper : Call → Type 0
Proper tmr = Unit
Proper (cleanup netif) = Unit
Proper (remove_static ipaddr) = Unit
Proper (find_addr ipaddr) = Unit
Proper (update netif ipaddr ethaddr flags) = Unit
Proper (add_static ipaddr ethaddr) = Unit
Proper (query requested link copy netif ipaddr q pbufs) = Whole pbufs
Proper (output requested link copy netif q dst_addr pbufs) = Whole pbufs

-- The state after a call, if it returns.
abbrev pub state_after : {A : Type 0} → Outcome (A × Arp) → Outcome Arp
state_after r = r >>= λ x. ok x.1

module _ (hwaddr_len : ℕ → ℕ) (non_unicast : (netif ipaddr : ℕ) → Bool) (route : ℕ → ℕ) where
  unfoldable pub call : Call → Arp → Outcome Arp
  call tmr s = ok (etharp_tmr s)
  call (cleanup netif) s = ok (etharp_cleanup_netif netif s)
  call (remove_static ipaddr) s = state_after (etharp_remove_static_entry ipaddr s)
  call (find_addr ipaddr) s = state_after (etharp_find_addr ipaddr s)
  call (update netif ipaddr ethaddr flags) s =
      state_after (etharp_update_arp_entry hwaddr_len non_unicast netif ipaddr ethaddr flags s)
  call (add_static ipaddr ethaddr) s =
      state_after (etharp_add_static_entry hwaddr_len non_unicast route ipaddr ethaddr s)
  call (query requested link copy netif ipaddr q pbufs) s =
      state_after (etharp_query hwaddr_len non_unicast requested link copy netif ipaddr q pbufs s)
  call (output requested link copy netif q dst_addr pbufs) s =
      state_after
        (output_unicast hwaddr_len non_unicast requested link copy netif q dst_addr pbufs s)

  unfoldable pub calls : List Call → Arp → Outcome Arp
  calls [] s = ok s
  calls (c ∷ cs) s = call c s >>= λ u. calls cs u

-- It returns, in order.
pub data Returns : Outcome Arp → Type 0 where
  returns : (s : Arp) → InOrder s → Returns (ok s)

Keeps-Returns : {A : Type 0} (r : Outcome (A × Arp)) → Keeps r → Returns (state_after r)
Keeps-Returns _ (keeps a s o) = returns s o

module _ (hwaddr_len : ℕ → ℕ) (non_unicast : (netif ipaddr : ℕ) → Bool) (route : ℕ → ℕ)
    (six : (n : ℕ) → hwaddr_len n ≡ 6) where
  call-Returns :
      (c : Call) (s : Arp) → Proper c → InOrder s → Returns (call hwaddr_len non_unicast route c s)
  unfolding call
  call-Returns tmr s w o = returns (etharp_tmr s) (record {
    inv = etharp_tmr-Inv s o.inv;
    cached = omega (arith, o.cached, etharp_tmr-cached s);
  })
  call-Returns (cleanup netif) s w o = returns (etharp_cleanup_netif netif s) (record {
    inv = etharp_cleanup_netif-Inv netif s o.inv;
    cached = omega (arith, o.cached, etharp_cleanup_netif-cached netif s);
  })
  call-Returns (remove_static ipaddr) s w o =
      Keeps-Returns (etharp_remove_static_entry ipaddr s)
        (etharp_remove_static_entry-Keeps ipaddr s o)
  call-Returns (find_addr ipaddr) s w o =
      Keeps-Returns (etharp_find_addr ipaddr s) (etharp_find_addr-Keeps ipaddr s o)
  call-Returns (update netif ipaddr ethaddr flags) s w o =
      Keeps-Returns (etharp_update_arp_entry hwaddr_len non_unicast netif ipaddr ethaddr flags s) (
        etharp_update_arp_entry-Keeps hwaddr_len non_unicast netif ipaddr ethaddr flags s
          (six netif) o)
  call-Returns (add_static ipaddr ethaddr) s w o =
      Keeps-Returns (etharp_add_static_entry hwaddr_len non_unicast route ipaddr ethaddr s)
        (etharp_add_static_entry-Keeps hwaddr_len non_unicast route ipaddr ethaddr s six o)
  call-Returns (query requested link copy netif ipaddr q pbufs) s w o =
      Keeps-Returns (etharp_query hwaddr_len non_unicast requested link copy netif ipaddr q pbufs s)
        (etharp_query-Keeps hwaddr_len non_unicast netif (six netif) requested link copy q pbufs w
          ipaddr s o)
  call-Returns (output requested link copy netif q dst_addr pbufs) s w o =
      Keeps-Returns
        (output_unicast hwaddr_len non_unicast requested link copy netif q dst_addr pbufs s)
        (output_unicast-Keeps hwaddr_len non_unicast netif (six netif) requested link copy q pbufs w
          dst_addr s o)

  then_calls :
      (cs : List Call) (r : Outcome Arp)
      → Returns r
      → ((u : Arp) → InOrder u → Returns (calls hwaddr_len non_unicast route cs u))
      → Returns (r >>= λ u. calls hwaddr_len non_unicast route cs u)
  then_calls cs _ (returns s o) go = go s o

  calls-from :
      (cs : List Call) (s : Arp)
      → All Proper cs
      → InOrder s
      → Returns (calls hwaddr_len non_unicast route cs s)
  unfolding calls
  calls-from [] s w o = returns s o
  calls-from (c ∷ cs) s w o =
      then_calls cs (call hwaddr_len non_unicast route c s) (call-Returns c s w.0 o)
        (λ u p. calls-from cs u w.1 p)

  -- Any calls return, so that no assertion of etharp.c fails, when they begin with the table that is zero at first,
  -- the hwaddr_len of every interface is 6, and each packet that is given is one packet, whose first
  -- pbuf is not of type PBUF_ROM. Then no two entries in use have the same address, packets wait on
  -- pending entries only, no entry in use is older than the timer lets it, and etharp_cached_entry is an
  -- index of the table.
  pub calls-Returns :
      (cs : List Call) → All Proper cs → Returns (calls hwaddr_len non_unicast route cs cleared)
  calls-Returns cs w = calls-from cs cleared w cleared-InOrder
