-- ===== src/Etharp/Tests.antt =====
-- The ARP table on concrete calls.
use my_lwip_poc.Base.{ℕ, ◌≡◌, List, some, refl, Bool, inl, [], ◌∷◌, ◌==◌, arith}
use my_lwip_poc.Base.Outcome.{Outcome, ok, assert_failed, out_of_fuel}
use my_lwip_poc.Etharp.{
  Arp, err_ok, sweep, visit, select, create, remember, resolve, each_entry, etharp_find_entry,
  etharp_update_arp_entry, etharp_add_static_entry, etharp_cleanup_netif, cleanup_entry,
}
use my_lwip_poc.Pbuf.{Pbuf, pbuf_ram}
use my_lwip_poc.Etharp.Query.{
  etharp_query, query_request, etharp_request, take_over, copy_needed, query_entry, mark_pending,
  enqueue,
}
use my_lwip_poc.Etharp.Choice.{Choice, entered, etharp_find_entry-Choice}
use my_lwip_poc.Etharp.Aging.{ticks, ticks-expire}
use my_lwip_poc.Etharp.Steps.{InOrder, entered-Ready}
use my_lwip_poc.Etharp.Storing.{resolved, resolved-InOrder}
use my_lwip_poc.Etharp.Lookup.{Stores, etharp_find_addr-etharp_update_arp_entry}
use my_lwip_poc.Etharp.Runs.{
  cleared, cleared-InOrder, call, calls, tmr, cleanup, update, add_static, query, Returns,
  calls-Returns,
}

abbrev any : ℕ → ℕ → Bool
any netif ipaddr = ipaddr == 0

-- A packet of one pbuf.
abbrev one_packet : List Pbuf
one_packet = record { room = []; payload = 1 ∷ []; tot_len = 1; len = 1; kind = pbuf_ram } ∷ []

-- The address 9 is at 77, on the interface 1.
abbrev one_entry : Arp
one_entry = resolved 1 77 0 0 (entered 9 0 cleared)

one_entry-InOrder : InOrder one_entry
one_entry-InOrder =
    resolved-InOrder 1 77 0 0 (entered 9 0 cleared) (
      entered-Ready 9 0 cleared (omega arith) cleared-InOrder refl
        (λ j lj used. absurd (used refl)))

etharp_find_entry-Choice_example : Choice 8 1 one_entry (etharp_find_entry 8 1 one_entry)
etharp_find_entry-Choice_example = etharp_find_entry-Choice 8 1 one_entry one_entry-InOrder.inv

ticks-expire_example : ((ticks 240 one_entry).table 0).state ≡ 0
ticks-expire_example =
    ticks-expire 240 0 one_entry one_entry-InOrder.inv (omega arith) (λ e. omega (arith, e))
      (inl (omega arith))

calls-Returns_example : Returns (
    calls
      (λ netif. 6)
      any
      (λ ipaddr. 1)
      (update 1 9 77 1 ∷ query (some err_ok) err_ok 300 1 8 300 one_packet ∷ tmr ∷ cleanup 1 ∷ [])
      cleared)
calls-Returns_example =
    calls-Returns (λ netif. 6) any (λ ipaddr. 1) (λ n. refl)
      (update 1 9 77 1 ∷ query (some err_ok) err_ok 300 1 8 300 one_packet ∷ tmr ∷ cleanup 1 ∷ [])
      (tt, ((refl, λ e. refl), (tt, (tt, tt))))

etharp_find_addr-etharp_update_arp_entry_example :
    Stores any 1 9 78 2 one_entry (etharp_update_arp_entry (λ netif. 6) any 1 9 78 2 one_entry)
etharp_find_addr-etharp_update_arp_entry_example =
    etharp_find_addr-etharp_update_arp_entry (λ netif. 6) any 1 9 78 2 one_entry refl
      one_entry-InOrder

-- The state of the first entry, if the calls return.
abbrev first_of : Outcome Arp → ℕ × ℕ × ℕ
first_of (ok s) = ((s.table 0).state, (s.table 0).ethaddr, (s.table 0).q)
first_of assert_failed = (9, 9, 9)
first_of out_of_fuel = (9, 9, 9)

-- An ARP packet from the address makes a static entry an ordinary one.
static_overwritten :
    first_of (calls (λ netif. 6) any (λ ipaddr. 1) (add_static 9 77 ∷ update 1 9 78 2 ∷ []) cleared)
    ≡ (2, 78, 0)
unfolding calls call etharp_add_static_entry etharp_update_arp_entry etharp_find_entry sweep visit
    select create remember resolve
static_overwritten = refl

-- A pending entry outlives its interface.
pending_kept :
    first_of (
      calls
        (λ netif. 6)
        any
        (λ ipaddr. 1)
        (query (some err_ok) err_ok 300 1 8 300 one_packet ∷ cleanup 1 ∷ [])
        cleared)
    ≡ (1, 0, 300)
unfolding calls call etharp_query query_entry query_request etharp_request take_over copy_needed
    mark_pending enqueue etharp_find_entry sweep visit select create remember etharp_cleanup_netif
    cleanup_entry each_entry
pending_kept = refl
