-- ===== src/Etharp.antt =====
-- lwip-1.4.1/src/netif/etharp.c: the ARP table. As configured, ARP_TABLE_SIZE is 10, ARP_QUEUEING,
-- ETHARP_TRUST_IP_MAC, LWIP_NETIF_HWADDRHINT and LWIP_SNMP are 0, and static entries are supported.
pub mod Ages
pub mod Sweep
pub mod Find
pub mod Choice
pub mod Query
pub mod Steps
pub mod Storing
pub mod Leaving
pub mod Lookup
pub mod Runs
pub mod Aging
pub mod Timer
mod Tests
use my_lwip_poc.Base.{
  ℕ, zero, suc, ◌+◌, ◌/◌, ◌%◌, Bool, not, ◌&&◌, ◌||◌, if◌then◌else◌, ltb, leb, ◌==◌, Option, none,
  some, List, [], ◌∷◌, ◌⊎◌, inl, inr,
}
use my_lwip_poc.Base.Outcome.{Outcome, ok, asserting, ◌>>=◌}
use my_lwip_poc.Memp.{set_at}

-- enum etharp_state
abbrev pub state_empty : ℕ
state_empty = 0

abbrev pub state_pending : ℕ
state_pending = 1

abbrev pub state_stable : ℕ
state_stable = 2

abbrev pub state_stable_rerequesting : ℕ
state_stable_rerequesting = 3

abbrev pub state_static : ℕ
state_static = 4

-- struct etharp_entry: the pointers to a packet (NULL is 0) and to a network interface are addresses.
pub record ArpEntry : Type 0 where
  pub q : ℕ
  pub ipaddr : ℕ
  pub netif : ℕ
  pub ethaddr : ℕ
  pub state : ℕ
  pub ctime : ℕ

-- What happens to packets: etharp_send_ip(netif, p, hwaddr, ethaddr) and pbuf_free(p).
pub data Event : Type 0 where
  sent : (netif p ethaddr : ℕ) → Event
  freed : (p : ℕ) → Event

-- arp_table, etharp_cached_entry, and the events, the last first.
pub record Arp : Type 0 where
  pub table : ℕ → ArpEntry
  pub cached : ℕ
  pub log : List Event

-- err_t
pub data ArpErr : Type 0 where
  err_ok : ArpErr
  err_mem : ArpErr
  err_arg : ArpErr
  err_rte : ArpErr
  err_if : ArpErr

abbrev pub put : Arp → ℕ → ArpEntry → Arp
put s i e = record s { table = set_at s.table i e }

-- A packet that an entry lets go of, if there is one.
abbrev pub drop_queued : ℕ → List Event → List Event
drop_queued q log = if q == 0 then log else freed q ∷ log

unfoldable pub etharp_free_entry : ℕ → Arp → Arp
etharp_free_entry i s = record s {
  log = drop_queued (s.table i).q s.log;
  table = set_at s.table i (record (s.table i) { q = 0; state = state_empty });
}

-- The entry is older by one tick.
abbrev pub older : ArpEntry → ArpEntry
older e = record e { ctime = (e.ctime + 1) % 256 }

abbrev pub expired : ArpEntry → Bool
expired e = leb 240 e.ctime || ((e.state == state_pending) && leb 2 e.ctime)

-- The body of the loop of etharp_tmr.
unfoldable pub age_entry : ℕ → Arp → Arp
age_entry i s =
    if ((s.table i).state == state_empty) || ((s.table i).state == state_static)
    then s
    else if expired (older (s.table i))
    then etharp_free_entry i (put s i (older (s.table i)))
    else if (s.table i).state == state_stable_rerequesting
    then put s i (record (older (s.table i)) { state = state_stable })
    else put s i (older (s.table i))

-- A loop over the table, `n` entries of it from `i` on.
unfoldable pub each_entry : (ℕ → Arp → Arp) → (n i : ℕ) → Arp → Arp
each_entry f zero i s = s
each_entry f (suc n) i s = each_entry f n (suc i) (f i s)

unfoldable pub etharp_tmr : Arp → Arp
etharp_tmr s = each_entry age_entry 10 0 s

-- The locals of etharp_find_entry: the index 10 is none.
pub record Candidates : Type 0 where
  pub first_empty : ℕ
  pub old_stable : ℕ
  pub old_pending : ℕ
  pub old_queue : ℕ
  pub age_stable : ℕ
  pub age_pending : ℕ
  pub age_queue : ℕ

abbrev pub no_candidates : Candidates
no_candidates = record {
  first_empty = 10;
  old_stable = 10;
  old_pending = 10;
  old_queue = 10;
  age_stable = 0;
  age_pending = 0;
  age_queue = 0;
}

-- An entry in use, of another address.
unfoldable pub remember : ℕ → ArpEntry → Candidates → Candidates
remember i e c =
    if e.state == state_pending
    then (if not (e.q == 0)
        then (if leb c.age_queue e.ctime
            then record c { old_queue = i; age_queue = e.ctime }
            else c)
        else if leb c.age_pending e.ctime
        then record c { old_pending = i; age_pending = e.ctime }
        else c)
    else if leb state_stable e.state && (ltb e.state state_static && leb c.age_stable e.ctime)
    then record c { old_stable = i; age_stable = e.ctime }
    else c

-- The body of the loop: the index of the entry of the address, or the candidates.
unfoldable pub visit : (ipaddr i : ℕ) → ArpEntry → Candidates → Outcome (ℕ ⊎ Candidates)
visit ipaddr i e c =
    if (c.first_empty == 10) && (e.state == state_empty)
    then ok (inr (record c { first_empty = i }))
    else if e.state == state_empty
    then ok (inr c)
    else asserting ((e.state == state_pending) || leb state_stable e.state)
        (if ipaddr == e.ipaddr then ok (inl i) else ok (inr (remember i e c)))

-- The loop, on `n` entries from `i` on.
unfoldable pub sweep : (ℕ → ArpEntry) → (ipaddr n i : ℕ) → Candidates → Outcome (ℕ ⊎ Candidates)
sweep t ipaddr zero i c = ok (inr c)
sweep t ipaddr (suc n) i c = visit ipaddr i (t i) c >>= λ r. elim r [
  | inl j ↦ ok (inl j)
  | inr d ↦ sweep t ipaddr n (suc i) d
]

-- ETHARP_FLAG_TRY_HARD, ETHARP_FLAG_FIND_ONLY and ETHARP_FLAG_STATIC_ENTRY
abbrev pub try_hard : ℕ → Bool
try_hard flags = flags % 2 == 1

abbrev pub find_only : ℕ → Bool
find_only flags = flags / 2 % 2 == 1

abbrev pub static_entry : ℕ → Bool
static_entry flags = flags / 4 % 2 == 1

-- The end of etharp_find_entry.
unfoldable pub create : (ipaddr i : ℕ) → Arp → Outcome (Option ℕ × Arp)
create ipaddr i s = asserting (ltb i 10) (
    asserting ((s.table i).state == state_empty)
      (ok (some i, put s i (record (s.table i) { ipaddr = ipaddr; ctime = 0 }))))

abbrev pub recycle : (ipaddr i : ℕ) → Arp → Outcome (Option ℕ × Arp)
recycle ipaddr i s = asserting (ltb i 10) (create ipaddr i (etharp_free_entry i s))

unfoldable pub select : (ipaddr flags : ℕ) → Candidates → Arp → Outcome (Option ℕ × Arp)
select ipaddr flags c s =
    if find_only flags || ((c.first_empty == 10) && not (try_hard flags))
    then ok (none, s)
    else if ltb c.first_empty 10
    then create ipaddr c.first_empty s
    else if ltb c.old_stable 10
    then asserting ((s.table c.old_stable).q == 0) (recycle ipaddr c.old_stable s)
    else if ltb c.old_pending 10
    then recycle ipaddr c.old_pending s
    else if ltb c.old_queue 10
    then recycle ipaddr c.old_queue s
    else ok (none, s)

-- No caller passes NULL for the address; none is ERR_MEM.
unfoldable pub etharp_find_entry : (ipaddr flags : ℕ) → Arp → Outcome (Option ℕ × Arp)
etharp_find_entry ipaddr flags s = sweep s.table ipaddr 10 0 no_candidates >>= λ r. elim r [
  | inl i ↦ ok (some i, s)
  | inr c ↦ select ipaddr flags c s
]

-- The field hwaddr_len of an interface.
module _ (hwaddr_len : ℕ → ℕ) where
  -- The headers are written, and the packet is handed to linkoutput of the interface.
  unfoldable pub etharp_send_ip : (netif p dst : ℕ) → Arp → Outcome Arp
  etharp_send_ip netif p dst s =
      asserting (hwaddr_len netif == 6) (ok (record s { log = sent netif p dst ∷ s.log }))

  -- The entry is filled in, and its packet sent.
  unfoldable pub resolve : (netif ethaddr flags i : ℕ) → Arp → Outcome Arp
  resolve netif ethaddr flags i s =
      let q = (s.table i).q in
      let stored = put s i (record (s.table i) {
        q = 0;
        netif = netif;
        ethaddr = ethaddr;
        state = if static_entry flags then state_static else state_stable;
        ctime = 0;
      }) in
      if q == 0
      then ok stored
      else (etharp_send_ip netif q ethaddr stored >>= λ u. ok (record u { log = freed q ∷ u.log }))

unfoldable pub etharp_remove_static_entry : (ipaddr : ℕ) → Arp → Outcome (ArpErr × Arp)
etharp_remove_static_entry ipaddr s = etharp_find_entry ipaddr 2 s >>= λ r. elim r.0 [
  | none ↦ ok (err_mem, r.1)
  | some i ↦
      if not ((r.1.table i).state == state_static)
      then ok (err_arg, r.1)
      else ok (err_ok, etharp_free_entry i r.1)
]

unfoldable pub cleanup_entry : ℕ → ℕ → Arp → Arp
cleanup_entry netif i s =
    if not ((s.table i).state == state_empty) && ((s.table i).netif == netif)
    then etharp_free_entry i s
    else s

unfoldable pub etharp_cleanup_netif : ℕ → Arp → Arp
etharp_cleanup_netif netif s = each_entry (cleanup_entry netif) 10 0 s

-- The index and the Ethernet address; none is -1.
unfoldable pub etharp_find_addr : (ipaddr : ℕ) → Arp → Outcome (Option (ℕ × ℕ) × Arp)
etharp_find_addr ipaddr s = etharp_find_entry ipaddr 2 s >>= λ r. elim r.0 [
  | none ↦ ok (none, r.1)
  | some i ↦
      if leb state_stable (r.1.table i).state
      then ok (some (i, (r.1.table i).ethaddr), r.1)
      else ok (none, r.1)
]

-- The address tests of ip_addr.h and ip_addr.c: an address that is any, broadcast or multicast.
module _ (hwaddr_len : ℕ → ℕ) (non_unicast : (netif ipaddr : ℕ) → Bool) where
  unfoldable pub etharp_update_arp_entry :
      (netif ipaddr ethaddr flags : ℕ) → Arp → Outcome (ArpErr × Arp)
  etharp_update_arp_entry netif ipaddr ethaddr flags s = asserting (hwaddr_len netif == 6) (
      if non_unicast netif ipaddr
      then ok (err_arg, s)
      else (etharp_find_entry ipaddr flags s >>= λ r. elim r.0 [
        | none ↦ ok (err_mem, r.1)
        | some i ↦ resolve hwaddr_len netif ethaddr flags i r.1 >>= λ u. ok (err_ok, u)
      ]))

  -- With the interface that ip_route gives.
  unfoldable pub etharp_add_static_entry :
      (route : ℕ → ℕ) (ipaddr ethaddr : ℕ) → Arp → Outcome (ArpErr × Arp)
  etharp_add_static_entry route ipaddr ethaddr s =
      if route ipaddr == 0
      then ok (err_rte, s)
      else etharp_update_arp_entry (route ipaddr) ipaddr ethaddr 5 s
