-- ===== src/Etharp/Query.antt =====
-- netif/etharp.c: packets that leave, and wait for an address. The pbufs of a packet are those of
-- core/pbuf.c. Arguments stand for what the rest of the stack answers: `requested` is none when
-- pbuf_alloc has no memory for an ARP request, and else what linkoutput returns for it; `link` is what
-- linkoutput returns for a packet; `copy` is the pbuf that pbuf_alloc gives for a copy, or NULL.
use my_lwip_poc.Base.{
  ℕ, zero, suc, Bool, true, false, not, ◌&&◌, ◌||◌, if◌then◌else◌, leb, ◌==◌, Option, none, some,
  List, [], ◌∷◌,
}
use my_lwip_poc.Base.Outcome.{Outcome, ok, asserting, ◌>>=◌}
use my_lwip_poc.Memp.{set_at}
use my_lwip_poc.Pbuf.{Pbuf, PbufType, pbuf_ram, pbuf_rom, pbuf_ref, pbuf_pool}
use my_lwip_poc.Etharp.{
  ArpEntry, Arp, ArpErr, err_ok, err_mem, err_arg, state_pending, state_stable,
  state_stable_rerequesting, state_empty, drop_queued, put, etharp_find_entry, etharp_send_ip,
}

abbrev pub is_ok : ArpErr → Bool
is_ok e = elim e [ err_ok ↦ true | _ ↦ false ]

abbrev pub is_rom : PbufType → Bool
is_rom pbuf_ram = false
is_rom pbuf_rom = true
is_rom pbuf_ref = false
is_rom pbuf_pool = false

abbrev pub is_last : List Pbuf → Bool
is_last [] = true
is_last (p ∷ ps) = false

-- The loop over the pbufs of a packet: the total length of the one that has to be copied, or none.
unfoldable pub copy_needed : List Pbuf → Outcome (Option ℕ)
copy_needed [] = ok none
copy_needed (p ∷ ps) =
    let rest = copy_needed ps in
    asserting (not (p.len == p.tot_len) || is_last ps)
      (if is_rom p.kind then rest else ok (some p.tot_len))

abbrev pub total : List Pbuf → ℕ
total [] = 0
total (p ∷ ps) = p.tot_len

-- The packet that is queued: the caller's, or a copy, for which pbuf_copy wants as much room as the
-- packet has. NULL when there is no memory.
unfoldable pub take_over : (copy q : ℕ) → List Pbuf → Outcome ℕ
take_over copy q pbufs = copy_needed pbufs >>= λ n. elim n [
  | none ↦ ok q
  | some room ↦ if copy == 0 then ok 0 else asserting (leb (total pbufs) room) (ok copy)
]

-- A fresh entry is pending.
unfoldable pub mark_pending : ℕ → Arp → Arp
mark_pending i s =
    if (s.table i).state == state_empty
    then put s i (record (s.table i) { state = state_pending })
    else s

-- The packet `taken` waits on the entry, in place of one that waits already.
unfoldable pub enqueue : (taken i : ℕ) → Arp → Outcome (ArpErr × Arp)
enqueue taken i s =
    if taken == 0
    then ok (err_mem, s)
    else ok (
      err_ok,
      record s {
        log = drop_queued (s.table i).q s.log;
        table = set_at s.table i (record (s.table i) { q = taken });
      },
    )

abbrev pub is_stable_for : (dst_addr : ℕ) → ArpEntry → Bool
is_stable_for dst_addr e = leb state_stable e.state && (dst_addr == e.ipaddr)

-- The loop of etharp_output: an entry that has the address.
unfoldable pub find_stable : (ℕ → ArpEntry) → (dst_addr n i : ℕ) → Option ℕ
find_stable t dst_addr zero i = none
find_stable t dst_addr (suc n) i =
    let rest = find_stable t dst_addr n (suc i) in
    if is_stable_for dst_addr (t i) then some i else rest

module _ (hwaddr_len : ℕ → ℕ) where
  -- etharp_raw allocates the packet before its assertion.
  unfoldable pub etharp_request : (requested : Option ArpErr) (netif : ℕ) → Outcome ArpErr
  etharp_request requested netif = elim requested [
    | none ↦ ok err_mem
    | some e ↦ asserting (hwaddr_len netif == 6) (ok e)
  ]

  -- etharp_send_ip to the address of an entry.
  unfoldable pub send_to : (link : ArpErr) (netif q i : ℕ) → Arp → Outcome (ArpErr × Arp)
  send_to link netif q i s =
      etharp_send_ip hwaddr_len netif q (s.table i).ethaddr s >>= λ u. ok (link, u)

  -- A used entry that is about to expire is asked for again.
  unfoldable pub rerequest : (requested : Option ArpErr) (netif arp_idx : ℕ) → Arp → Outcome Arp
  rerequest requested netif arp_idx s =
      if ((s.table arp_idx).state == state_stable) && leb 228 (s.table arp_idx).ctime
      then (etharp_request requested netif >>= λ e. ok (
          if is_ok e
          then put s arp_idx (record (s.table arp_idx) { state = state_stable_rerequesting })
          else s))
      else ok s

  unfoldable pub etharp_output_to_arp_index :
      (requested : Option ArpErr) (link : ArpErr) (netif q arp_idx : ℕ)
      → Arp
      → Outcome (ArpErr × Arp)
  etharp_output_to_arp_index requested link netif q arp_idx s =
      asserting (leb state_stable (s.table arp_idx).state)
        (rerequest requested netif arp_idx s >>= λ u. send_to link netif q arp_idx u)

  -- An ARP request for a pending entry, or when no packet is given.
  unfoldable pub query_request : (requested : Option ArpErr) (netif q i : ℕ) → Arp → Outcome ArpErr
  query_request requested netif q i s =
      if ((s.table i).state == state_pending) || (q == 0)
      then etharp_request requested netif
      else ok err_mem

  -- The part of etharp_query after an entry is found.
  unfoldable pub query_entry :
      (requested : Option ArpErr) (link : ArpErr) (copy netif q i : ℕ)
      → List Pbuf
      → Arp
      → Outcome (ArpErr × Arp)
  query_entry requested link copy netif q i pbufs s =
      asserting (((s.table i).state == state_pending) || leb state_stable (s.table i).state) (
        query_request requested netif q i s >>= λ result.
        if q == 0
        then ok (result, s)
        else if leb state_stable (s.table i).state
        then send_to link netif q i (record s { cached = i })
        else (take_over copy q pbufs >>= λ taken. enqueue taken i s))

module _ (hwaddr_len : ℕ → ℕ) (non_unicast : (netif ipaddr : ℕ) → Bool) where
  unfoldable pub etharp_query :
      (requested : Option ArpErr) (link : ArpErr) (copy netif ipaddr q : ℕ)
      → List Pbuf
      → Arp
      → Outcome (ArpErr × Arp)
  etharp_query requested link copy netif ipaddr q pbufs s =
      if non_unicast netif ipaddr
      then ok (err_arg, s)
      else (etharp_find_entry ipaddr 1 s >>= λ r. elim r.0 [
        | none ↦ ok (err_mem, r.1)
        | some i ↦ query_entry hwaddr_len requested link copy netif q i pbufs (mark_pending i r.1)
      ])

  -- The part of etharp_output for a unicast address, when it has chosen `dst_addr`.
  unfoldable pub output_unicast :
      (requested : Option ArpErr) (link : ArpErr) (copy netif q dst_addr : ℕ)
      → List Pbuf
      → Arp
      → Outcome (ArpErr × Arp)
  output_unicast requested link copy netif q dst_addr pbufs s =
      if is_stable_for dst_addr (s.table s.cached)
      then etharp_output_to_arp_index hwaddr_len requested link netif q s.cached s
      else elim (find_stable s.table dst_addr 10 0) [
        | none ↦ etharp_query requested link copy netif dst_addr q pbufs s
        | some i ↦
            etharp_output_to_arp_index hwaddr_len requested link netif q i (record s { cached = i })
      ]
