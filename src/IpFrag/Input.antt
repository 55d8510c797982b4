-- ===== src/IpFrag/Input.antt =====
-- ip_frag.c: ip_reass.
use my_lwip_poc.Base.{
  ℕ, suc, ◌+◌, ◌*◌, ◌%◌, Bool, true, false, not, ◌&&◌, List, [], ◌∷◌, ◌++◌, Option, none, some,
  if◌then◌else◌, ltb, leb, ◌==◌,
}
use my_lwip_poc.Base.Word.{add16, sub16, u8_mod}
use my_lwip_poc.Base.Outcome.{Outcome, ok, ◌>>=◌}
use my_lwip_poc.IpFrag.{
  IpHdr, ip_hlen, iph_hl, offset_of, more_fragments, payload_len, set_chksum, Packet, Frag, frag_of,
  Datagram, matching, Reass,
}
use my_lwip_poc.IpFrag.Place.{Chained, thrown_away, kept, chain_frag_into_datagram_and_validate}
use my_lwip_poc.IpFrag.Queue.{
  ip_reass_max_pbufs, dequeue_datagram, replace_at, previous, remove_oldest_datagram, new_datagram,
  enqueue_new_datagram,
}

-- What becomes of the packet given: it is freed, it waits with its datagram, or this packet is
-- returned.
pub data Verdict : Type 0 where
  dropped : Verdict
  waiting : Verdict
  complete : Packet → Verdict

-- The loop that looks for the datagram of a fragment, from place `i` on.
unfoldable pub find_datagram : IpHdr → ℕ → List Datagram → Option (ℕ × Datagram)
find_datagram hdr i [] = none
find_datagram hdr i (d ∷ ds) =
    let rest = find_datagram hdr (suc i) ds in if matching d.iphdr hdr then some (i, d) else rest

-- The header kept is that of the first fragment, once it has come.
abbrev pub first_header : IpHdr → IpHdr → IpHdr
first_header old new = if offset_of new == 0 && not (offset_of old == 0) then new else old

-- `datagram_len` is set by the fragment that no more fragments follow.
abbrev pub last_fragment : IpHdr → Datagram → Datagram
last_fragment hdr d =
    if more_fragments hdr == 0
    then record d { last_seen = true; datagram_len = add16 (offset_of hdr * 8) (payload_len hdr) }
    else d

abbrev pub total_clen : List Frag → ℕ
total_clen [] = 0
total_clen (f ∷ fs) = f.clen + total_clen fs

abbrev pub bodies : List Frag → List ℕ
bodies [] = []
bodies (f ∷ fs) = f.body ++ bodies fs

-- The header of the datagram, and the pbufs joined by pbuf_cat, the headers hidden in all but the
-- first.
unfoldable pub reassembled : Datagram → Packet
reassembled d = record {
  hdr = set_chksum (record d.iphdr { len = add16 d.datagram_len ip_hlen; offset = 0 });
  clen = total_clen d.frags % u8_mod;
  body = bodies d.frags;
}

-- What follows the call that chains the fragment to the datagram `d` at place `i`.
abbrev pub after_chaining :
    Reass → (i : ℕ) → (prev : Option ℕ) → Datagram → Packet → Chained → Outcome (Verdict × Reass)
after_chaining s i prev d p thrown_away = ok (
  dropped,
  record s { datagrams = replace_at i d s.datagrams; pbufcount = sub16 s.pbufcount p.clen },
)
after_chaining s i prev d p (kept frags false) =
    ok (waiting, record s { datagrams = replace_at i (record d { frags = frags }) s.datagrams })
after_chaining s i prev d p (kept frags true) = dequeue_datagram s i prev >>= λ t.
    let r = reassembled (record d { frags = frags }) in
    ok (complete r, record t { pbufcount = sub16 t.pbufcount r.clen })

-- From `ip_reass_pbufcount += clen` on.
unfoldable pub add_fragment :
    Reass → (i : ℕ) → (prev : Option ℕ) → Datagram → Packet → Outcome (Verdict × Reass)
add_fragment s i prev d p =
    let e = last_fragment p.hdr d in
    chain_frag_into_datagram_and_validate e (frag_of p)
    >>= after_chaining (record s { pbufcount = add16 s.pbufcount p.clen }) i prev e p

-- With a new datagram at the front of the list, whose `prev` is not looked at.
abbrev pub after_enqueue : Packet → Bool × Reass → Outcome (Verdict × Reass)
after_enqueue p r =
    if r.0 then add_fragment r.1 0 none (new_datagram p.hdr) p else ok (dropped, r.1)

-- With the datagram found, or with a new one.
unfoldable pub with_datagram : Reass → Packet → Option (ℕ × Datagram) → Outcome (Verdict × Reass)
with_datagram s p none = enqueue_new_datagram p.hdr p.clen s >>= λ r.
    if r.0 then add_fragment r.1 0 none (new_datagram p.hdr) p else ok (dropped, r.1)
with_datagram s p (some (i, d)) =
    add_fragment s i (previous i) (record d { iphdr = first_header d.iphdr p.hdr }) p

-- The second test of ip_reass for room, which follows ip_reass_remove_oldest_datagram.
abbrev pub room_now : Packet → ℕ × Reass → Outcome (Bool × Reass)
room_now p r = ok (not (r.0 == 0) && leb (r.1.pbufcount + p.clen) ip_reass_max_pbufs, r.1)

-- Whether there is room for the pbufs of the packet, after the oldest datagrams have made place.
unfoldable pub make_room : Packet → Reass → Outcome (Bool × Reass)
make_room p s =
    if ltb ip_reass_max_pbufs (s.pbufcount + p.clen)
    then remove_oldest_datagram p.hdr p.clen s >>= room_now p
    else ok (true, s)

abbrev pub after_room : Packet → Bool × Reass → Outcome (Verdict × Reass)
after_room p r =
    if r.0 then with_datagram r.1 p (find_datagram p.hdr 0 r.1.datagrams) else ok (dropped, r.1)

unfoldable pub ip_reass : Packet → Reass → Outcome (Verdict × Reass)
ip_reass p s =
    if iph_hl p.hdr * 4 == ip_hlen then make_room p s >>= after_room p else ok (dropped, s)
