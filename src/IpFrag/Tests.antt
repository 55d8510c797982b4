-- ===== src/IpFrag/Tests.antt =====
-- Fragments on concrete calls.
use my_lwip_poc.Base.{ℕ, ◌+◌, ◌≡◌, refl, true, List, [], ◌∷◌, ◌++◌, arith}
use my_lwip_poc.Base.Outcome.{ok, assert_failed}
use my_lwip_poc.IpFrag.{IpHdr, set_chksum, Packet, Frag, Datagram, Reass, no_datagrams}
use my_lwip_poc.IpFrag.Place.{
  kept, place, no_holes, validate, chain_frag_into_datagram_and_validate,
}
use my_lwip_poc.IpFrag.Queue.{new_datagram, enqueue_new_datagram}
use my_lwip_poc.IpFrag.Input.{ip_reass, make_room, with_datagram, find_datagram, add_fragment}
use my_lwip_poc.IpFrag.Complete.{Follows}
use my_lwip_poc.IpFrag.Gaps.{Reported, chain-Reported, chain-hole, Passes, chain-Passes}
use my_lwip_poc.IpFrag.Inv.{Inv}
use my_lwip_poc.IpFrag.Aging.{ticks, ticks-none_left}
use my_lwip_poc.IpFrag.Crowded.{ip_reass-aborts}
use my_lwip_poc.IpFrag.Preserve.{ip_reass-Stays}
use my_lwip_poc.IpFrag.Steps.{Stays}
use my_lwip_poc.IpFrag.Fragment.{Bytes, err_ok, blocks, ip_frag}
use my_lwip_poc.IpFrag.Pieces.{receive}
use my_lwip_poc.IpFrag.RoundTrip.{Arrived}
use my_lwip_poc.IpFrag.Delivery.{ip_frag-ip_reass}

-- A fragment of eight bytes.
abbrev eight : ℕ → Frag
eight k = record { start = k; end_ = k + 8; clen = 1; body = 1 ∷ 2 ∷ 3 ∷ 4 ∷ 5 ∷ 6 ∷ 7 ∷ 8 ∷ [] }

-- A header with this identification and word of flags and offset.
abbrev header : (id offset len : ℕ) → IpHdr
header id offset len = record {
  v_hl = 69;
  tos = 0;
  len = len;
  id = id;
  offset = offset;
  ttl = 64;
  proto = 17;
  chksum = 0;
  src = 167772161;
  dest = 167772162;
}

-- A datagram with these fragments, whose last one was seen and ends here.
abbrev seen_to : List Frag → ℕ → Datagram
seen_to fs len = record (new_datagram (header 7 8192 28)) {
  frags = fs;
  datagram_len = len;
  last_seen = true;
}

chain-Reported_example : Reported (seen_to (eight 0 ∷ []) 16) (eight 8) (eight 0 ∷ eight 8 ∷ [])
unfolding place no_holes validate chain_frag_into_datagram_and_validate
chain-Reported_example =
    chain-Reported (seen_to (eight 0 ∷ []) 16) (eight 8) (eight 0 ∷ eight 8 ∷ []) (tt, tt) refl

chain-hole_example :
    (chain_frag_into_datagram_and_validate (seen_to (eight 0 ∷ eight 24 ∷ []) 32) (eight 16)
      ≡ ok (kept (eight 0 ∷ eight 16 ∷ eight 24 ∷ []) true))
    × (¬ Follows (eight 0) (eight 16 ∷ eight 24 ∷ []))
chain-hole_example =
    chain-hole (seen_to (eight 0 ∷ eight 24 ∷ []) 32) (eight 16) (eight 0) [] (eight 24) [] refl
      refl tt ((omega arith, omega arith), tt) (omega arith) (omega arith) (refl, tt) refl refl

-- The last fragment was the one from 8 to 16; another behind it has come, and now the first.
behind_last-Passes :
    Passes (seen_to (eight 8 ∷ eight 16 ∷ []) 16) (eight 0) [] (eight 8 ∷ eight 16 ∷ [])
behind_last-Passes = record {
  parts = refl;
  below = tt;
  clear = (omega arith, omega arith);
  last = refl;
  first = refl;
  front = tt;
  rest = (refl, (refl, tt));
  several = λ q. cc;
}

chain-Passes_example :
    chain_frag_into_datagram_and_validate (seen_to (eight 8 ∷ eight 16 ∷ []) 16) (eight 0)
    ≡ assert_failed
chain-Passes_example =
    chain-Passes (seen_to (eight 8 ∷ eight 16 ∷ []) 16) (eight 0) [] (eight 8 ∷ eight 16 ∷ [])
      behind_last-Passes

-- One datagram waits, of one fragment.
abbrev one_waits : Reass
one_waits = record no_datagrams {
  datagrams = seen_to (eight 8 ∷ []) 16 ∷ [];
  pbufcount = 1;
  free_entries = 4;
}

one_waits-Inv : Inv one_waits (seen_to (eight 8 ∷ []) 16 ∷ [])
one_waits-Inv = record {
  list = refl;
  counted = refl;
  limit = omega arith;
  entries = refl;
  sound = ((omega arith, omega arith, (tt, tt)), tt);
}

ticks-none_left_example :
    (t : Reass) × (ticks 4 one_waits ≡ ok t)
    × (t.datagrams ≡ [])
    × (t.pbufcount ≡ 0)
    × (t.free_entries ≡ 5)
ticks-none_left_example = ticks-none_left one_waits (seen_to (eight 8 ∷ []) 16 ∷ []) one_waits-Inv

-- The first fragment of that datagram.
abbrev first_packet : Packet
first_packet = record {
  hdr = header 7 8192 28;
  clen = 1;
  body = 1 ∷ 2 ∷ 3 ∷ 4 ∷ 5 ∷ 6 ∷ 7 ∷ 8 ∷ [];
}

ip_reass-Stays_example : Stays (ip_reass first_packet one_waits)
ip_reass-Stays_example =
    ip_reass-Stays first_packet one_waits (seen_to (eight 8 ∷ []) 16 ∷ []) one_waits-Inv

-- Behind a newer datagram, and with no room left.
abbrev crowded : Reass
crowded = record no_datagrams {
  datagrams = new_datagram (header 8 8192 28) ∷ seen_to (eight 8 ∷ []) 16 ∷ [];
  pbufcount = 10;
  free_entries = 3;
}

ip_reass-aborts_example : ip_reass first_packet crowded ≡ assert_failed
ip_reass-aborts_example =
    ip_reass-aborts first_packet crowded (new_datagram (header 8 8192 28)) []
      (seen_to (eight 8 ∷ []) 16) refl (omega arith) refl (tt, tt) (refl, tt) refl

abbrev ten : Bytes
ten = 0 ∷ 1 ∷ 2 ∷ 3 ∷ 4 ∷ 5 ∷ 6 ∷ 7 ∷ 8 ∷ 9 ∷ []

abbrev thirty : Bytes
thirty = ten ++ ten ++ ten

ip_frag-ip_reass_example :
    (ps : List Packet) × (ip_frag (λ n. true) (header 7 0 50) 48 50 (((ten ++ ten) ++ thirty) ∷ [])
      ≡ ok (err_ok, ps))
    × Arrived [] 0 5 [] (set_chksum (header 7 0 50)) thirty (receive ps no_datagrams)
unfolding blocks
ip_frag-ip_reass_example =
    ip_frag-ip_reass (λ n. true) (header 7 0 50) 48 (ten ++ ten) thirty no_datagrams 2 (λ n. refl)
      (omega arith) (omega arith) refl refl refl refl (omega arith) (omega arith) (omega arith)
      (omega arith) refl (omega arith)

-- Eight bytes at this word of flags and offset.
abbrev part : ℕ → Packet
part offset = record first_packet { hdr = header 7 offset 28 }

-- From the start on: a fragment behind the last one, and then the first, make an assertion fail.
aborts_from_start : receive (part 1 ∷ part 8194 ∷ part 8192 ∷ []) no_datagrams ≡ assert_failed
unfolding receive ip_reass make_room with_datagram find_datagram enqueue_new_datagram add_fragment
    chain_frag_into_datagram_and_validate place validate no_holes
aborts_from_start = refl
