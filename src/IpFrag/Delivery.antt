-- ===== src/IpFrag/Delivery.antt =====
-- ip_frag.c: a datagram that ip_frag has cut comes out of ip_reass whole.
use my_lwip_poc.Base.{
  ℕ, zero, suc, ◌+◌, ◌-◌, ◌*◌, ◌≤◌, ◌<◌, ◌≡◌, refl, Bool, true, false, if◌then◌else◌, List, [], ◌∷◌,
  ◌++◌, arith, ap, sym, ◌∙◌, subst, length, drop, length-drop, inl, inr, append-nil,
  take-append-drop, lt→leb,
}
use my_lwip_poc.Base.Word.{add16, u16_mod}
use my_lwip_poc.Base.Outcome.{ok}
use my_lwip_poc.IpFrag.{
  IpHdr, ip_hlen, iph_hl, offset_of, more_fragments, matching, set_chksum, Packet, frag_of,
  Datagram, Reass,
}
use my_lwip_poc.IpFrag.Fragment.{Bytes, err_ok, blocks, is_last, copied_len, frag_hdr, ip_frag}
use my_lwip_poc.IpFrag.Cut.{Cut, copied_len-cases, ip_frag-Cut}
use my_lwip_poc.IpFrag.Input.{waiting, ip_reass}
use my_lwip_poc.IpFrag.Queue.{ip_reass_max_pbufs, new_datagram, enqueued}
use my_lwip_poc.IpFrag.Oldest.{own}
use my_lwip_poc.IpFrag.InOrder.{ip_reass-new, add_fragment-more}
use my_lwip_poc.IpFrag.Pieces.{receive, frag_hdr-more, piece-iph_hl, piece-start, piece-stop}
use my_lwip_poc.IpFrag.NextPiece.{Partly}
use my_lwip_poc.IpFrag.RoundTrip.{Arrived, cons-Arrived, receive-Arrived}

own-frag_hdr :
    (hdr : IpHdr) (mtu l o : ℕ) (ds : List Datagram) → own (frag_hdr hdr mtu l o) ds ≡ own hdr ds
unfolding frag_hdr set_chksum
own-frag_hdr hdr mtu l o [] = refl
own-frag_hdr hdr mtu l o (d ∷ ds) =
    ap (λ r. if matching d.iphdr hdr then d ∷ r else r) (own-frag_hdr hdr mtu l o ds)

-- The number of fragments.
Cut-length :
    (hdr : IpHdr) (mtu ofo : ℕ) (bytes : Bytes) (ps : List Packet) (k : ℕ)
    → 48 ≤ mtu
    → mtu < u16_mod
    → Cut hdr mtu ofo bytes ps
    → length bytes ≤ k * (blocks mtu * 8)
    → length ps ≤ k
Cut-length hdr mtu ofo bytes [] k h w cut le = omega arith
Cut-length hdr mtu ofo bytes (p ∷ ps) zero h w cut le = absurd (omega (arith, cut.0, le))
Cut-length hdr mtu ofo bytes (p ∷ []) (suc k) h w cut le = omega arith
Cut-length hdr mtu ofo bytes (p ∷ r ∷ ps) (suc k) h w (pos, e, b, two, rest) le =
    let n = copied_len mtu (length bytes) in
    let len : length (drop n bytes) ≡ length bytes - n = length-drop {0} n bytes in
    elim (copied_len-cases mtu (length bytes) h w) [
      | inl c ↦ absurd (omega (arith, c.1, rest.0, len))
      | inr c ↦
          let fewer =
            Cut-length hdr mtu (add16 ofo (blocks mtu)) (drop n bytes) (r ∷ ps) k h w rest
              (omega (arith, c.1, le, len)) in
          omega (arith, fewer)
    ]

-- The first fragment of a datagram makes an entry for it.
module _ (hdr : IpHdr) (mtu : ℕ) (bytes : Bytes) (p : Packet) (s : Reass) (large : 48 ≤ mtu)
    (word : mtu < u16_mod) (hl : iph_hl hdr * 4 ≡ ip_hlen)
    (e : p.hdr ≡ frag_hdr hdr mtu (length bytes) 0)
    (le : copied_len mtu (length bytes) ≤ length bytes) (pos : 0 < copied_len mtu (length bytes))
    (w : length bytes + ip_hlen < u16_mod) (room : s.pbufcount + p.clen ≤ ip_reass_max_pbufs) where
  abbrev begun : Reass
  begun = record s {
    datagrams = record (new_datagram p.hdr) { frags = frag_of p ∷ [] } ∷ s.datagrams;
    free_entries = s.free_entries - 1;
    pbufcount = add16 s.pbufcount p.clen;
  }

  wide : 0 * 8 + length bytes + ip_hlen < u16_mod
  wide = omega (arith, w)

  first-waits :
      is_last mtu (length bytes) ≡ false
      → own hdr s.datagrams ≡ []
      → 0 < s.free_entries
      → ip_reass p s ≡ ok (waiting, begun)
  first-waits l none_there free =
      let mf : (if is_last mtu (length bytes) then more_fragments hdr else 1) ≡ 1 = rw l refl in
      ip_reass-new p s (piece-iph_hl hdr mtu (length bytes) 0 p e hl le wide) room
        (ap (λ h. own h s.datagrams) e
          ∙ own-frag_hdr hdr mtu (length bytes) 0 s.datagrams
          ∙ none_there)
        free
      ∙ add_fragment-more (enqueued p.hdr s) (new_datagram p.hdr) p
          (ap more_fragments e ∙ frag_hdr-more hdr mtu (length bytes) 0 (omega (arith, mf)) ∙ mf)
          refl tt

  first-Partly :
      (k : ℕ)
      → k ≡ copied_len mtu (length bytes)
      → Partly hdr mtu s.datagrams begun
          (record (new_datagram p.hdr) { frags = frag_of p ∷ [] })
          (frag_of p)
          []
          k
  first-Partly k same =
      let start = piece-start hdr mtu (length bytes) 0 p e hl le wide in
      let stop = piece-stop hdr mtu (length bytes) 0 p e hl le wide in
      record {
        list = refl;
        frags = refl;
        seen = refl;
        len0 = length bytes;
        from = e;
        upto = record {
          first = omega (arith, start);
          follows = tt;
          ends = omega (arith, stop, same);
          within = ((omega (arith, start, pos, same), omega (arith, stop, same)), tt);
        };
        fits = omega (arith, room);
      }

delivered :
    (hdr : IpHdr) (mtu : ℕ) (bytes : Bytes) (s : Reass) (ps : List Packet)
    → 48 ≤ mtu
    → mtu < u16_mod
    → iph_hl hdr * 4 ≡ ip_hlen
    → hdr.offset ≡ 0
    → hdr.len ≡ length bytes + ip_hlen
    → length bytes + ip_hlen < u16_mod
    → mtu < length bytes + ip_hlen
    → Cut hdr mtu 0 bytes ps
    → s.pbufcount + 2 * length ps ≤ ip_reass_max_pbufs
    → own hdr s.datagrams ≡ []
    → 0 < s.free_entries
    → Arrived s.datagrams s.pbufcount s.free_entries s.time_exceeded
        (set_chksum hdr)
        bytes
        (receive ps s)
delivered hdr mtu bytes s [] large word hl off len w big cut room none_there free =
    absurd (omega (arith, large, big, ap length cut))
delivered hdr mtu bytes s (p ∷ ps) large word hl off len w big (pos, e, b, two, rest) room
      none_there free =
    let n = copied_len mtu (length bytes) in
    let left = drop n bytes in
    let ofo = add16 0 (blocks mtu) in
    let l : is_last mtu (length bytes) ≡ false = lt→leb (length bytes + ip_hlen) mtu big in
    let size : (n ≡ blocks mtu * 8) × (n < length bytes) × (20 ≤ n) =
      elim (copied_len-cases mtu (length bytes) large word) [
        | inl c ↦ absurd (differ (sym c.0 ∙ l))
        | inr c ↦ (c.1, c.2, c.3)
      ] in
    let le : n ≤ length bytes = omega (arith, size.1) in
    let some_here : 0 < n = omega (arith, size.2) in
    let one : s.pbufcount + p.clen ≤ ip_reass_max_pbufs = omega (arith, room, two) in
    let at_ : ofo * 8 ≡ n = omega (arith, size.0, le, w) in
    let rest_len : length left ≡ length bytes - n = length-drop {0} n bytes in
    let total : ofo * 8 + length left + ip_hlen ≡ hdr.len = omega (arith, at_, rest_len, le, len) in
    let t = begun hdr mtu bytes p s large word hl e le some_here w one in
    cons-Arrived s.datagrams _ s.pbufcount _ s.free_entries s.time_exceeded _ (set_chksum hdr) _
      bytes p ps s t
      (first-waits hdr mtu bytes p s large word hl e le some_here w one l none_there free)
      (receive-Arrived hdr mtu s.datagrams large word hl (omega (arith, off)) ps t
        (record (new_datagram p.hdr) { frags = frag_of p ∷ [] }) (frag_of p) [] ofo left
        (first-Partly hdr mtu bytes p s large word hl e le some_here w one (ofo * 8) at_) rest
        (omega (arith, rest_len, size.1)) (omega (arith, total, len, w)) (omega (arith, room, two)))
      (omega (arith, one)) (omega (arith, free))
      (ap (λ j. set_chksum (record hdr { len = j; offset = 0 })) total
        ∙ ap (λ o. set_chksum (record hdr { offset = o })) (sym off))
      (ap (λ x. x ++ left) (append-nil p.body ∙ b) ∙ take-append-drop n bytes)
  where
    differ : true ≡ false → ⊥
    differ q = cc

-- A datagram in one pbuf, whose header has no options and whose field of offset and flags is 0, so that
-- the flag DF is not set, is too large for a link of 48 bytes or more, makes k fragments at most, and is
-- sent with memory for every allocation, to a receiver that has room for the fragments, a free entry,
-- and no datagram of that header. ip_frag sends fragments, and when
-- they come in their order, ip_reass keeps each until the last, and then returns the datagram: its
-- header, with the checksum set, and its bytes. The rest of the state is as it was.
pub ip_frag-ip_reass :
    (memory : ℕ → Bool) (hdr : IpHdr) (mtu : ℕ) (front bytes : Bytes) (s : Reass) (k : ℕ)
    → ((n : ℕ) → memory n ≡ true)
    → 48 ≤ mtu
    → mtu < u16_mod
    → iph_hl hdr * 4 ≡ ip_hlen
    → hdr.offset ≡ 0
    → length front ≡ ip_hlen
    → hdr.len ≡ length bytes + ip_hlen
    → length bytes + ip_hlen < u16_mod
    → mtu < length bytes + ip_hlen
    → length bytes ≤ k * (blocks mtu * 8)
    → s.pbufcount + 2 * k ≤ ip_reass_max_pbufs
    → own hdr s.datagrams ≡ []
    → 0 < s.free_entries
    → (ps : List Packet) × (ip_frag memory hdr mtu hdr.len ((front ++ bytes) ∷ [])
        ≡ ok (err_ok, ps))
      × Arrived s.datagrams s.pbufcount s.free_entries s.time_exceeded
          (set_chksum hdr)
          bytes
          (receive ps s)
ip_frag-ip_reass memory hdr mtu front bytes s k all large word hl off fr len w big short room
      none_there free =
    let (ps, run, cut) = ip_frag-Cut memory all hdr mtu front bytes large word fr w in
    let few = Cut-length hdr mtu (offset_of hdr) bytes ps k large word cut short in
    (
      ps,
      ap (λ n. ip_frag memory hdr mtu n ((front ++ bytes) ∷ [])) len ∙ run,
      delivered hdr mtu bytes s ps large word hl off len w big
          (subst (λ o. Cut hdr mtu o bytes ps) (omega (arith, off)) cut) (omega (arith, few, room))
          none_there free,
    )
