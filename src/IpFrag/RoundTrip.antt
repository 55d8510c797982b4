-- ===== src/IpFrag/RoundTrip.antt =====
-- ip_frag.c: what ip_frag sends, ip_reass puts together again.
use my_lwip_poc.Base.{
  ℕ, ◌+◌, ◌-◌, ◌*◌, ◌%◌, ◌≤◌, ◌<◌, ◌≡◌, refl, true, List, [], ◌∷◌, ◌++◌, arith, All, ap, sym, ◌∙◌,
  subst, length, take, drop, length-drop, inl, inr, append_assoc, append-nil, take-append-drop,
  take-length,
}
use my_lwip_poc.Base.Word.{add16, sub16, u16_mod, u8_mod}
use my_lwip_poc.Base.Outcome.{Outcome, ok, ◌>>=◌}
use my_lwip_poc.IpFrag.{
  IpHdr, ip_hlen, iph_hl, more_fragments, set_chksum, Packet, Frag, frag_of, Datagram, Reass,
}
use my_lwip_poc.IpFrag.Fragment.{Bytes, blocks, is_last, copied_len, frag_hdr}
use my_lwip_poc.IpFrag.Cut.{Cut, copied_len-cases}
use my_lwip_poc.IpFrag.Join.{total_clen-append}
use my_lwip_poc.IpFrag.Input.{Verdict, waiting, complete, total_clen, bodies, reassembled, ip_reass}
use my_lwip_poc.IpFrag.Queue.{dequeue_datagram, replace_at, remove_at, ip_reass_max_pbufs}
use my_lwip_poc.IpFrag.InOrder.{completed}
use my_lwip_poc.IpFrag.Pieces.{receive, Upto}
use my_lwip_poc.IpFrag.NextPiece.{Partly, piece-more, piece-last, stop, with_piece, frags_now}

-- All packets but the last wait, and with the last this packet is returned, which has the header and
-- the bytes. The datagrams, the count, the free entries and the log are these.
pub record Arrived (ds : List Datagram) (count entries : ℕ) (log : List IpHdr) (hdr : IpHdr)
    (bytes : Bytes) (o : Outcome (List Verdict × Reass)) : Type 0 where
  pub before : List Verdict
  pub packet : Packet
  pub after : Reass
  pub run : o ≡ ok (before ++ complete packet ∷ [], after)
  pub waits : All (λ (v : Verdict). v ≡ waiting) before
  pub header : packet.hdr ≡ hdr
  pub body : packet.body ≡ bytes
  pub datagrams : after.datagrams ≡ ds
  pub count_is : after.pbufcount ≡ count
  pub entries_are : after.free_entries ≡ entries
  pub log_is : after.time_exceeded ≡ log

bodies-append : (fs gs : List Frag) → bodies (fs ++ gs) ≡ bodies fs ++ bodies gs
bodies-append [] gs = refl
bodies-append (f ∷ fs) gs =
    ap (◌++◌ f.body) (bodies-append fs gs) ∙ sym (append_assoc f.body (bodies fs) (bodies gs))

reassembled-hdr :
    (d : Datagram)
    → (reassembled d).hdr
      ≡ set_chksum (record d.iphdr { len = add16 d.datagram_len ip_hlen; offset = 0 })
unfolding reassembled
reassembled-hdr d = refl

reassembled-body : (d : Datagram) → (reassembled d).body ≡ bodies d.frags
unfolding reassembled
reassembled-body d = refl

reassembled-clen : (d : Datagram) → (reassembled d).clen ≡ total_clen d.frags % u8_mod
unfolding reassembled
reassembled-clen d = refl

-- The length and the offset of a piece's header are set again, and the checksum.
set_chksum-frag_hdr :
    (hdr : IpHdr) (mtu l o len : ℕ)
    → set_chksum (record (frag_hdr hdr mtu l o) { len = len; offset = 0 })
      ≡ set_chksum (record hdr { len = len; offset = 0 })
unfolding set_chksum frag_hdr
set_chksum-frag_hdr hdr mtu l o len = refl

pub cons-Arrived :
    (ds : List Datagram) (c c' n n' : ℕ) (log : List IpHdr) (h h' : IpHdr) (b b' : Bytes)
    (p : Packet) (ps : List Packet) (s t : Reass)
    → ip_reass p s ≡ ok (waiting, t)
    → Arrived ds c n log h b (receive ps t)
    → c ≡ c'
    → n ≡ n'
    → h ≡ h'
    → b ≡ b'
    → Arrived ds c' n' log h' b' (receive (p ∷ ps) s)
unfolding receive
cons-Arrived ds c c' n n' log h h' b b' p ps s t e a ec en eh eb = record {
  before = waiting ∷ a.before;
  packet = a.packet;
  after = a.after;
  run =
      ap (λ o. o >>= λ r. receive ps r.1 >>= λ q. ok (r.0 ∷ q.0, q.1)) e
      ∙ ap (λ o. o >>= λ q. ok (waiting ∷ q.0, q.1)) a.run;
  waits = (refl, a.waits);
  header = a.header ∙ eh;
  body = a.body ∙ eb;
  datagrams = a.datagrams;
  count_is = a.count_is ∙ ec;
  entries_are = a.entries_are ∙ en;
  log_is = a.log_is;
}

module _ (hdr : IpHdr) (mtu : ℕ) (ds : List Datagram) (large : 48 ≤ mtu) (word : mtu < u16_mod)
    (hl : iph_hl hdr * 4 ≡ ip_hlen) (whole : more_fragments hdr ≡ 0) where
  last-Arrived :
      (s : Reass) (d : Datagram) (f : Frag) (fs : List Frag) (ofo : ℕ) (bytes : Bytes) (p : Packet)
      → Partly hdr mtu ds s d f fs (ofo * 8)
      → p.hdr ≡ frag_hdr hdr mtu (length bytes) ofo
      → p.body ≡ bytes
      → 0 < length bytes
      → ofo * 8 + length bytes + ip_hlen < u16_mod
      → s.pbufcount + p.clen ≤ ip_reass_max_pbufs
      → is_last mtu (length bytes) ≡ true
      → copied_len mtu (length bytes) ≡ length bytes
      → Arrived ds
          (s.pbufcount - total_clen d.frags)
          (s.free_entries + 1)
          s.time_exceeded
          (set_chksum (record hdr { len = ofo * 8 + length bytes + ip_hlen; offset = 0 }))
          (bodies d.frags ++ bytes)
          (receive (p ∷ []) s)
  unfolding receive dequeue_datagram
  last-Arrived s d f fs ofo bytes p here e b pos w room l c =
      let q = reassembled (completed d p) in
      let end_ : (frag_of p).end_ ≡ ofo * 8 + length bytes =
        stop hdr mtu ds large word hl whole s d f fs ofo bytes p here e (omega (arith, c))
          (omega (arith, pos, c)) w room
        ∙ ap (λ k. ofo * 8 + k) c in
      record {
        before = [];
        packet = q;
        after = record s {
          datagrams = remove_at 0 s.datagrams;
          free_entries = s.free_entries + 1;
          pbufcount = sub16 (add16 s.pbufcount p.clen) q.clen;
        };
        run =
            ap (λ o. o >>= λ r. ok (r.0 ∷ [], r.1))
              (piece-last hdr mtu ds large word hl whole s d f fs ofo bytes p here e
                (omega (arith, c)) (omega (arith, pos, c)) w room l);
        waits = tt;
        header =
            reassembled-hdr (completed d p)
            ∙ ap (λ h. set_chksum (record h { len = add16 (frag_of p).end_ ip_hlen; offset = 0 }))
                here.from
            ∙ set_chksum-frag_hdr hdr mtu here.len0 0 (add16 (frag_of p).end_ ip_hlen)
            ∙ ap (λ k. set_chksum (record hdr { len = k; offset = 0 })) (omega (arith, end_, w));
        body =
            reassembled-body (completed d p)
            ∙ bodies-append d.frags (frag_of p ∷ [])
            ∙ ap (◌++◌ (bodies d.frags)) (append-nil p.body ∙ b);
        datagrams = ap (remove_at 0) here.list;
        count_is = omega (
          arith,
          reassembled-clen (completed d p),
          total_clen-append d.frags (frag_of p ∷ []),
          room,
          here.fits,
        );
        entries_are = refl;
        log_is = refl;
      }

  -- The datagram with the piece, and the state.
  abbrev longer : Datagram → Packet → Datagram
  longer d p = record d { frags = d.frags ++ frag_of p ∷ [] }

  abbrev stored : Reass → Datagram → Packet → Reass
  stored s d p = record s {
    datagrams = replace_at 0 (longer d p) s.datagrams;
    pbufcount = add16 s.pbufcount p.clen;
  }

  stored-Partly :
      (s : Reass) (d : Datagram) (f : Frag) (fs : List Frag) (ofo : ℕ) (bytes : Bytes) (p : Packet)
      → Partly hdr mtu ds s d f fs (ofo * 8)
      → p.hdr ≡ frag_hdr hdr mtu (length bytes) ofo
      → copied_len mtu (length bytes) ≤ length bytes
      → 0 < copied_len mtu (length bytes)
      → ofo * 8 + length bytes + ip_hlen < u16_mod
      → s.pbufcount + p.clen ≤ ip_reass_max_pbufs
      → (k : ℕ) → k ≡ ofo * 8 + copied_len mtu (length bytes)
      → Partly hdr mtu ds (stored s d p) (longer d p) f (fs ++ frag_of p ∷ []) k
  stored-Partly s d f fs ofo bytes p here e le pos w room k same = record {
    list = ap (replace_at 0 (longer d p)) here.list;
    frags = frags_now hdr mtu ds large word hl whole s d f fs ofo bytes p here e le pos w room;
    seen = here.seen;
    len0 = here.len0;
    from = here.from;
    upto =
        subst (λ j. Upto j f (fs ++ frag_of p ∷ [])) (sym same)
          (with_piece hdr mtu ds large word hl whole s d f fs ofo bytes p here e le pos w room);
    fits = omega (arith, here.fits, room, total_clen-append d.frags (frag_of p ∷ []));
  }

  pub receive-Arrived :
      (ps : List Packet) (s : Reass) (d : Datagram) (f : Frag) (fs : List Frag) (ofo : ℕ)
      (bytes : Bytes)
      → Partly hdr mtu ds s d f fs (ofo * 8)
      → Cut hdr mtu ofo bytes ps
      → 0 < length bytes
      → ofo * 8 + length bytes + ip_hlen < u16_mod
      → s.pbufcount + 2 * length ps ≤ ip_reass_max_pbufs
      → Arrived ds
          (s.pbufcount - total_clen d.frags)
          (s.free_entries + 1)
          s.time_exceeded
          (set_chksum (record hdr { len = ofo * 8 + length bytes + ip_hlen; offset = 0 }))
          (bodies d.frags ++ bytes)
          (receive ps s)
  receive-Arrived [] s d f fs ofo bytes here cut pos w room =
      absurd (omega (arith, pos, ap length cut))
  receive-Arrived (p ∷ []) s d f fs ofo bytes here (pos, e, b, two, rest) more_left w room =
      elim (copied_len-cases mtu (length bytes) large word) [
        | inl c ↦
            last-Arrived s d f fs ofo bytes p here e
              (b ∙ ap (λ k. take k bytes) c.1 ∙ take-length bytes) pos w (omega (arith, room, two))
              c.0 c.1
        | inr c ↦ absurd (
            omega
              (arith, c.2, ap length rest, length-drop {0} (copied_len mtu (length bytes)) bytes))
      ]
  receive-Arrived (p ∷ r ∷ ps) s d f fs ofo bytes here (pos, e, b, two, rest) more_left w room =
      elim (copied_len-cases mtu (length bytes) large word) [
        | inl c ↦
            absurd
              (omega (arith, c.1, rest.0, length-drop {0} (copied_len mtu (length bytes)) bytes))
        | inr c ↦
            let n = copied_len mtu (length bytes) in
            let left = drop n bytes in
            let ofo' = add16 ofo (blocks mtu) in
            let le : n ≤ length bytes = omega (arith, c.2) in
            let some_here : 0 < n = omega (arith, c.3) in
            let fits : s.pbufcount + p.clen ≤ ip_reass_max_pbufs = omega (arith, room, two) in
            let at_ : ofo' * 8 ≡ ofo * 8 + n = omega (arith, c.1, le, w) in
            let len : length left ≡ length bytes - n = length-drop {0} n bytes in
            let total : ofo' * 8 + length left + ip_hlen ≡ ofo * 8 + length bytes + ip_hlen =
              omega (arith, at_, len, le) in
            cons-Arrived ds _ (s.pbufcount - total_clen d.frags) _ (s.free_entries + 1)
              s.time_exceeded _
              (set_chksum (record hdr { len = ofo * 8 + length bytes + ip_hlen; offset = 0 })) _
              (bodies d.frags ++ bytes) p (r ∷ ps) s (stored s d p)
              (piece-more hdr mtu ds large word hl whole s d f fs ofo bytes p here e le some_here w
                fits c.0)
              (receive-Arrived (r ∷ ps) (stored s d p) (longer d p) f (fs ++ frag_of p ∷ []) ofo'
                left (stored-Partly s d f fs ofo bytes p here e le some_here w fits (ofo' * 8) at_)
                rest rest.0 (omega (arith, total, w)) (omega (arith, room, two)))
              (omega (arith, total_clen-append d.frags (frag_of p ∷ []), fits, here.fits)) refl
              (ap (λ k. set_chksum (record hdr { len = k; offset = 0 })) total)
              (ap (λ l. l ++ left) (bodies-append d.frags (frag_of p ∷ []))
                ∙ append_assoc (bodies d.frags) (p.body ++ []) left
                ∙ ap (λ l. bodies d.frags ++ l)
                    (ap (λ l. l ++ left) (append-nil p.body ∙ b) ∙ take-append-drop n bytes))
      ]
