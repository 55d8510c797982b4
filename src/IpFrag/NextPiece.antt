-- ===== src/IpFrag/NextPiece.antt =====
-- ip_frag.c: ip_reass on the next of the fragments that ip_frag has sent.
use my_lwip_poc.Base.{
  ℕ, ◌+◌, ◌*◌, ◌≤◌, ◌<◌, ◌≡◌, refl, true, false, if◌then◌else◌, List, [], ◌∷◌, ◌++◌, arith, All, ap,
  sym, ◌∙◌, subst, length, none,
}
use my_lwip_poc.Base.Word.{add16, sub16, u16_mod}
use my_lwip_poc.Base.Outcome.{ok, ◌>>=◌}
use my_lwip_poc.IpFrag.{
  IpHdr, ip_hlen, iph_hl, offset_of, more_fragments, matching, Packet, Frag, frag_of, Datagram,
  Reass,
}
use my_lwip_poc.IpFrag.Place.{first_start}
use my_lwip_poc.IpFrag.Fragment.{Bytes, is_last, copied_len, frag_hdr}
use my_lwip_poc.IpFrag.Complete.{FollowsFrom}
use my_lwip_poc.IpFrag.Chain.{Below}
use my_lwip_poc.IpFrag.Input.{waiting, complete, total_clen, reassembled, add_fragment, ip_reass}
use my_lwip_poc.IpFrag.Queue.{dequeue_datagram, replace_at, ip_reass_max_pbufs}
use my_lwip_poc.IpFrag.InOrder.{ip_reass-front, add_fragment-more, add_fragment-last, completed}
use my_lwip_poc.IpFrag.Pieces.{
  frag_hdr-matching, frag_hdr-offset, frag_hdr-more, piece-iph_hl, piece-start, piece-stop, Upto,
  Upto-snoc, Upto-Below,
}

-- The first fragments of a datagram, up to `stop`, are here, at the front of the list.
pub record Partly (hdr : IpHdr) (mtu : ℕ) (ds : List Datagram) (s : Reass) (d : Datagram) (f : Frag)
    (fs : List Frag) (stop : ℕ) : Type 0 where
  pub list : s.datagrams ≡ d ∷ ds
  pub frags : d.frags ≡ f ∷ fs
  pub seen : d.last_seen ≡ false
  pub len0 : ℕ
  pub from : d.iphdr ≡ frag_hdr hdr mtu len0 0
  pub upto : Upto stop f fs
  pub fits : total_clen d.frags ≤ s.pbufcount

module _ (hdr : IpHdr) (mtu : ℕ) (ds : List Datagram) (large : 48 ≤ mtu) (word : mtu < u16_mod)
    (hl : iph_hl hdr * 4 ≡ ip_hlen) (whole : more_fragments hdr ≡ 0) where
  -- What is known of the next piece.
  module _ (s : Reass) (d : Datagram) (f : Frag) (fs : List Frag) (ofo : ℕ) (bytes : Bytes)
      (p : Packet) (here : Partly hdr mtu ds s d f fs (ofo * 8))
      (e : p.hdr ≡ frag_hdr hdr mtu (length bytes) ofo)
      (le : copied_len mtu (length bytes) ≤ length bytes) (pos : 0 < copied_len mtu (length bytes))
      (w : ofo * 8 + length bytes + ip_hlen < u16_mod)
      (room : s.pbufcount + p.clen ≤ ip_reass_max_pbufs) where
    pub stop : (frag_of p).end_ ≡ ofo * 8 + copied_len mtu (length bytes)
    stop = piece-stop hdr mtu (length bytes) ofo p e hl le w

    pub begin : (frag_of p).start ≡ ofo * 8
    begin = piece-start hdr mtu (length bytes) ofo p e hl le w

    to_front : ip_reass p s ≡ add_fragment s 0 none d p
    to_front =
        ip_reass-front p s (piece-iph_hl hdr mtu (length bytes) ofo p e hl le w) room d ds here.list
          (ap (λ h. matching h p.hdr) here.from
            ∙ ap (matching (frag_hdr hdr mtu here.len0 0)) e
            ∙ frag_hdr-matching hdr mtu (length bytes) ofo here.len0 0)
          (ap offset_of here.from ∙ frag_hdr-offset hdr mtu here.len0 0 (omega arith))

    below : All (Below (frag_of p)) d.frags
    below =
        subst (All (Below (frag_of p))) (sym here.frags)
          (Upto-Below (ofo * 8) f fs (frag_of p) here.upto begin)

    pub with_piece : Upto (ofo * 8 + copied_len mtu (length bytes)) f (fs ++ frag_of p ∷ [])
    with_piece =
        Upto-snoc (ofo * 8) (copied_len mtu (length bytes)) f fs (frag_of p) here.upto begin stop
          pos

    pub frags_now : d.frags ++ frag_of p ∷ [] ≡ f ∷ fs ++ frag_of p ∷ []
    frags_now = ap (λ l. l ++ frag_of p ∷ []) here.frags

    pub piece-more :
        is_last mtu (length bytes) ≡ false
        → ip_reass p s
          ≡ ok (
            waiting,
            record s {
              datagrams = replace_at 0 (record d { frags = d.frags ++ frag_of p ∷ [] }) s.datagrams;
              pbufcount = add16 s.pbufcount p.clen;
            },
          )
    piece-more l =
        let mf : (if is_last mtu (length bytes) then more_fragments hdr else 1) ≡ 1 = rw l refl in
        to_front
        ∙ add_fragment-more s d p
            (ap more_fragments e
              ∙ frag_hdr-more hdr mtu (length bytes) ofo (omega (arith, mf))
              ∙ mf)
            here.seen below

    pub piece-last :
        is_last mtu (length bytes) ≡ true
        → ip_reass p s ≡ (
            dequeue_datagram (record s { pbufcount = add16 s.pbufcount p.clen }) 0 none >>= λ t.
            ok (
              complete (reassembled (completed d p)),
              record t { pbufcount = sub16 t.pbufcount (reassembled (completed d p)).clen },
            ))
    piece-last l =
        let mf : (if is_last mtu (length bytes) then more_fragments hdr else 1) ≡ 0 = rw l whole in
        to_front
        ∙ add_fragment-last s d p
            (ap more_fragments e
              ∙ frag_hdr-more hdr mtu (length bytes) ofo (omega (arith, mf))
              ∙ mf)
            (λ q. nonempty (sym here.frags ∙ q)) below (ap first_start frags_now ∙ here.upto.first)
            (subst (FollowsFrom none) (sym frags_now) with_piece.follows)
      where
        nonempty : f ∷ fs ≡ [] → ⊥
        nonempty q = cc
