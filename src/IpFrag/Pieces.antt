-- ===== src/IpFrag/Pieces.antt =====
-- ip_frag.c: the fragments that ip_frag sends, as ip_reass reads them.
use my_lwip_poc.Base.{
  ℕ, ◌+◌, ◌*◌, ◌≤◌, ◌<◌, ◌≡◌, refl, true, if◌then◌else◌, List, [], ◌∷◌, ◌++◌, arith, All,
  All-append, All-mono, ap, sym, ◌∙◌, ==_refl,
}
use my_lwip_poc.Base.Word.{add16, u16_mod}
use my_lwip_poc.Base.Outcome.{Outcome, ok, ◌>>=◌}
use my_lwip_poc.IpFrag.{
  IpHdr, ip_hlen, iph_hl, offset_of, more_fragments, matching, payload_len, set_chksum, Packet,
  Frag, frag_of, Reass,
}
use my_lwip_poc.IpFrag.Place.{last_of}
use my_lwip_poc.IpFrag.Fragment.{is_last, copied_len, frag_hdr}
use my_lwip_poc.IpFrag.Chain.{Below}
use my_lwip_poc.IpFrag.Complete.{Follows}
use my_lwip_poc.IpFrag.Input.{Verdict, ip_reass}

-- Packets given to ip_reass one after the other: what becomes of each, and the state.
unfoldable pub receive : List Packet → Reass → Outcome (List Verdict × Reass)
receive [] s = ok ([], s)
receive (p ∷ ps) s = ip_reass p s >>= λ r. receive ps r.1 >>= λ q. ok (r.0 ∷ q.0, q.1)

module _ (hdr : IpHdr) (mtu left ofo : ℕ) where
  pub frag_hdr-matching :
      (l o : ℕ) → matching (frag_hdr hdr mtu l o) (frag_hdr hdr mtu left ofo) ≡ true
  unfolding frag_hdr set_chksum
  frag_hdr-matching l o = rw (==_refl hdr.src, ==_refl hdr.dest, ==_refl hdr.id) refl

  pub frag_hdr-iph_hl : iph_hl (frag_hdr hdr mtu left ofo) ≡ iph_hl hdr
  unfolding frag_hdr set_chksum
  frag_hdr-iph_hl = refl

  pub frag_hdr-offset : ofo < 8192 → offset_of (frag_hdr hdr mtu left ofo) ≡ ofo
  unfolding frag_hdr set_chksum
  frag_hdr-offset h = omega (arith, h)

  pub frag_hdr-more :
      (if is_last mtu left then more_fragments hdr else 1) < 2
      → more_fragments (frag_hdr hdr mtu left ofo)
        ≡ (if is_last mtu left then more_fragments hdr else 1)
  unfolding frag_hdr set_chksum
  frag_hdr-more h = omega (arith, h)

  pub frag_hdr-payload_len :
      iph_hl hdr * 4 ≡ ip_hlen
      → copied_len mtu left + ip_hlen < u16_mod
      → payload_len (frag_hdr hdr mtu left ofo) ≡ copied_len mtu left
  unfolding frag_hdr set_chksum
  frag_hdr-payload_len h w = omega (arith, h, w)

-- Where the fragment stands in the datagram.
module _ (hdr : IpHdr) (mtu left ofo : ℕ) (p : Packet) (e : p.hdr ≡ frag_hdr hdr mtu left ofo)
    (hl : iph_hl hdr * 4 ≡ ip_hlen) (le : copied_len mtu left ≤ left)
    (w : ofo * 8 + left + ip_hlen < u16_mod) where
  pub piece-iph_hl : iph_hl p.hdr * 4 ≡ ip_hlen
  piece-iph_hl = ap (λ h. iph_hl h * 4) e ∙ ap (λ k. k * 4) (frag_hdr-iph_hl hdr mtu left ofo) ∙ hl

  pub piece-start : (frag_of p).start ≡ ofo * 8
  piece-start =
      ap (λ h. offset_of h * 8) e
      ∙ ap (λ k. k * 8) (frag_hdr-offset hdr mtu left ofo (omega (arith, w)))

  pub piece-stop : (frag_of p).end_ ≡ ofo * 8 + copied_len mtu left
  piece-stop =
      let len : payload_len p.hdr ≡ copied_len mtu left =
        ap payload_len e ∙ frag_hdr-payload_len hdr mtu left ofo hl (omega (arith, w, le)) in
      ap (add16 (offset_of p.hdr * 8)) len
      ∙ ap (λ k. add16 k (copied_len mtu left)) piece-start
      ∙ omega (arith, w, le)

-- These fragments follow each other from 0 up to `stop`.
pub record Upto (stop : ℕ) (f : Frag) (fs : List Frag) : Type 0 where
  pub first : f.start ≡ 0
  pub follows : Follows f fs
  pub ends : (last_of f fs).end_ ≡ stop
  pub within : All (λ (q : Frag). (q.start < stop) × (q.end_ ≤ stop)) (f ∷ fs)

Follows-snoc :
    (f : Frag) (fs : List Frag) (g : Frag)
    → Follows f fs
    → (last_of f fs).end_ ≡ g.start
    → Follows f (fs ++ g ∷ [])
Follows-snoc f [] g h e = (e, tt)
Follows-snoc f (r ∷ fs) g h e = (h.0, Follows-snoc r fs g h.1 e)

last_of-snoc : (f : Frag) (fs : List Frag) (g : Frag) → last_of f (fs ++ g ∷ []) ≡ g
last_of-snoc f [] g = refl
last_of-snoc f (r ∷ fs) g = last_of-snoc r fs g

pub Upto-snoc :
    (stop c : ℕ) (f : Frag) (fs : List Frag) (g : Frag)
    → Upto stop f fs
    → g.start ≡ stop
    → g.end_ ≡ stop + c
    → 0 < c
    → Upto (stop + c) f (fs ++ g ∷ [])
Upto-snoc stop c f fs g u s e pos = record {
  first = u.first;
  follows = Follows-snoc f fs g u.follows (u.ends ∙ sym s);
  ends = ap (λ (q : Frag). q.end_) (last_of-snoc f fs g) ∙ e;
  within =
      All-append (λ (q : Frag). (q.start < stop + c) × (q.end_ ≤ stop + c)) (f ∷ fs) (g ∷ [])
        (All-mono (f ∷ fs) (λ q h. (omega (arith, h.0), omega (arith, h.1))) u.within)
        ((omega (arith, s, pos), omega (arith, e)), tt);
}

pub Upto-Below :
    (stop : ℕ) (f : Frag) (fs : List Frag) (g : Frag)
    → Upto stop f fs
    → g.start ≡ stop
    → All (Below g) (f ∷ fs)
Upto-Below stop f fs g u s =
    All-mono (f ∷ fs) (λ q h. (omega (arith, h.0, s), omega (arith, h.1, s))) u.within
