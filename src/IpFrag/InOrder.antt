-- ===== src/IpFrag/InOrder.antt =====
-- ip_frag.c: ip_reass on a fragment that continues the datagram at the front of the list.
use my_lwip_poc.Base.{
  ℕ, suc, ◌+◌, ◌*◌, ◌≤◌, ◌<◌, ◌≡◌, ◌≢◌, refl, Bool, true, false, List, [], ◌∷◌, ◌++◌, none, some,
  if◌then◌else◌, ◌==◌, All, ap, sym, ◌∙◌, ==_of_eq, le→ltb, Bool-cases, inl, inr, append-nil,
  lt→ltb,
}
use my_lwip_poc.Base.Word.{add16, sub16}
use my_lwip_poc.Base.Outcome.{ok, ◌>>=◌}
use my_lwip_poc.IpFrag.{
  IpHdr, Frag, Datagram, Reass, Packet, matching, iph_hl, ip_hlen, offset_of, more_fragments,
  frag_of,
}
use my_lwip_poc.IpFrag.Place.{
  placed, place, validate, kept, first_start, chain_frag_into_datagram_and_validate,
}
use my_lwip_poc.IpFrag.Chain.{Below, passed}
use my_lwip_poc.IpFrag.Complete.{FollowsFrom}
use my_lwip_poc.IpFrag.Gaps.{place-run, chain-placed, Passes, chain-Passes}
use my_lwip_poc.IpFrag.Input.{
  waiting, complete, find_datagram, first_header, last_fragment, reassembled, after_chaining,
  add_fragment, after_enqueue, with_datagram, make_room, ip_reass,
}
use my_lwip_poc.IpFrag.Queue.{
  ip_reass_max_pbufs, new_datagram, enqueued, enqueue_new_datagram, replace_at, dequeue_datagram,
}
use my_lwip_poc.IpFrag.Oldest.{own}

first_header-old : (old new : IpHdr) → offset_of old ≡ 0 → first_header old new ≡ old
first_header-old old new z = elim (Bool-cases (offset_of new == 0)) [
  | inl t ↦ rw (t, ==_of_eq (offset_of old) 0 z) refl
  | inr t ↦ rw t refl
]

find_datagram-none :
    (hdr : IpHdr) (i : ℕ) (ds : List Datagram) → own hdr ds ≡ [] → find_datagram hdr i ds ≡ none
unfolding find_datagram
find_datagram-none hdr i [] e = refl
find_datagram-none hdr i (d ∷ ds) e = elim (Bool-cases (matching d.iphdr hdr)) [
  | inl t ↦ absurd (nonempty (sym (rw t refl) ∙ e))
  | inr t ↦ rw t (find_datagram-none hdr (suc i) ds (sym (rw t refl) ∙ e))
]
  where
    nonempty : d ∷ own hdr ds ≡ [] → ⊥
    nonempty q = cc

module _ (p : Packet) (s : Reass) (hl : iph_hl p.hdr * 4 ≡ ip_hlen)
    (room : s.pbufcount + p.clen ≤ ip_reass_max_pbufs) where
  accepted : ip_reass p s ≡ with_datagram s p (find_datagram p.hdr 0 s.datagrams)
  unfolding ip_reass make_room
  accepted =
      rw
        (
          ==_of_eq (iph_hl p.hdr * 4) ip_hlen hl,
          le→ltb ip_reass_max_pbufs (s.pbufcount + p.clen) room,
        )
        refl

  -- The datagram of the fragment is at the front, with the header of its first fragment.
  pub ip_reass-front :
      (d : Datagram) (ds : List Datagram)
      → s.datagrams ≡ d ∷ ds
      → matching d.iphdr p.hdr ≡ true
      → offset_of d.iphdr ≡ 0
      → ip_reass p s ≡ add_fragment s 0 none d p
  unfolding with_datagram find_datagram
  ip_reass-front d ds l m z =
      accepted
      ∙ ap (λ k. with_datagram s p (find_datagram p.hdr 0 k)) l
      ∙ ap (λ b. with_datagram s p (if b then some (0, d) else find_datagram p.hdr 1 ds)) m
      ∙ ap (λ h. add_fragment s 0 none (record d { iphdr = h }) p)
          (first_header-old d.iphdr p.hdr z)

  -- There is no datagram of the fragment, and an entry for one.
  pub ip_reass-new :
      own p.hdr s.datagrams ≡ []
      → 0 < s.free_entries
      → ip_reass p s ≡ add_fragment (enqueued p.hdr s) 0 none (new_datagram p.hdr) p
  unfolding with_datagram enqueue_new_datagram
  ip_reass-new o free =
      let given : enqueue_new_datagram p.hdr p.clen s ≡ ok (true, enqueued p.hdr s) =
        rw (lt→ltb 0 s.free_entries free) refl in
      accepted
      ∙ ap (with_datagram s p) (find_datagram-none p.hdr 0 s.datagrams o)
      ∙ ap (λ o. o >>= after_enqueue p) given

not_seen :
    (last_seen : Bool) (len : ℕ) (valid : Bool) (before : List Frag) (new : Frag)
    (after : List Frag)
    → last_seen ≡ false
    → validate last_seen len valid before new after ≡ ok false
unfolding validate
not_seen last_seen len valid before new after e = rw e refl

-- The fragment is put behind those of the datagram, at the front of the list, and others are to follow.
pub add_fragment-more :
    (s : Reass) (d : Datagram) (p : Packet)
    → more_fragments p.hdr ≡ 1
    → d.last_seen ≡ false
    → All (Below (frag_of p)) d.frags
    → add_fragment s 0 none d p
      ≡ ok (
        waiting,
        record s {
          datagrams = replace_at 0 (record d { frags = d.frags ++ frag_of p ∷ [] }) s.datagrams;
          pbufcount = add16 s.pbufcount p.clen;
        },
      )
unfolding add_fragment
add_fragment-more s d p mf seen below =
    let new = frag_of p in
    let run = place-run new none true d.frags [] tt below tt in
    let same : last_fragment p.hdr d ≡ d = rw mf refl in
    let all : place new none true d.frags
        ≡ ok (placed (passed new none true d.frags []) d.frags []) =
      ap (place new none true) (sym (append-nil d.frags)) ∙ run in
    let chained : chain_frag_into_datagram_and_validate d new
        ≡ ok (kept (d.frags ++ new ∷ []) false) =
      chain-placed d new (passed new none true d.frags []) d.frags [] all
      ∙ ap (λ o. o >>= λ r. ok (kept (d.frags ++ new ∷ []) r))
          (not_seen d.last_seen d.datagram_len (passed new none true d.frags []) d.frags new []
            seen) in
    ap
      (λ e.
        chain_frag_into_datagram_and_validate e new
        >>= after_chaining (record s { pbufcount = add16 s.pbufcount p.clen }) 0 none e p)
      same
    ∙ ap (λ o. o >>= after_chaining (record s { pbufcount = add16 s.pbufcount p.clen }) 0 none d p)
        chained

-- The datagram when its last fragment is seen.
abbrev pub completed : Datagram → Packet → Datagram
completed d p = record d {
  frags = d.frags ++ frag_of p ∷ [];
  last_seen = true;
  datagram_len = (frag_of p).end_;
}

-- The last fragment completes the datagram, which leaves the list.
pub add_fragment-last :
    (s : Reass) (d : Datagram) (p : Packet)
    → more_fragments p.hdr ≡ 0
    → d.frags ≢ []
    → All (Below (frag_of p)) d.frags
    → first_start (d.frags ++ frag_of p ∷ []) ≡ 0
    → FollowsFrom none (d.frags ++ frag_of p ∷ [])
    → add_fragment s 0 none d p ≡ (
        dequeue_datagram (record s { pbufcount = add16 s.pbufcount p.clen }) 0 none >>= λ t. ok (
          complete (reassembled (completed d p)),
          record t { pbufcount = sub16 t.pbufcount (reassembled (completed d p)).clen },
        ))
unfolding add_fragment
add_fragment-last s d p mf several below first follows =
    let new = frag_of p in
    let e : Datagram = record d { last_seen = true; datagram_len = new.end_ } in
    let now : last_fragment p.hdr d ≡ e = rw mf refl in
    let passes : Passes e new d.frags [] = record {
      parts = append-nil d.frags;
      below = below;
      clear = tt;
      last = refl;
      first = first;
      front = follows;
      rest = tt;
      several = several;
    } in
    let chained : chain_frag_into_datagram_and_validate e new
        ≡ ok (kept (d.frags ++ new ∷ []) true) =
      chain-Passes e new d.frags [] passes ∙ rw (==_of_eq new.end_ new.end_ refl) refl in
    ap
      (λ e.
        chain_frag_into_datagram_and_validate e new
        >>= after_chaining (record s { pbufcount = add16 s.pbufcount p.clen }) 0 none e p)
      now
    ∙ ap (λ o. o >>= after_chaining (record s { pbufcount = add16 s.pbufcount p.clen }) 0 none e p)
        chained
