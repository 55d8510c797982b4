-- ===== src/IpFrag/Preserve.antt =====
-- ip_frag.c: ip_reass as a whole keeps the invariant.
use my_lwip_poc.Base.{
  ℕ, suc, ◌+◌, ◌*◌, ◌≤◌, ◌<◌, ◌≡◌, refl, Bool, true, false, not, ◌&&◌, List, [], ◌∷◌, ◌++◌, Option,
  none, some, inl, inr, ltb, leb, ◌==◌, arith, All, ap, length, sym, ◌∙◌, subst, length-append,
  Bool-cases, ltb→lt, ltb→le, append_assoc,
}
use my_lwip_poc.Base.Outcome.{◌>>=◌}
use my_lwip_poc.IpFrag.{IpHdr, Datagram, Reass, Packet, matching, iph_hl, ip_hlen}
use my_lwip_poc.IpFrag.Input.{
  dropped, find_datagram, first_header, after_enqueue, with_datagram, room_now, make_room,
  after_room, ip_reass,
}
use my_lwip_poc.IpFrag.Queue.{
  ip_reass_max_pbufs, new_datagram, enqueued, allocate_again, enqueue_new_datagram,
}
use my_lwip_poc.IpFrag.Inv.{held, Sound, Inv, held-append, All-left, All-right}
use my_lwip_poc.IpFrag.Oldest.{own}
use my_lwip_poc.IpFrag.Removal.{remove_oldest_datagram-Removed}
use my_lwip_poc.IpFrag.Steps.{Stays, add_fragment-Stays}

-- What the search finds: the first datagram of this header, or none in the list.
pub data Search (hdr : IpHdr) (ds : List Datagram) : Option (ℕ × Datagram) → Type 0 where
  not_found : own hdr ds ≡ [] → Search hdr ds none
  found :
      (bs : List Datagram)
      → (d : Datagram) → (es : List Datagram) → ds ≡ bs ++ d ∷ es
      → matching d.iphdr hdr ≡ true
      → own hdr bs ≡ []
      → Search hdr ds (some (length bs, d))

own-none : (hdr : IpHdr) (bs es : List Datagram) → own hdr bs ≡ [] → own hdr (bs ++ es) ≡ own hdr es
own-none hdr [] es e = refl
own-none hdr (b ∷ bs) es e = elim (Bool-cases (matching b.iphdr hdr)) [
  | inl t ↦ absurd (nonempty (sym (rw t refl) ∙ e))
  | inr t ↦ rw t (own-none hdr bs es (sym (rw t refl) ∙ e))
]
  where
    nonempty : b ∷ own hdr bs ≡ [] → ⊥
    nonempty q = cc

pub find_datagram-Search :
    (hdr : IpHdr) (bs ds : List Datagram)
    → own hdr bs ≡ []
    → Search hdr (bs ++ ds) (find_datagram hdr (length bs) ds)
unfolding find_datagram
find_datagram-Search hdr bs [] e = not_found (own-none hdr bs [] e)
find_datagram-Search hdr bs (d ∷ ds) e = elim (Bool-cases (matching d.iphdr hdr)) [
  | inl t ↦ rw t (found bs d ds refl t e)
  | inr t ↦
      let len : length (bs ++ d ∷ []) ≡ suc (length bs) =
        omega (arith, length-append {0} bs (d ∷ [])) in
      rw t (
        subst (λ l. Search hdr l (find_datagram hdr (suc (length bs)) ds))
          (append_assoc bs (d ∷ []) ds)
          (subst (λ k. Search hdr ((bs ++ d ∷ []) ++ ds) (find_datagram hdr k ds)) len
            (find_datagram-Search hdr (bs ++ d ∷ []) ds (own-none hdr bs (d ∷ []) e ∙ rw t refl))))
]

enqueued-Stays :
    (p : Packet) (s : Reass) (ds : List Datagram)
    → Inv s ds
    → s.pbufcount + p.clen ≤ ip_reass_max_pbufs
    → 0 < s.free_entries
    → Stays (after_enqueue p (true, enqueued p.hdr s))
enqueued-Stays p s ds v room free =
    add_fragment-Stays (enqueued p.hdr s) [] (new_datagram p.hdr) ds p (record {
      stored = new_datagram p.hdr;
      list = ap (◌∷◌ (new_datagram p.hdr)) v.list;
      counted = omega (arith, v.counted);
      room = room;
      entries = omega (arith, v.entries, free);
      left = tt;
      right = v.sound;
      timer = omega arith;
      ascending = tt;
    })

allocate_again-Stays :
    (p : Packet) (n : ℕ) (s : Reass) (ds : List Datagram)
    → Inv s ds
    → s.pbufcount + p.clen ≤ ip_reass_max_pbufs
    → Stays (allocate_again p.hdr p.clen (n, s) >>= after_enqueue p)
allocate_again-Stays p n s ds v room = elim (Bool-cases (leb p.clen n && ltb 0 s.free_entries)) [
  | inl t ↦ rw t (enqueued-Stays p s ds v room (ground arith))
  | inr t ↦ rw t (inr (dropped, s, ds, refl, v))
]

enqueue-Stays :
    (p : Packet) (s : Reass) (ds : List Datagram)
    → Inv s ds
    → s.pbufcount + p.clen ≤ ip_reass_max_pbufs
    → Stays (enqueue_new_datagram p.hdr p.clen s >>= after_enqueue p)
unfolding enqueue_new_datagram
enqueue-Stays p s ds v room = elim (Bool-cases (ltb 0 s.free_entries)) [
  | inl t ↦ rw t (enqueued-Stays p s ds v room (ltb→lt 0 s.free_entries t))
  | inr t ↦ elim (remove_oldest_datagram-Removed p.hdr p.clen s ds v) [
    | inl a ↦ rw t (inl (ap (λ o. o >>= allocate_again p.hdr p.clen >>= after_enqueue p) a))
    | inr r ↦
        rw (t, r.run)
          (allocate_again-Stays p r.n r.after r.es r.inv
            (omega (arith, room, r.count, r.inv.counted, v.counted)))
  ]
]

with_datagram-Stays :
    (p : Packet) (s : Reass) (ds : List Datagram) (o : Option (ℕ × Datagram))
    → Inv s ds
    → s.pbufcount + p.clen ≤ ip_reass_max_pbufs
    → Search p.hdr ds o
    → Stays (with_datagram s p o)
unfolding with_datagram
with_datagram-Stays p s ds _ v room (not_found e) = enqueue-Stays p s ds v room
with_datagram-Stays p s ds _ v room (found bs d es e m o) =
    let sound = subst (All Sound) e v.sound in
    let here = All-right Sound bs (d ∷ es) sound in
    add_fragment-Stays s bs (record d { iphdr = first_header d.iphdr p.hdr }) es p
      (record {
        stored = d;
        list = v.list ∙ e;
        counted = omega (
          arith,
          v.counted,
          ap held e,
          held-append bs (d ∷ es),
          held-append bs (record d { iphdr = first_header d.iphdr p.hdr } ∷ es),
        );
        room = room;
        entries = omega (
          arith,
          v.entries,
          ap length e,
          length-append {0} bs (d ∷ es),
          length-append {0} bs (record d { iphdr = first_header d.iphdr p.hdr } ∷ es),
        );
        left = All-left Sound bs (d ∷ es) sound;
        right = here.1;
        timer = here.0.0;
        ascending = here.0.2;
      })

after_room-Stays :
    (p : Packet) (b : Bool) (s : Reass) (ds : List Datagram)
    → Inv s ds
    → (b ≡ true → s.pbufcount + p.clen ≤ ip_reass_max_pbufs)
    → Stays (after_room p (b, s))
after_room-Stays p true s ds v room =
    with_datagram-Stays p s ds (find_datagram p.hdr 0 s.datagrams) v (room refl) (
      subst (λ l. Search p.hdr ds (find_datagram p.hdr 0 l)) (sym v.list)
        (find_datagram-Search p.hdr [] ds refl))
after_room-Stays p false s ds v room = inr (dropped, s, ds, refl, v)

make_room-Stays :
    (p : Packet) (s : Reass) (ds : List Datagram)
    → Inv s ds
    → Stays (make_room p s >>= after_room p)
unfolding make_room
make_room-Stays p s ds v = elim (Bool-cases (ltb ip_reass_max_pbufs (s.pbufcount + p.clen))) [
  | inr t ↦
      rw t
        (after_room-Stays p true s ds v (λ q. ltb→le ip_reass_max_pbufs (s.pbufcount + p.clen) t))
  | inl t ↦ elim (remove_oldest_datagram-Removed p.hdr p.clen s ds v) [
    | inl a ↦ rw t (inl (ap (λ o. o >>= room_now p >>= after_room p) a))
    | inr r ↦
        rw (t, r.run)
          (after_room-Stays p
            (not (r.n == 0) && leb (r.after.pbufcount + p.clen) ip_reass_max_pbufs) r.after r.es
            r.inv (λ q. ground arith))
  ]
]

-- Whatever packet comes, ip_reass ends: it aborts, or the datagrams that are left are the ones whose
-- pbufs ip_reass_pbufcount counts, at most IP_REASS_MAX_PBUFS, no entry of the pool is lost, and the
-- fragments of each are at least one, in order of their offsets.
pub ip_reass-Stays : (p : Packet) (s : Reass) (ds : List Datagram) → Inv s ds → Stays (ip_reass p s)
unfolding ip_reass
ip_reass-Stays p s ds v = elim (Bool-cases (iph_hl p.hdr * 4 == ip_hlen)) [
  | inl t ↦ rw t (make_room-Stays p s ds v)
  | inr t ↦ rw t (inr (dropped, s, ds, refl, v))
]
