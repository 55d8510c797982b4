-- ===== src/IpFrag/Crowded.antt =====
-- ip_frag.c: ip_reass_remove_oldest_datagram when the oldest datagram is the packet's own.
use my_lwip_poc.Base.{
  ℕ, suc, ◌+◌, ◌*◌, ◌≤◌, ◌<◌, ◌≡◌, refl, true, false, List, [], ◌∷◌, ◌++◌, Option, none, some, All,
  ap, sym, ◌∙◌, subst, ==_refl, lt→ltb, ==_of_eq, le→leb,
}
use my_lwip_poc.Base.Outcome.{assert_failed, ◌>>=◌}
use my_lwip_poc.IpFrag.{IpHdr, Datagram, Reass, Packet, matching, iph_hl, ip_hlen}
use my_lwip_poc.IpFrag.Input.{ip_reass, make_room, room_now, after_room}
use my_lwip_poc.IpFrag.Queue.{
  Scan, scan_loop, scan_start, free_oldest, free_complete_datagram, remove_oldest_loop,
  remove_oldest_datagram, scan_step, not_younger, ip_reass_max_pbufs,
}
use my_lwip_poc.IpFrag.Removal.{scan, round, next_round}

-- The timers from the front of the list on: none is above that of an entry before it.
abbrev pub Falling : List Datagram → Type 0
Falling [] = Unit
Falling (d ∷ ds) = All (λ (e : Datagram). e.timer ≤ d.timer) ds × Falling ds

abbrev pub Others : IpHdr → List Datagram → Type 0
Others hdr ds = All (λ (d : Datagram). matching d.iphdr hdr ≡ false) ds

-- The oldest entry seen is not younger than these.
abbrev Elder : Option (ℕ × Datagram) → List Datagram → Type 0
Elder none ds = Unit
Elder (some (j, o)) ds = All (λ (e : Datagram). e.timer ≤ o.timer) ds

Elder-not_younger :
    (o : Option (ℕ × Datagram)) (e : Datagram) (ds : List Datagram)
    → Elder o (e ∷ ds)
    → not_younger e o ≡ true
Elder-not_younger none e ds h = refl
Elder-not_younger (some (j, o)) e ds h = le→leb e.timer o.timer h.0

-- One round at an entry of another datagram: it is the oldest so far.
step_other :
    (hdr : IpHdr) (i : ℕ) (e : Datagram) (rs : List Datagram) (s : Scan)
    → matching e.iphdr hdr ≡ false
    → not_younger e s.oldest ≡ true
    → (scan_step hdr i e rs s).oldest ≡ some (i, e)
step_other hdr i e rs s m y = rw (m, y) refl

-- At the last entry, of the packet's own datagram, nothing changes.
step_own :
    (hdr : IpHdr) (i : ℕ) (d : Datagram) (s : Scan)
    → matching d.iphdr hdr ≡ true
    → ((scan_step hdr i d [] s).oldest ≡ s.oldest) × ((scan_step hdr i d [] s).prev ≡ s.prev)
step_own hdr i d s m = (rw m refl, refl)

-- The oldest of the others, in front of the last entry, is its own `prev`.
scan_loop-last :
    (hdr : IpHdr) (i : ℕ) (e : Datagram) (es : List Datagram) (d : Datagram) (s : Scan)
    → Elder s.oldest (e ∷ es)
    → Falling (e ∷ es)
    → Others hdr (e ∷ es)
    → matching d.iphdr hdr ≡ true
    → (j : ℕ) × (o : Datagram) × ((scan_loop hdr i (e ∷ es ++ d ∷ []) s).oldest ≡ some (j, o))
      × ((scan_loop hdr i (e ∷ es ++ d ∷ []) s).prev ≡ some j)
unfolding scan_loop
scan_loop-last hdr i e [] d s el f ot m =
    let t = scan_step hdr i e (d ∷ []) s in
    let own = step_own hdr (suc i) d t m in
    (i, e, own.0 ∙ step_other hdr i e (d ∷ []) s ot.0 (Elder-not_younger s.oldest e [] el), own.1)
scan_loop-last hdr i e (c ∷ es) d s el f ot m =
    let t = scan_step hdr i e (c ∷ es ++ d ∷ []) s in
    scan_loop-last hdr (suc i) c es d t
      (subst (λ o. Elder o (c ∷ es))
        (sym
          (step_other hdr i e (c ∷ es ++ d ∷ []) s ot.0 (Elder-not_younger s.oldest e (c ∷ es) el)))
        f.0)
      f.1 ot.1 m

own_prev :
    (s : Reass) (o : Datagram) (j : ℕ) → free_complete_datagram s o j (some j) ≡ assert_failed
unfolding free_complete_datagram
own_prev s o j = rw (==_refl j) refl

free_oldest-own_prev :
    (s : Reass) (c : Scan) (j : ℕ) (o : Datagram)
    → c.oldest ≡ some (j, o)
    → c.prev ≡ some j
    → free_oldest s c ≡ assert_failed
free_oldest-own_prev s c j o e p = rw (e, p) (own_prev s o j)

-- If there is no room for a packet, its datagram is the last in the list, so the oldest, and there are
-- others, then ip_reass aborts: it gives the entry to be freed also as the one in front of that.
pub ip_reass-aborts :
    (p : Packet) (s : Reass) (e : Datagram) (es : List Datagram) (d : Datagram)
    → iph_hl p.hdr * 4 ≡ ip_hlen
    → ip_reass_max_pbufs < s.pbufcount + p.clen
    → s.datagrams ≡ e ∷ es ++ d ∷ []
    → Falling (e ∷ es)
    → Others p.hdr (e ∷ es)
    → matching d.iphdr p.hdr ≡ true
    → ip_reass p s ≡ assert_failed
unfolding ip_reass make_room remove_oldest_datagram
ip_reass-aborts p s e es d hl full l f ot m =
    let c = scan_loop p.hdr 0 (e ∷ es ++ d ∷ []) scan_start in
    let (j, o, old, prev) = scan_loop-last p.hdr 0 e es d scan_start tt f ot m in
    let stuck : free_oldest s (scan p.hdr s) ≡ assert_failed =
      subst (λ k. free_oldest s (scan_loop p.hdr 0 k scan_start) ≡ assert_failed) (sym l)
        (free_oldest-own_prev s c j o old prev) in
    let aborts : remove_oldest_loop 6 p.hdr p.clen 0 s ≡ assert_failed =
      round 5 p.hdr p.clen 0 s
      ∙ ap (λ x. x >>= λ r. next_round 5 p.hdr p.clen 0 r.0 (scan p.hdr s).other_datagrams r.1)
          stuck in
    rw
      (
        ==_of_eq (iph_hl p.hdr * 4) ip_hlen hl,
        lt→ltb ip_reass_max_pbufs (s.pbufcount + p.clen) full,
      )
      (ap (λ x. x >>= room_now p >>= after_room p) aborts)
