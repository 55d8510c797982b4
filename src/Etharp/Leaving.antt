-- ===== src/Etharp/Leaving.antt =====
-- netif/etharp.c: the operations that send and queue packets keep the table in order.
use my_lwip_poc.Base.{
  ℕ, not, List, [], ◌∷◌, ==_of_eq, if◌then◌else◌, zero, suc, ◌+◌, ◌<◌, ◌≡◌, ◌≢◌, refl, Bool, true,
  false, ◌&&◌, ◌||◌, Option, none, some, inl, inr, leb, ◌==◌, arith, Bool-cases, ==_refl, ne→==,
}
use my_lwip_poc.Base.Outcome.{ok}
use my_lwip_poc.Pbuf.{Pbuf}
use my_lwip_poc.Memp.{set_at}
use my_lwip_poc.Etharp.{
  etharp_send_ip, sent, ArpEntry, Arp, ArpErr, put, drop_queued, err_ok, err_mem, err_arg,
}
use my_lwip_poc.Etharp.Query.{
  is_ok, is_rom, is_last, copy_needed, take_over, etharp_request, query_request, send_to, rerequest,
  etharp_output_to_arp_index, mark_pending, enqueue, query_entry, etharp_query, is_stable_for,
  find_stable, output_unicast,
}
use my_lwip_poc.Etharp.Steps.{InOrder, Keeps, keeps, Ready, find-Keeps, put-InOrder}

in_use : (e : ArpEntry) → (e.state == 0) ≡ false → ((e.state == 1) || leb 2 e.state) ≡ true
in_use e h = ground arith

is_pending :
    (e : ArpEntry) → ((e.state == 1) || leb 2 e.state) ≡ true → leb 2 e.state ≡ false → e.state ≡ 1
is_pending e h k = ground arith

leb_refl : (n : ℕ) → leb n n ≡ true
leb_refl n = ground arith

==→eq : (a b : ℕ) → (a == b) ≡ true → a ≡ b
==→eq a b h = ground arith

empty_pending : (e : ArpEntry) → (e.state == 0) ≡ true → e.state ≢ 1
empty_pending e h k = ground arith

-- Any entry in use is ready.
used-Ready : (i : ℕ) (s : Arp) → i < 10 → (s.table i).state ≢ 0 → InOrder s → Ready i s
used-Ready i s lt used o = record {
  within = lt;
  order = o;
  alone = λ j lj ne uj e. ne (o.inv.unique j i lj lt uj used e);
  fresh = λ x. absurd (used x);
}

was_stable : (e : ArpEntry) → ((e.state == 2) && leb 228 e.ctime) ≡ true → e.state ≡ 2
was_stable e h = ground arith

asked_again :
    (b : Bool) (i : ℕ) (s : Arp)
    → i < 10
    → (s.table i).state ≡ 2
    → InOrder s
    → InOrder (if b then put s i (record (s.table i) { state = 3 }) else s)
asked_again false i s lt two o = o
asked_again true i s lt two o =
    let old = (o.inv.sound i lt).old (λ z. omega (arith, z, two)) in
    put-InOrder i s (put s i (record (s.table i) { state = 3 })) (record (s.table i) { state = 3 })
      (used-Ready i s lt (λ z. omega (arith, z, two)) o) refl o.cached
      (record {
        known = omega arith;
        waiting = λ x. (o.inv.sound i lt).waiting (λ z. omega (arith, z, two));
        old = λ x. old;
        young = λ x. absurd (omega (arith, x));
      })
      refl

module _ (hwaddr_len : ℕ → ℕ) (netif : ℕ) (six : hwaddr_len netif ≡ 6) where
  request_returns :
      (requested : Option ArpErr)
      → (e : ArpErr) × (etharp_request hwaddr_len requested netif ≡ ok e)
  unfolding etharp_request
  request_returns none = (err_mem, refl)
  request_returns (some e) = (e, rw (==_of_eq (hwaddr_len netif) 6 six) refl)

  send_to-Keeps :
      (link : ArpErr) (q i : ℕ) (s : Arp) → InOrder s → Keeps (send_to hwaddr_len link netif q i s)
  unfolding send_to etharp_send_ip
  send_to-Keeps link q i s o = rw (==_of_eq (hwaddr_len netif) 6 six) (
      keeps link (record s { log = sent netif q (s.table i).ethaddr ∷ s.log })
        (record { inv = o.inv; cached = o.cached }))

  rerequest-InOrder :
      (requested : Option ArpErr) (i : ℕ) (s : Arp)
      → i < 10
      → InOrder s
      → (u : Arp) × (rerequest hwaddr_len requested netif i s ≡ ok u) × InOrder u
  unfolding rerequest
  rerequest-InOrder requested i s lt o =
      elim (Bool-cases (((s.table i).state == 2) && leb 228 (s.table i).ctime)) [
        | inr e ↦ (s, rw e refl, o)
        | inl e ↦
            let r = request_returns requested in
            (
              if is_ok r.0 then put s i (record (s.table i) { state = 3 }) else s,
              rw e (rw r.1 refl),
              asked_again (is_ok r.0) i s lt (was_stable (s.table i) e) o,
            )
      ]

  pub etharp_output_to_arp_index-Keeps :
      (requested : Option ArpErr) (link : ArpErr) (q i : ℕ) (s : Arp)
      → i < 10
      → leb 2 (s.table i).state ≡ true
      → InOrder s
      → Keeps (etharp_output_to_arp_index hwaddr_len requested link netif q i s)
  unfolding etharp_output_to_arp_index
  etharp_output_to_arp_index-Keeps requested link q i s lt e o =
      let r = rerequest-InOrder requested i s lt o in rw e (rw r.1 (send_to-Keeps link q i r.0 r.2))

mark_pending-Ready : (i : ℕ) (s : Arp) → Ready i s → Ready i (mark_pending i s)
unfolding mark_pending
mark_pending-Ready i s r = elim (Bool-cases ((s.table i).state == 0)) [
  | inr e ↦ rw e r
  | inl e ↦ rw e (
      let e' : ArpEntry = record (s.table i) { state = 1 } in
      let zero_age = r.fresh (==→eq (s.table i).state 0 e) in
      let bare = (r.order.inv.sound i r.within).waiting (λ z. empty_pending (s.table i) e z) in
      record {
        within = r.within;
        order =
            put-InOrder i s (put s i e') e' r refl r.order.cached
              (record {
                known = omega arith;
                waiting = λ x. bare;
                old = λ x. omega (arith, zero_age);
                young = λ x. omega (arith, zero_age);
              })
              refl;
        alone = λ j lj ne. rw (==_refl i) (rw (ne→== j i ne) (r.alone j lj ne));
        fresh = rw (==_refl i) (λ x. absurd (omega (arith, x)));
      })
]

mark_pending-used :
    (i : ℕ) (s : Arp)
    → Ready i s
    → ((((mark_pending i s).table i).state == 1) || leb 2 ((mark_pending i s).table i).state) ≡ true
unfolding mark_pending
mark_pending-used i s r = elim (Bool-cases ((s.table i).state == 0)) [
  | inr e ↦ rw e (in_use (s.table i) e)
  | inl e ↦ rw e (rw (==_refl i) refl)
]

enqueue-Keeps :
    (taken i : ℕ) (s : Arp) → (s.table i).state ≡ 1 → Ready i s → Keeps (enqueue taken i s)
unfolding enqueue
enqueue-Keeps taken i s one r = elim (Bool-cases (taken == 0)) [
  | inl e ↦ rw e (keeps err_mem s r.order)
  | inr e ↦ rw e (
      let o = r.order.inv.sound i r.within in
      let e' : ArpEntry = record (s.table i) { q = taken } in
      keeps err_ok (record s { log = drop_queued (s.table i).q s.log; table = set_at s.table i e' })
        (put-InOrder i s
          (record s { log = drop_queued (s.table i).q s.log; table = set_at s.table i e' }) e' r
          refl r.order.cached
          (record { known = o.known; waiting = λ x. absurd (x one); old = o.old; young = o.young })
          refl))
]

-- The pbufs of one packet, and no queue of packets, of which the first has a buffer that is not ROM, as
-- it has the headers.
abbrev pub Whole : List Pbuf → Type 0
Whole [] = Unit
Whole (p ∷ ps) = (is_rom p.kind ≡ false) × (p.len ≡ p.tot_len → is_last ps ≡ true)

no_queue :
    (p : Pbuf) (ps : List Pbuf)
    → (p.len ≡ p.tot_len → is_last ps ≡ true)
    → (not (p.len == p.tot_len) || is_last ps) ≡ true
no_queue p ps h = elim (Bool-cases (p.len == p.tot_len)) [
  | inl e ↦ rw e (h (==→eq p.len p.tot_len e))
  | inr e ↦ rw e refl
]

take_over-returns :
    (copy q : ℕ) (pbufs : List Pbuf)
    → Whole pbufs
    → (taken : ℕ) × (take_over copy q pbufs ≡ ok taken)
unfolding take_over copy_needed
take_over-returns copy q [] w = (q, refl)
take_over-returns copy q (p ∷ ps) w = elim (Bool-cases (copy == 0)) [
  | inl e ↦ (0, rw (no_queue p ps w.1) (rw w.0 (rw e refl)))
  | inr e ↦ (copy, rw (no_queue p ps w.1) (rw w.0 (rw e (rw (leb_refl p.tot_len) refl))))
]

module _ (hwaddr_len : ℕ → ℕ) (non_unicast : (netif ipaddr : ℕ) → Bool) (netif : ℕ)
    (six : hwaddr_len netif ≡ 6) (requested : Option ArpErr) (link : ArpErr) (copy q : ℕ)
    (pbufs : List Pbuf) (whole : Whole pbufs) where
  query_request-returns :
      (i : ℕ) (s : Arp) → (e : ArpErr) × (query_request hwaddr_len requested netif q i s ≡ ok e)
  unfolding query_request
  query_request-returns i s = elim (Bool-cases (((s.table i).state == 1) || (q == 0))) [
    | inl e ↦ let r = request_returns hwaddr_len netif six requested in (r.0, rw e r.1)
    | inr e ↦ (err_mem, rw e refl)
  ]

  query_entry-Keeps :
      (i : ℕ) (s : Arp)
      → Ready i s
      → (((s.table i).state == 1) || leb 2 (s.table i).state) ≡ true
      → Keeps (query_entry hwaddr_len requested link copy netif q i pbufs s)
  unfolding query_entry
  query_entry-Keeps i s r used =
      let result = query_request-returns i s in
      let t = take_over-returns copy q pbufs whole in
      rw used (
        rw result.1 (elim (Bool-cases (q == 0)) [
          | inl e ↦ rw e (keeps result.0 s r.order)
          | inr e ↦ rw e (elim (Bool-cases (leb 2 (s.table i).state)) [
            | inl st ↦ rw st (
                send_to-Keeps hwaddr_len netif six link q i (record s { cached = i })
                  (record { inv = r.order.inv; cached = r.within }))
            | inr st ↦ rw st (rw t.1 (enqueue-Keeps t.0 i s (is_pending (s.table i) used st) r))
          ])
        ]))

  pub etharp_query-Keeps :
      (ipaddr : ℕ) (s : Arp)
      → InOrder s
      → Keeps (etharp_query hwaddr_len non_unicast requested link copy netif ipaddr q pbufs s)
  unfolding etharp_query
  etharp_query-Keeps ipaddr s o = elim (Bool-cases (non_unicast netif ipaddr)) [
    | inl n ↦ rw n (keeps err_arg s o)
    | inr n ↦ rw n (
        find-Keeps
          (λ r. elim r.0 [
            | none ↦ ok (err_mem, r.1)
            | some i ↦
                query_entry hwaddr_len requested link copy netif q i pbufs (mark_pending i r.1)
          ])
          (λ u p. keeps err_mem u p)
          (λ i u r.
            query_entry-Keeps i (mark_pending i u) (mark_pending-Ready i u r)
              (mark_pending-used i u r))
          ipaddr 1 s o)
  ]

-- The entry that the loop of etharp_output gives is one of the table, and stable.
data Hit (t : ℕ → ArpEntry) : Option ℕ → Type 0 where
  miss : Hit t none
  hit : (k : ℕ) → k < 10 → leb 2 (t k).state ≡ true → Hit t (some k)

for_stable : (dst_addr : ℕ) (e : ArpEntry) → is_stable_for dst_addr e ≡ true → leb 2 e.state ≡ true
for_stable dst_addr e h = ground arith

find_stable-Hit :
    (t : ℕ → ArpEntry) (dst_addr n i : ℕ) → n + i ≡ 10 → Hit t (find_stable t dst_addr n i)
unfolding find_stable
find_stable-Hit t dst_addr zero i e = miss
find_stable-Hit t dst_addr (suc n) i e = elim (Bool-cases (is_stable_for dst_addr (t i))) [
  | inl y ↦ rw y (hit i (omega arith) (for_stable dst_addr (t i) y))
  | inr y ↦ rw y (find_stable-Hit t dst_addr n (suc i) (omega arith))
]

module _ (hwaddr_len : ℕ → ℕ) (non_unicast : (netif ipaddr : ℕ) → Bool) (netif : ℕ)
    (six : hwaddr_len netif ≡ 6) (requested : Option ArpErr) (link : ArpErr) (copy q : ℕ)
    (pbufs : List Pbuf) (whole : Whole pbufs) (dst_addr : ℕ) (s : Arp) (o : InOrder s) where
  scanned :
      (r : Option ℕ)
      → Hit s.table r
      → Keeps (elim r [
        | none ↦ etharp_query hwaddr_len non_unicast requested link copy netif dst_addr q pbufs s
        | some i ↦
            etharp_output_to_arp_index hwaddr_len requested link netif q i (record s { cached = i })
      ])
  scanned _ miss =
      etharp_query-Keeps hwaddr_len non_unicast netif six requested link copy q pbufs whole dst_addr
        s o
  scanned _ (hit k lt st) =
      etharp_output_to_arp_index-Keeps hwaddr_len netif six requested link q k
        (record s { cached = k }) lt st (record { inv = o.inv; cached = lt })

  pub output_unicast-Keeps :
      Keeps (output_unicast hwaddr_len non_unicast requested link copy netif q dst_addr pbufs s)
  unfolding output_unicast
  output_unicast-Keeps = elim (Bool-cases (is_stable_for dst_addr (s.table s.cached))) [
    | inl y ↦ rw y (
        etharp_output_to_arp_index-Keeps hwaddr_len netif six requested link q s.cached s o.cached
          (for_stable dst_addr (s.table s.cached) y) o)
    | inr y ↦
        rw y
          (scanned (find_stable s.table dst_addr 10 0) (find_stable-Hit s.table dst_addr 10 0 refl))
  ]
