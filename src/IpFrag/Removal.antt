-- ===== src/IpFrag/Removal.antt =====
-- ip_frag.c: the outer loop of ip_reass_remove_oldest_datagram.
use my_lwip_poc.Base.{
  ℕ, zero, suc, ◌+◌, ◌<◌, ◌≡◌, refl, Bool, true, false, ◌&&◌, List, [], ◌⊎◌, inl, inr,
  if◌then◌else◌, ltb, arith, ap, length, sym, ◌∙◌, subst, Bool-cases, ltb→lt,
}
use my_lwip_poc.Base.Outcome.{Outcome, ok, assert_failed, ◌>>=◌}
use my_lwip_poc.IpFrag.{IpHdr, Datagram, Reass}
use my_lwip_poc.IpFrag.Queue.{
  Scan, scan_loop, scan_start, free_oldest, remove_oldest_loop, remove_oldest_datagram,
}
use my_lwip_poc.IpFrag.Inv.{Inv}
use my_lwip_poc.IpFrag.Oldest.{Standing, nowhere, scan_loop-Standing, Removed, free_oldest-Removed}

abbrev pub scan : IpHdr → Reass → Scan
scan hdr s = scan_loop hdr 0 s.datagrams scan_start

-- What follows a round that has freed `n` pbufs.
abbrev pub next_round :
    ℕ → IpHdr → (needed freed n : ℕ) → (others : ℕ) → Reass → Outcome (ℕ × Reass)
next_round fuel hdr needed freed n others t =
    let again = remove_oldest_loop fuel hdr needed (freed + n) t in
    if ltb (freed + n) needed && ltb 1 others then again else ok (freed + n, t)

pub round :
    (fuel : ℕ) (hdr : IpHdr) (needed freed : ℕ) (s : Reass)
    → remove_oldest_loop (suc fuel) hdr needed freed s ≡ (
        free_oldest s (scan hdr s) >>= λ r.
        next_round fuel hdr needed freed r.0 (scan hdr s).other_datagrams r.1)
unfolding remove_oldest_loop
round fuel hdr needed freed s = refl

more : (a b : Bool) (n : ℕ) → (a && ltb 1 n) ≡ true → 1 < n
more true b n h = ltb→lt 1 n h
more false b n h = absurd (differ h)
  where
    differ : false ≡ true → ⊥
    differ e = cc

scan-Standing :
    (hdr : IpHdr) (s : Reass) (ds : List Datagram) → Inv s ds → Standing hdr ds (scan hdr s)
scan-Standing hdr s ds v =
    subst (λ l. Standing hdr ds (scan_loop hdr 0 l scan_start)) (sym v.list)
      (scan_loop-Standing hdr [] ds scan_start nowhere)

-- With a round for each entry and one more, the loop ends, or an assertion aborts.
loop-Removed :
    (fuel : ℕ) (hdr : IpHdr) (needed freed : ℕ) (s : Reass) (ds : List Datagram)
    → length ds < fuel
    → Inv s ds
    → (remove_oldest_loop fuel hdr needed freed s ≡ assert_failed)
      ⊎ Removed hdr ds freed (remove_oldest_loop fuel hdr needed freed s)
loop-Removed zero hdr needed freed s ds lt v = absurd (omega (arith, lt))
loop-Removed (suc fuel) hdr needed freed s ds lt v =
    let first = round fuel hdr needed freed s in
    elim (free_oldest-Removed hdr s ds (scan hdr s) v (scan-Standing hdr s ds v)) [
      | inl a ↦ inl (
          first
          ∙ ap
              (λ o.
                o >>= λ r. next_round fuel hdr needed freed r.0 (scan hdr s).other_datagrams r.1)
              a)
      | inr (r, less) ↦
          let go : remove_oldest_loop (suc fuel) hdr needed freed s
              ≡ next_round fuel hdr needed freed r.n (scan hdr s).other_datagrams r.after =
            first
            ∙ ap
                (λ o.
                  o >>= λ r. next_round fuel hdr needed freed r.0 (scan hdr s).other_datagrams r.1)
                r.run in
          elim (Bool-cases (ltb (freed + r.n) needed && ltb 1 (scan hdr s).other_datagrams)) [
            | inr t ↦ inr (record {
              n = freed + r.n;
              after = r.after;
              es = r.es;
              run = go ∙ rw t refl;
              inv = r.inv;
              count = omega (arith, r.count);
              own_left = r.own_left;
              shorter = r.shorter;
            })
            | inl t ↦
                let others = more (ltb (freed + r.n) needed) true (scan hdr s).other_datagrams t in
                let lt' : length r.es < fuel = elim less [
                  | inl z ↦ absurd (omega (arith, z, others))
                  | inr l ↦ omega (arith, l, lt)
                ] in
                let run : remove_oldest_loop (suc fuel) hdr needed freed s
                    ≡ remove_oldest_loop fuel hdr needed (freed + r.n) r.after =
                  go ∙ rw t refl in
                elim (loop-Removed fuel hdr needed (freed + r.n) r.after r.es lt' r.inv) [
                  | inl a ↦ inl (run ∙ a)
                  | inr q ↦ inr (record {
                    n = q.n;
                    after = q.after;
                    es = q.es;
                    run = run ∙ q.run;
                    inv = q.inv;
                    count = omega (arith, q.count, r.count);
                    own_left = q.own_left ∙ r.own_left;
                    shorter = omega (arith, q.shorter, r.shorter);
                  })
                ]
          ]
    ]

-- ip_reass_remove_oldest_datagram ends or aborts. When it returns, the invariant holds, the pbufs that
-- it reports are those that the datagrams freed held, and no datagram of the packet's header is freed.
pub remove_oldest_datagram-Removed :
    (hdr : IpHdr) (needed : ℕ) (s : Reass) (ds : List Datagram)
    → Inv s ds
    → (remove_oldest_datagram hdr needed s ≡ assert_failed)
      ⊎ Removed hdr ds 0 (remove_oldest_datagram hdr needed s)
unfolding remove_oldest_datagram
remove_oldest_datagram-Removed hdr needed s ds v =
    loop-Removed 6 hdr needed 0 s ds (omega (arith, v.entries)) v
