-- ===== src/IpFrag/Steps.antt =====
-- ip_frag.c: ip_reass keeps the invariant.
use my_lwip_poc.Base.{
  ℕ, ◌+◌, ◌%◌, ◌≤◌, ◌<◌, ◌≡◌, refl, Bool, true, false, List, ◌∷◌, ◌++◌, Option, ◌⊎◌, inl, inr, ◌==◌,
  arith, All, All-append, ap, length, sym, ◌∙◌, subst, length-append, Bool-cases,
}
use my_lwip_poc.Base.Word.{add16, sub16, u8_mod}
use my_lwip_poc.Base.Outcome.{Outcome, ok, assert_failed, ◌>>=◌}
use my_lwip_poc.IpFrag.{IpHdr, Frag, Datagram, Reass, Packet, frag_of, more_fragments}
use my_lwip_poc.IpFrag.Place.{Chained, kept, thrown_away, chain_frag_into_datagram_and_validate}
use my_lwip_poc.IpFrag.Chain.{Ascending}
use my_lwip_poc.IpFrag.Join.{aborted, freed, joined, chain-Joined}
use my_lwip_poc.IpFrag.Input.{
  Verdict, dropped, waiting, complete, total_clen, last_fragment, reassembled, after_chaining,
  add_fragment,
}
use my_lwip_poc.IpFrag.Queue.{ip_reass_max_pbufs, ip_reass_maxage, replace_at, previous}
use my_lwip_poc.IpFrag.Inv.{held, Sound, Inv, held-append, replace_at-length, dequeue-at}

-- The call aborts, or returns with the invariant.
abbrev pub Stays : Outcome (Verdict × Reass) → Type 0
Stays o =
    (o ≡ assert_failed)
    ⊎ ((v : Verdict) × (t : Reass) × (es : List Datagram) × (o ≡ ok (v, t)) × Inv t es)

-- The state in which a fragment of `clen` pbufs comes to the datagram `d` between the others, which
-- may have no fragments yet; its header may be another than that stored.
pub record Ready (s : Reass) (bs : List Datagram) (d : Datagram) (es : List Datagram) (clen : ℕ)
    : Type 0 where
  pub stored : Datagram
  pub list : s.datagrams ≡ bs ++ stored ∷ es
  pub counted : s.pbufcount ≡ held (bs ++ d ∷ es)
  pub room : s.pbufcount + clen ≤ ip_reass_max_pbufs
  pub entries : s.free_entries + length (bs ++ d ∷ es) ≡ 5
  pub left : All Sound bs
  pub right : All Sound es
  pub timer : d.timer ≤ ip_reass_maxage
  pub ascending : Ascending d.frags

last_fragment-same :
    (hdr : IpHdr) (d : Datagram)
    → ((last_fragment hdr d).frags ≡ d.frags) × ((last_fragment hdr d).timer ≡ d.timer)
last_fragment-same hdr d = elim (Bool-cases (more_fragments hdr == 0)) [
  | inl e ↦ rw e (refl, refl)
  | inr e ↦ rw e (refl, refl)
]

reassembled-clen : (d : Datagram) → (reassembled d).clen ≡ total_clen d.frags % u8_mod
unfolding reassembled
reassembled-clen d = refl

-- The list with the datagram changed.
module _ (s : Reass) (bs : List Datagram) (d : Datagram) (es : List Datagram) (clen : ℕ)
    (r : Ready s bs d es clen) (e : Datagram) (timer : e.timer ≤ ip_reass_maxage)
    (some_here : 0 < length e.frags) (ascending : Ascending e.frags) where
  replaced-Inv :
      (count : ℕ)
      → count ≡ held (bs ++ e ∷ es)
      → count ≤ ip_reass_max_pbufs
      → Inv
          (record s { datagrams = replace_at (length bs) e s.datagrams; pbufcount = count })
          (bs ++ e ∷ es)
  replaced-Inv count c l = record {
    list = ap (replace_at (length bs) e) r.list ∙ replace_at-length bs r.stored e es;
    counted = c;
    limit = l;
    entries =
        omega (arith, r.entries, length-append {0} bs (d ∷ es), length-append {0} bs (e ∷ es));
    sound = All-append Sound bs (e ∷ es) r.left ((timer, some_here, ascending), r.right);
  }

module _ (s : Reass) (bs : List Datagram) (d : Datagram) (es : List Datagram) (p : Packet)
    (r : Ready s bs d es p.clen) where
  -- The datagram with its length, and the state with the pbufs counted.
  last : Datagram
  last = last_fragment p.hdr d

  counted : Reass
  counted = record s { pbufcount = add16 s.pbufcount p.clen }

  add_run :
      (prev : Option ℕ)
      → (c : Outcome Chained) → chain_frag_into_datagram_and_validate last (frag_of p) ≡ c
      → add_fragment s (length bs) prev d p ≡ (c >>= after_chaining counted (length bs) prev last p)
  unfolding add_fragment last counted
  add_run prev c e = ap (λ o. o >>= after_chaining counted (length bs) prev last p) e

  kept-Stays :
      (fs : List Frag) (b : Bool)
      → Ascending fs
      → 0 < length fs
      → total_clen fs ≡ total_clen d.frags + p.clen
      → Stays (after_chaining counted (length bs) (previous (length bs)) last p (kept fs b))
  unfolding last counted
  kept-Stays fs false a some_here n =
      let same = last_fragment-same p.hdr d in
      let e : Datagram = record last { frags = fs } in
      inr (
        waiting,
        record counted { datagrams = replace_at (length bs) e s.datagrams },
        bs ++ e ∷ es,
        refl,
        replaced-Inv s bs d es p.clen r e (omega (arith, r.timer, same.1)) some_here a
            (add16 s.pbufcount p.clen)
            (omega (arith, n, r.room, r.counted, held-append bs (d ∷ es), held-append bs (e ∷ es)))
            (omega (arith, r.room)),
      )
  kept-Stays fs true a some_here n =
      let q = reassembled (record last { frags = fs }) in
      inr (
        complete q,
        record counted {
          datagrams = bs ++ es;
          free_entries = s.free_entries + 1;
          pbufcount = sub16 (add16 s.pbufcount p.clen) q.clen;
        },
        bs ++ es,
        ap (λ o. o >>= λ t. ok (complete q, record t { pbufcount = sub16 t.pbufcount q.clen }))
            (dequeue-at counted bs r.stored es r.list),
        record {
          list = refl;
          counted = omega (
            arith,
            n,
            r.room,
            r.counted,
            held-append bs (d ∷ es),
            held-append bs es,
            reassembled-clen (record last { frags = fs }),
          );
          limit = omega (
            arith,
            n,
            r.room,
            r.counted,
            held-append bs (d ∷ es),
            reassembled-clen (record last { frags = fs }),
          );
          entries =
              omega (arith, r.entries, length-append {0} bs (d ∷ es), length-append {0} bs es);
          sound = All-append Sound bs es r.left r.right;
        },
      )

  pub add_fragment-Stays : Stays (add_fragment s (length bs) (previous (length bs)) d p)
  unfolding last counted
  add_fragment-Stays =
      let same = last_fragment-same p.hdr d in
      elim (chain-Joined last (frag_of p) (subst Ascending (sym same.0) r.ascending)) [
        | aborted a ↦ inl (add_run (previous (length bs)) assert_failed a)
        | freed a some_here ↦ inr (
          dropped,
          record counted {
            datagrams = replace_at (length bs) last s.datagrams;
            pbufcount = sub16 (add16 s.pbufcount p.clen) p.clen;
          },
          bs ++ last ∷ es,
          add_run (previous (length bs)) (ok thrown_away) a,
          replaced-Inv s bs d es p.clen r last (omega (arith, r.timer, same.1)) some_here
              (subst Ascending (sym same.0) r.ascending) (sub16 (add16 s.pbufcount p.clen) p.clen)
              (omega (
                arith,
                ap total_clen same.0,
                r.room,
                r.counted,
                held-append bs (d ∷ es),
                held-append bs (last ∷ es),
              ))
              (omega (arith, r.room)),
        )
        | joined fs b a asc some_here n ↦
            subst Stays (sym (add_run (previous (length bs)) (ok (kept fs b)) a))
              (kept-Stays fs b asc some_here (omega (arith, n, ap total_clen same.0)))
      ]
