-- ===== src/IpFrag/Oldest.antt =====
-- ip_frag.c: ip_reass_remove_oldest_datagram, on any list of datagrams.
use my_lwip_poc.Base.{
  ℕ, suc, ◌+◌, ◌≤◌, ◌<◌, ◌≡◌, refl, Bool, true, false, not, ◌&&◌, List, [], ◌∷◌, ◌++◌, Option, none,
  some, ◌⊎◌, inl, inr, if◌then◌else◌, leb, arith, ap, length, sym, ◌∙◌, subst, append_assoc,
  length-append, Bool-cases,
}
use my_lwip_poc.Base.Outcome.{Outcome, ok, assert_failed, ◌>>=◌}
use my_lwip_poc.IpFrag.{IpHdr, Frag, Datagram, Reass, matching}
use my_lwip_poc.IpFrag.Input.{total_clen}
use my_lwip_poc.IpFrag.Queue.{
  Scan, scan_loop, scan_step, free_oldest, free_complete_datagram, free_entry, exceeded, uncount,
  dequeue_datagram, previous, prev_fits, is_empty,
}
use my_lwip_poc.IpFrag.Inv.{
  held, Inv, held-append, without, free_complete-at, without-Inv, free_frags-total,
}

module _ (s : Reass) (hdr : IpHdr) (n : ℕ) where
  no_prev :
      (fs : List Frag) → total_clen fs ≤ 0xffff → free_entry s hdr fs (suc n) none ≡ assert_failed
  unfolding free_entry dequeue_datagram
  no_prev [] h = refl
  no_prev (f ∷ fs) h =
      ap (λ o. o >>= λ k. dequeue_datagram (exceeded s hdr f) (suc n) none >>= uncount k)
        (free_frags-total 0 (f ∷ fs) (omega (arith, h)))

-- Whatever `prev` is, an entry is freed as it should be, or an assertion aborts.
free_complete-prev :
    (s : Reass) (ds : List Datagram) (d : Datagram) (es : List Datagram) (prev : Option ℕ)
    → Inv s (ds ++ d ∷ es)
    → (free_complete_datagram s d (length ds) prev ≡ assert_failed)
      ⊎ (free_complete_datagram s d (length ds) prev
          ≡ ok (total_clen d.frags, without s d.iphdr d.frags (ds ++ es)))
unfolding free_complete_datagram
free_complete-prev s [] d es none v = inr (free_complete-at s [] d es v)
free_complete-prev s (c ∷ ds) d es none v = inl (
    no_prev s d.iphdr (length ds) d.frags
      (omega (arith, v.counted, v.limit, held-append (c ∷ ds) (d ∷ es))))
free_complete-prev s ds d es (some j) v = elim (Bool-cases (prev_fits (some j) (length ds))) [
  | inl t ↦
      let e : length ds ≡ suc j = ground arith in
      inr (
        ap (λ p. free_complete_datagram s d (length ds) p) (sym (ap previous e))
        ∙ free_complete-at s ds d es v)
  | inr t ↦ inl (rw t refl)
]

-- The datagrams that a fragment with this header belongs to.
abbrev pub own : IpHdr → List Datagram → List Datagram
own hdr [] = []
own hdr (d ∷ ds) = let rest = own hdr ds in if matching d.iphdr hdr then d ∷ rest else rest

own-without :
    (hdr : IpHdr) (ds : List Datagram) (d : Datagram) (es : List Datagram)
    → matching d.iphdr hdr ≡ false
    → own hdr (ds ++ es) ≡ own hdr (ds ++ d ∷ es)
own-without hdr [] d es e = rw e refl
own-without hdr (c ∷ ds) d es e =
    ap (λ l. if matching c.iphdr hdr then c ∷ l else l) (own-without hdr ds d es e)

-- Where the loop stands: at a datagram of others, or at none when it has seen none.
pub data Standing (hdr : IpHdr) (ds : List Datagram) : Scan → Type 0 where
  nowhere :
      {p : Option ℕ} → Standing hdr ds (record { oldest = none; prev = p; other_datagrams = 0 })
  at :
      {p : Option ℕ} {n : ℕ}
      → (bs : List Datagram) → (d : Datagram) → (es : List Datagram) → ds ≡ bs ++ d ∷ es
      → matching d.iphdr hdr ≡ false
      → Standing hdr ds (record { oldest = some (length bs, d); prev = p; other_datagrams = n })

not-true : (b : Bool) → not b ≡ true → b ≡ false
not-true true e = cc
not-true false e = refl

scan_step-Standing :
    (hdr : IpHdr) (bs : List Datagram) (r : Datagram) (rs : List Datagram) (s : Scan)
    → Standing hdr (bs ++ r ∷ rs) s
    → Standing hdr (bs ++ r ∷ rs) (scan_step hdr (length bs) r rs s)
scan_step-Standing hdr bs r rs _ (nowhere {p}) =
    go (not (matching r.iphdr hdr)) (not-true (matching r.iphdr hdr))
  where
    go :
        (o : Bool)
        → (o ≡ true → matching r.iphdr hdr ≡ false)
        → Standing hdr (bs ++ r ∷ rs) (record {
          oldest = if o && true then some (length bs, r) else none;
          prev = if is_empty rs then p else some (length bs);
          other_datagrams = if o then 0 + 1 else 0;
        })
    go true m = at bs r rs refl (m refl)
    go false m = nowhere
scan_step-Standing hdr bs r rs _ (at {p} {n} cs d es e ne) =
    go (not (matching r.iphdr hdr)) (leb r.timer d.timer) (not-true (matching r.iphdr hdr))
  where
    go :
        (o y : Bool)
        → (o ≡ true → matching r.iphdr hdr ≡ false)
        → Standing hdr (bs ++ r ∷ rs) (record {
          oldest = if o && y then some (length bs, r) else some (length cs, d);
          prev = if is_empty rs then p else some (length bs);
          other_datagrams = if o then n + 1 else n;
        })
    go true true m = at bs r rs refl (m refl)
    go true false m = at cs d es e ne
    go false y m = at cs d es e ne

pub scan_loop-Standing :
    (hdr : IpHdr) (bs rs : List Datagram) (s : Scan)
    → Standing hdr (bs ++ rs) s
    → Standing hdr (bs ++ rs) (scan_loop hdr (length bs) rs s)
unfolding scan_loop
scan_loop-Standing hdr bs [] s h = h
scan_loop-Standing hdr bs (r ∷ rs) s h =
    let assoc = append_assoc bs (r ∷ []) rs in
    let t = scan_step hdr (length bs) r rs s in
    let len : length (bs ++ r ∷ []) ≡ suc (length bs) =
      omega (arith, length-append {0} bs (r ∷ [])) in
    subst (λ l. Standing hdr l (scan_loop hdr (suc (length bs)) rs t)) assoc
      (subst (λ k. Standing hdr ((bs ++ r ∷ []) ++ rs) (scan_loop hdr k rs t)) len
        (scan_loop-Standing hdr (bs ++ r ∷ []) rs t
          (subst (λ l. Standing hdr l t) (sym assoc) (scan_step-Standing hdr bs r rs s h))))

-- The call returns with `n` pbufs counted as freed and the datagrams `es` left of `ds`: the invariant
-- holds, the pbufs freed are those of the others, and the datagrams of this header are all here.
pub record Removed (hdr : IpHdr) (ds : List Datagram) (before : ℕ) (o : Outcome (ℕ × Reass))
    : Type 0 where
  pub n : ℕ
  pub after : Reass
  pub es : List Datagram
  pub run : o ≡ ok (n, after)
  pub inv : Inv after es
  pub count : n + held es ≡ before + held ds
  pub own_left : own hdr es ≡ own hdr ds
  pub shorter : length es ≤ length ds

-- One round aborts, or frees a datagram, unless there are no others.
pub free_oldest-Removed :
    (hdr : IpHdr) (s : Reass) (ds : List Datagram) (c : Scan)
    → Inv s ds
    → Standing hdr ds c
    → (free_oldest s c ≡ assert_failed)
      ⊎ ((r : Removed hdr ds 0 (free_oldest s c)) × ((c.other_datagrams ≡ 0)
            ⊎ (length r.es < length ds)))
free_oldest-Removed hdr s ds _ v nowhere = inr (
  record {
    n = 0;
    after = s;
    es = ds;
    run = refl;
    inv = v;
    count = refl;
    own_left = refl;
    shorter = omega arith;
  },
  inl refl,
)
free_oldest-Removed hdr s ds _ v (at {p} bs d es e ne) =
    let v' = subst (Inv s) e v in
    elim (free_complete-prev s bs d es p v') [
      | inl a ↦ inl a
      | inr a ↦ inr (
        record {
          n = total_clen d.frags;
          after = without s d.iphdr d.frags (bs ++ es);
          es = bs ++ es;
          run = a;
          inv = without-Inv s bs d es v';
          count = omega (arith, held-append bs es, held-append bs (d ∷ es), ap held e);
          own_left = own-without hdr bs d es ne ∙ ap (own hdr) (sym e);
          shorter =
              omega (arith, ap length e, length-append {0} bs es, length-append {0} bs (d ∷ es));
        },
        inr (omega (arith, ap length e, length-append {0} bs es, length-append {0} bs (d ∷ es))),
      )
    ]
