-- ===== src/IpFrag/Inv.antt =====
-- ip_frag.c: what holds of the list of datagrams between two calls, and how an entry leaves it.
use my_lwip_poc.Base.{
  ℕ, zero, suc, ◌+◌, ◌-◌, ◌≤◌, ◌<◌, ◌≡◌, refl, true, List, [], ◌∷◌, ◌++◌, if◌then◌else◌, ◌==◌,
  arith, All, ap, length, ◌∙◌, le→leb, length-append, All-append, ==_of_eq, ne→==,
}
use my_lwip_poc.Base.Word.{sub16}
use my_lwip_poc.Base.Outcome.{ok, ◌>>=◌}
use my_lwip_poc.IpFrag.{IpHdr, Frag, Datagram, Reass}
use my_lwip_poc.IpFrag.Input.{total_clen}
use my_lwip_poc.IpFrag.Chain.{Ascending}
use my_lwip_poc.IpFrag.Queue.{
  ip_reass_max_pbufs, ip_reass_maxage, remove_at, replace_at, dequeue_datagram, free_frags,
  free_complete_datagram, free_entry, exceeded, uncount, previous, prev_fits,
}

-- The pbufs that the fragments of these datagrams hold.
abbrev pub held : List Datagram → ℕ
held [] = 0
held (d ∷ ds) = total_clen d.frags + held ds

abbrev pub Sound : Datagram → Type 0
Sound d = (d.timer ≤ ip_reass_maxage) × (0 < length d.frags) × Ascending d.frags

-- These are the datagrams; ip_reass_pbufcount is the number of their pbufs and within its limit, and
-- each entry of the pool is free or in the list.
pub record Inv (s : Reass) (ds : List Datagram) : Type 0 where
  pub list : s.datagrams ≡ ds
  pub counted : s.pbufcount ≡ held ds
  pub limit : s.pbufcount ≤ ip_reass_max_pbufs
  pub entries : s.free_entries + length ds ≡ 5
  pub sound : All Sound ds

pub held-append : (ds es : List Datagram) → held (ds ++ es) ≡ held ds + held es
held-append [] es = omega arith
held-append (d ∷ ds) es = omega (arith, held-append ds es)

pub All-left {ℓ κ} : {A : Type ℓ} (P : A → Type κ) (xs ys : List A) → All P (xs ++ ys) → All P xs
All-left P [] ys h = tt
All-left P (x ∷ xs) ys h = (h.0, All-left P xs ys h.1)

pub All-right {ℓ κ} : {A : Type ℓ} (P : A → Type κ) (xs ys : List A) → All P (xs ++ ys) → All P ys
All-right P [] ys h = h
All-right P (x ∷ xs) ys h = All-right P xs ys h.1

pub remove_at-length :
    (ds : List Datagram) (d : Datagram) (es : List Datagram)
    → remove_at (length ds) (ds ++ d ∷ es) ≡ ds ++ es
remove_at-length [] d es = refl
remove_at-length (c ∷ ds) d es = ap (◌∷◌ c) (remove_at-length ds d es)

pub replace_at-length :
    (ds : List Datagram) (d e : Datagram) (es : List Datagram)
    → replace_at (length ds) e (ds ++ d ∷ es) ≡ ds ++ e ∷ es
replace_at-length [] d e es = refl
replace_at-length (c ∷ ds) d e es = ap (◌∷◌ c) (replace_at-length ds d e es)

pub dequeue-at :
    (s : Reass) (ds : List Datagram) (d : Datagram) (es : List Datagram)
    → s.datagrams ≡ ds ++ d ∷ es
    → dequeue_datagram s (length ds) (previous (length ds))
      ≡ ok (record s { datagrams = ds ++ es; free_entries = s.free_entries + 1 })
unfolding dequeue_datagram
dequeue-at s [] d es e =
    ap (λ l. ok (record s { datagrams = remove_at 0 l; free_entries = s.free_entries + 1 })) e
dequeue-at s (c ∷ ds) d es e =
    ap (λ l. ok (record s { datagrams = l; free_entries = s.free_entries + 1 }))
      (ap (remove_at (suc (length ds))) e ∙ ap (◌∷◌ c) (remove_at-length ds d es))

pub free_frags-total :
    (n : ℕ) (fs : List Frag) → n + total_clen fs ≤ 0xffff → free_frags n fs ≡ ok (n + total_clen fs)
unfolding free_frags
free_frags-total n [] h = ap (λ x. ok x) (omega arith)
free_frags-total n (f ∷ fs) h =
    rw (le→leb (n + f.clen) 0xffff (omega (arith, h)))
      (free_frags-total (n + f.clen) fs (omega (arith, h)) ∙ ap (λ x. ok x) (omega arith))

prev_fits-previous : (i : ℕ) → prev_fits (previous i) i ≡ true
prev_fits-previous zero = refl
prev_fits-previous (suc i) =
    rw (ne→== i (suc i) (omega arith), ==_of_eq (i + 1) (suc i) (omega arith)) refl

-- icmp_time_exceeded is called if the first fragment has come.
abbrev pub reported : IpHdr → List Frag → List IpHdr → List IpHdr
reported hdr [] log = log
reported hdr (f ∷ fs) log = if f.start == 0 then hdr ∷ log else log

-- The state without a datagram of this header and these fragments.
abbrev pub without : Reass → IpHdr → List Frag → List Datagram → Reass
without s hdr fs ds = record {
  datagrams = ds;
  pbufcount = s.pbufcount - total_clen fs;
  free_entries = s.free_entries + 1;
  time_exceeded = reported hdr fs s.time_exceeded;
}

free_entry-at :
    (s : Reass) (hdr : IpHdr) (frags : List Frag) (ds : List Datagram) (d : Datagram)
    (es : List Datagram)
    → s.datagrams ≡ ds ++ d ∷ es
    → 0 < length frags
    → total_clen frags ≤ s.pbufcount
    → s.pbufcount ≤ ip_reass_max_pbufs
    → free_entry s hdr frags (length ds) (previous (length ds))
      ≡ ok (total_clen frags, without s hdr frags (ds ++ es))
unfolding free_entry
free_entry-at s hdr [] ds d es l p le lim = absurd (omega (arith, p))
free_entry-at s hdr (f ∷ fs) ds d es l p le lim =
    let n = total_clen (f ∷ fs) in
    let none_before : 0 + total_clen (f ∷ fs) ≡ total_clen (f ∷ fs) = omega arith in
    let word : sub16 s.pbufcount n ≡ s.pbufcount - n = omega (arith, le, lim) in
    ap
      (λ o. o >>= λ k.
        dequeue_datagram (exceeded s hdr f) (length ds) (previous (length ds)) >>= uncount k)
      (free_frags-total 0 (f ∷ fs) (omega (arith, le, lim)) ∙ ap (λ x. ok x) none_before)
    ∙ ap (λ o. o >>= uncount n) (dequeue-at (exceeded s hdr f) ds d es l)
    ∙ rw (le→leb n s.pbufcount le, word) refl

-- An entry that is freed with the one in front of it as `prev` leaves the list, and gives back its
-- pbufs and its entry.
pub free_complete-at :
    (s : Reass) (ds : List Datagram) (d : Datagram) (es : List Datagram)
    → Inv s (ds ++ d ∷ es)
    → free_complete_datagram s d (length ds) (previous (length ds))
      ≡ ok (total_clen d.frags, without s d.iphdr d.frags (ds ++ es))
unfolding free_complete_datagram
free_complete-at s ds d es v = rw (prev_fits-previous (length ds)) (
    free_entry-at s d.iphdr d.frags ds d es v.list (All-right Sound ds (d ∷ es) v.sound).0.1
      (omega (arith, v.counted, held-append ds (d ∷ es))) v.limit)

pub without-Inv :
    (s : Reass) (ds : List Datagram) (d : Datagram) (es : List Datagram)
    → Inv s (ds ++ d ∷ es)
    → Inv (without s d.iphdr d.frags (ds ++ es)) (ds ++ es)
without-Inv s ds d es v = record {
  list = refl;
  counted = omega (arith, v.counted, held-append ds (d ∷ es), held-append ds es);
  limit = omega (arith, v.limit);
  entries = omega (arith, v.entries, length-append {0} ds (d ∷ es), length-append {0} ds es);
  sound =
      All-append Sound ds es (All-left Sound ds (d ∷ es) v.sound)
        (All-right Sound ds (d ∷ es) v.sound).1;
}
