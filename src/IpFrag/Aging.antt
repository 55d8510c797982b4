-- ===== src/IpFrag/Aging.antt =====
-- ip_frag.c: ip_reass_tmr. What a call does to the datagrams, and that they are gone in the end.
use my_lwip_poc.Base.{
  ℕ, zero, suc, ◌<◌, ◌≡◌, refl, List, [], ◌∷◌, ◌++◌, arith, All, ap, length, sym, ◌∙◌, subst,
  append_assoc, length-append, All-append, All-mono,
}
use my_lwip_poc.Base.Outcome.{Outcome, ok, ◌>>=◌}
use my_lwip_poc.IpFrag.{IpHdr, Datagram, Reass}
use my_lwip_poc.IpFrag.Queue.{replace_at, tmr_entry, tmr_loop, ip_reass_tmr}
use my_lwip_poc.IpFrag.Inv.{
  Sound, Inv, held-append, All-left, All-right, replace_at-length, reported, without,
  free_complete-at, without-Inv,
}

-- What a call leaves of a datagram with this value of its timer, in front of the others.
abbrev pub age : ℕ → Datagram → List Datagram → List Datagram
age zero d ds = ds
age (suc t) d ds = record d { timer = t } ∷ ds

-- Those whose timer is above 0 stay, a second older.
abbrev pub survivors : List Datagram → List Datagram
survivors [] = []
survivors (d ∷ ds) = age d.timer d (survivors ds)

abbrev pub log_entry : ℕ → Datagram → List IpHdr → List IpHdr
log_entry zero d log = reported d.iphdr d.frags log
log_entry (suc t) d log = log

-- For the others, icmp_time_exceeded is called where the first fragment is here.
abbrev pub log_expired : List Datagram → List IpHdr → List IpHdr
log_expired [] log = log
log_expired (d ∷ ds) log = log_expired ds (log_entry d.timer d log)

-- The loop from the entries `rs` on ends as it should, after these that it has passed.
pub record Ticked (passed rs : List Datagram) (o : Outcome Reass) (next : List Datagram)
    (log : List IpHdr) : Type 0 where
  pub after : Reass
  pub run : o ≡ ok after
  pub inv : Inv after (passed ++ next)
  pub log_now : after.time_exceeded ≡ log

-- The state when the timer of the entry behind `ds` has been decremented.
abbrev older : Reass → List Datagram → Datagram → ℕ → Reass
older s ds d t = record s {
  datagrams = replace_at (length ds) (record d { timer = t }) s.datagrams;
}

older-Inv :
    (s : Reass) (ds : List Datagram) (d : Datagram) (es : List Datagram) (t : ℕ)
    → d.timer ≡ suc t
    → Inv s (ds ++ d ∷ es)
    → Inv (older s ds d t) (ds ++ record d { timer = t } ∷ es)
older-Inv s ds d es t e v =
    let right = All-right Sound ds (d ∷ es) v.sound in
    record {
      list =
          ap (replace_at (length ds) (record d { timer = t })) v.list
          ∙ replace_at-length ds d (record d { timer = t }) es;
      counted =
          omega (
            arith,
            v.counted,
            held-append ds (d ∷ es),
            held-append ds (record d { timer = t } ∷ es),
          );
      limit = v.limit;
      entries = omega (
        arith,
        v.entries,
        length-append {0} ds (d ∷ es),
        length-append {0} ds (record d { timer = t } ∷ es),
      );
      sound =
          All-append Sound ds (record d { timer = t } ∷ es) (All-left Sound ds (d ∷ es) v.sound)
            ((omega (arith, e, right.0.0), right.0.1, right.0.2), right.1);
    }

length-snoc : (ds : List Datagram) (d : Datagram) → length (ds ++ d ∷ []) ≡ suc (length ds)
length-snoc ds d = omega (arith, length-append {0} ds (d ∷ []))

module _ (rs : List Datagram)
    (ih : (s : Reass) (ds : List Datagram)
      → Inv s (ds ++ rs)
      → Ticked ds rs
          (tmr_loop rs (length ds) s)
          (survivors rs)
          (log_expired rs s.time_exceeded)) where
  entry-Ticked :
      (s : Reass) (ds : List Datagram) (r : Datagram) (t : ℕ)
      → r.timer ≡ t
      → Inv s (ds ++ r ∷ rs)
      → Ticked ds
          (r ∷ rs)
          (tmr_entry (tmr_loop rs) (length ds) r t s)
          (age t r (survivors rs))
          (log_expired rs (log_entry t r s.time_exceeded))
  entry-Ticked s ds r zero e v =
      let h = ih (without s r.iphdr r.frags (ds ++ rs)) ds (without-Inv s ds r rs v) in
      record {
        after = h.after;
        run =
            ap (λ o. o >>= λ u. tmr_loop rs (length ds) u.1) (free_complete-at s ds r rs v) ∙ h.run;
        inv = h.inv;
        log_now = h.log_now;
      }
  entry-Ticked s ds r (suc t) e v =
      let r' : Datagram = record r { timer = t } in
      let assoc = append_assoc ds (r' ∷ []) rs in
      let h =
        ih (older s ds r t) (ds ++ r' ∷ [])
          (subst (Inv (older s ds r t)) (sym assoc) (older-Inv s ds r rs t e v)) in
      record {
        after = h.after;
        run = ap (λ k. tmr_loop rs k (older s ds r t)) (sym (length-snoc ds r')) ∙ h.run;
        inv = subst (Inv h.after) (append_assoc ds (r' ∷ []) (survivors rs)) h.inv;
        log_now = h.log_now;
      }

tmr_loop-Ticked :
    (rs : List Datagram) (s : Reass) (ds : List Datagram)
    → Inv s (ds ++ rs)
    → Ticked ds rs (tmr_loop rs (length ds) s) (survivors rs) (log_expired rs s.time_exceeded)
unfolding tmr_loop
tmr_loop-Ticked [] s ds v = record { after = s; run = refl; inv = v; log_now = refl }
tmr_loop-Ticked (r ∷ rs) s ds v = entry-Ticked rs (tmr_loop-Ticked rs) s ds r r.timer refl v

-- A call of ip_reass_tmr aborts on no assertion. Of each datagram whose timer is above 0 it takes one
-- second; the others go, with their pbufs and entries, and icmp_time_exceeded is called for those
-- whose first fragment is here.
pub ip_reass_tmr-Ticked :
    (s : Reass) (ds : List Datagram)
    → Inv s ds
    → Ticked [] ds (ip_reass_tmr s) (survivors ds) (log_expired ds s.time_exceeded)
unfolding ip_reass_tmr
ip_reass_tmr-Ticked s ds v =
    subst (λ l. Ticked [] ds (tmr_loop l 0 s) (survivors ds) (log_expired ds s.time_exceeded))
      (sym v.list) (tmr_loop-Ticked ds s [] v)

-- Calls of ip_reass_tmr with nothing between them.
unfoldable pub ticks : ℕ → Reass → Outcome Reass
ticks zero s = ok s
ticks (suc n) s = ip_reass_tmr s >>= ticks n

abbrev Younger : ℕ → List Datagram → Type 0
Younger k ds = All (λ (d : Datagram). d.timer < k) ds

age-Younger :
    (k t : ℕ) (d : Datagram) (ds : List Datagram)
    → t < suc k
    → Younger k ds
    → Younger k (age t d ds)
age-Younger k zero d ds h y = y
age-Younger k (suc t) d ds h y = (omega (arith, h), y)

survivors-Younger : (k : ℕ) (ds : List Datagram) → Younger (suc k) ds → Younger k (survivors ds)
survivors-Younger k [] y = tt
survivors-Younger k (d ∷ ds) y =
    age-Younger k d.timer d (survivors ds) y.0 (survivors-Younger k ds y.1)

-- The calls return a state with no datagrams.
abbrev Emptied : Outcome Reass → Type 0
Emptied o = (t : Reass) × (o ≡ ok t) × Inv t []

ticks-Emptied :
    (k : ℕ) (s : Reass) (ds : List Datagram) → Inv s ds → Younger k ds → Emptied (ticks k s)
unfolding ticks
ticks-Emptied zero s [] v y = (s, refl, v)
ticks-Emptied zero s (d ∷ ds) v y = absurd (omega (arith, y.0))
ticks-Emptied (suc k) s ds v y =
    let h = ip_reass_tmr-Ticked s ds v in
    let (t, run, inv) = ticks-Emptied k h.after (survivors ds) h.inv (survivors-Younger k ds y) in
    (t, ap (λ o. o >>= ticks k) h.run ∙ run, inv)

-- Four calls of ip_reass_tmr with no packet in between abort on no assertion and free every datagram:
-- no pbuf is counted any more, and the five entries of the pool are free.
pub ticks-none_left :
    (s : Reass) (ds : List Datagram)
    → Inv s ds
    → (t : Reass) × (ticks 4 s ≡ ok t)
      × (t.datagrams ≡ [])
      × (t.pbufcount ≡ 0)
      × (t.free_entries ≡ 5)
ticks-none_left s ds v =
    let (t, run, inv) = ticks-Emptied 4 s ds v (All-mono ds (λ d h. omega (arith, h.0)) v.sound) in
    (t, run, inv.list, inv.counted, omega (arith, inv.entries))
