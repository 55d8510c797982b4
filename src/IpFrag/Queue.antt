-- ===== src/IpFrag/Queue.antt =====
-- ip_frag.c: the list of datagrams and its timer. An entry of the list is named by its place.
use my_lwip_poc.Base.{
  ℕ, zero, suc, ◌+◌, ◌-◌, Bool, true, false, not, ◌&&◌, List, [], ◌∷◌, Option, none, some,
  if◌then◌else◌, ltb, leb, ◌==◌,
}
use my_lwip_poc.Base.Word.{sub16}
use my_lwip_poc.Base.Outcome.{Outcome, ok, assert_failed, out_of_fuel, ◌>>=◌, asserting}
use my_lwip_poc.IpFrag.{IpHdr, Frag, Datagram, matching, Reass}

abbrev pub ip_reass_max_pbufs : ℕ
ip_reass_max_pbufs = 10

abbrev pub ip_reass_maxage : ℕ
ip_reass_maxage = 3

abbrev pub remove_at : ℕ → List Datagram → List Datagram
remove_at i [] = []
remove_at zero (d ∷ ds) = ds
remove_at (suc i) (d ∷ ds) = d ∷ remove_at i ds

abbrev pub replace_at : ℕ → Datagram → List Datagram → List Datagram
replace_at i e [] = []
replace_at zero e (d ∷ ds) = e ∷ ds
replace_at (suc i) e (d ∷ ds) = d ∷ replace_at i e ds

-- ip_reass_dequeue_datagram: `prev` is the place of the entry whose next pointer changes.
unfoldable pub dequeue_datagram : Reass → (ipr : ℕ) → (prev : Option ℕ) → Outcome Reass
dequeue_datagram s zero prev =
    ok (record s { datagrams = remove_at 0 s.datagrams; free_entries = s.free_entries + 1 })
dequeue_datagram s (suc i) none = assert_failed
dequeue_datagram s (suc i) (some j) =
    ok (record s { datagrams = remove_at (suc j) s.datagrams; free_entries = s.free_entries + 1 })

-- The pbufs of the fragments, freed one fragment after the other and counted in a u16_t.
unfoldable pub free_frags : ℕ → List Frag → Outcome ℕ
free_frags n [] = ok n
free_frags n (f ∷ fs) = asserting (leb (n + f.clen) 0xffff) (free_frags (n + f.clen) fs)

-- LWIP_ASSERT("prev != ipr"), LWIP_ASSERT("prev->next == ipr")
abbrev pub prev_fits : (prev : Option ℕ) → (ipr : ℕ) → Bool
prev_fits none i = true
prev_fits (some j) i = not (j == i) && j + 1 == i

-- From the end of the loops of ip_reass_free_complete_datagram on.
abbrev pub uncount : ℕ → Reass → Outcome (ℕ × Reass)
uncount n t = asserting (leb n t.pbufcount) (ok (n, record t { pbufcount = sub16 t.pbufcount n }))

-- The state when icmp_time_exceeded has been called for a datagram whose first fragment is here.
abbrev pub exceeded : Reass → IpHdr → Frag → Reass
exceeded s hdr f = record s {
  time_exceeded = if f.start == 0 then hdr ∷ s.time_exceeded else s.time_exceeded;
}

-- An entry without fragments would have NULL read; it counts as a failed assertion.
unfoldable pub free_entry :
    Reass → IpHdr → List Frag → (ipr : ℕ) → (prev : Option ℕ) → Outcome (ℕ × Reass)
free_entry s hdr [] i prev = assert_failed
free_entry s hdr (f ∷ fs) i prev =
    free_frags 0 (f ∷ fs) >>= λ n. dequeue_datagram (exceeded s hdr f) i prev >>= uncount n

-- ip_reass_free_complete_datagram on the entry `d` at `ipr`; the number of pbufs freed.
unfoldable pub free_complete_datagram :
    Reass → Datagram → (ipr : ℕ) → (prev : Option ℕ) → Outcome (ℕ × Reass)
free_complete_datagram s d i prev =
    asserting (prev_fits prev i) (free_entry s d.iphdr d.frags i prev)

-- The entry in front of place `i`.
abbrev pub previous : ℕ → Option ℕ
previous zero = none
previous (suc i) = some i

-- One round of ip_reass_tmr, at the entry `r` at place `i` with this value of its timer; `next` goes on
-- at a place.
abbrev pub tmr_entry :
    (ℕ → Reass → Outcome Reass) → (i : ℕ) → Datagram → (timer : ℕ) → Reass → Outcome Reass
tmr_entry next i r zero s = free_complete_datagram s r i (previous i) >>= λ u. next i u.1
tmr_entry next i r (suc t) s =
    next (suc i) (record s { datagrams = replace_at i (record r { timer = t }) s.datagrams })

-- The loop of ip_reass_tmr, with the entries from place `i` on.
unfoldable pub tmr_loop : List Datagram → (i : ℕ) → Reass → Outcome Reass
tmr_loop [] i s = ok s
tmr_loop (r ∷ rs) i s = tmr_entry (tmr_loop rs) i r r.timer s

unfoldable pub ip_reass_tmr : Reass → Outcome Reass
ip_reass_tmr s = tmr_loop s.datagrams 0 s

-- The variables of the inner loop of ip_reass_remove_oldest_datagram.
pub record Scan : Type 0 where
  pub oldest : Option (ℕ × Datagram)
  pub prev : Option ℕ
  pub other_datagrams : ℕ

abbrev pub not_younger : Datagram → Option (ℕ × Datagram) → Bool
not_younger r none = true
not_younger r (some (j, o)) = leb r.timer o.timer

abbrev pub is_empty : List Datagram → Bool
is_empty [] = true
is_empty (d ∷ ds) = false

-- One round, at the entry `r` at place `i`.
abbrev pub scan_step : IpHdr → ℕ → Datagram → List Datagram → Scan → Scan
scan_step hdr i r rs s =
    let other = not (matching r.iphdr hdr) in
    record {
      oldest = if other && not_younger r s.oldest then some (i, r) else s.oldest;
      prev = if is_empty rs then s.prev else some i;
      other_datagrams = if other then s.other_datagrams + 1 else s.other_datagrams;
    }

unfoldable pub scan_loop : IpHdr → ℕ → List Datagram → Scan → Scan
scan_loop hdr i [] s = s
scan_loop hdr i (r ∷ rs) s = scan_loop hdr (suc i) rs (scan_step hdr i r rs s)

abbrev pub scan_start : Scan
scan_start = record { oldest = none; prev = none; other_datagrams = 0 }

abbrev pub free_oldest : Reass → Scan → Outcome (ℕ × Reass)
free_oldest s c = elim c.oldest [
  | none ↦ ok (0, s)
  | some o ↦ free_complete_datagram s o.1 o.0 c.prev
]

-- ip_reass_remove_oldest_datagram: its outer loop, with the pbufs freed so far.
unfoldable pub remove_oldest_loop : ℕ → IpHdr → (needed freed : ℕ) → Reass → Outcome (ℕ × Reass)
remove_oldest_loop zero hdr needed freed s = out_of_fuel
remove_oldest_loop (suc fuel) hdr needed freed s =
    let c = scan_loop hdr 0 s.datagrams scan_start in
    free_oldest s c >>= λ r.
    let again = remove_oldest_loop fuel hdr needed (freed + r.0) r.1 in
    if ltb (freed + r.0) needed && ltb 1 c.other_datagrams then again else ok (freed + r.0, r.1)

-- There are MEMP_NUM_REASSDATA entries at most.
unfoldable pub remove_oldest_datagram : IpHdr → (needed : ℕ) → Reass → Outcome (ℕ × Reass)
remove_oldest_datagram hdr needed s = remove_oldest_loop 6 hdr needed 0 s

-- The entry that ip_reass_enqueue_new_datagram puts to the front; `none` where memp_malloc fails.
abbrev pub new_datagram : IpHdr → Datagram
new_datagram hdr = record {
  frags = [];
  iphdr = hdr;
  datagram_len = 0;
  last_seen = false;
  timer = ip_reass_maxage;
}

abbrev pub enqueued : IpHdr → Reass → Reass
enqueued hdr s = record s {
  datagrams = new_datagram hdr ∷ s.datagrams;
  free_entries = s.free_entries - 1;
}

-- The second memp_malloc, when enough pbufs have been freed.
abbrev pub allocate_again : IpHdr → (clen : ℕ) → ℕ × Reass → Outcome (Bool × Reass)
allocate_again hdr clen r =
    if leb clen r.0 && ltb 0 r.1.free_entries then ok (true, enqueued hdr r.1) else ok (false, r.1)

-- Whether an entry was allocated, and the state.
unfoldable pub enqueue_new_datagram : IpHdr → (clen : ℕ) → Reass → Outcome (Bool × Reass)
enqueue_new_datagram hdr clen s =
    if ltb 0 s.free_entries
    then ok (true, enqueued hdr s)
    else remove_oldest_datagram hdr clen s >>= allocate_again hdr clen
