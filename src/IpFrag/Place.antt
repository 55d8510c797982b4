-- ===== src/IpFrag/Place.antt =====
-- ip_frag.c: ip_reass_chain_frag_into_datagram_and_validate.
use my_lwip_poc.Base.{
  ℕ, Bool, true, false, not, ◌&&◌, ◌||◌, List, [], ◌∷◌, ◌++◌, Option, none, some, if◌then◌else◌,
  ltb, leb, ◌==◌, length,
}
use my_lwip_poc.Base.Outcome.{Outcome, ok, ◌>>=◌, asserting}
use my_lwip_poc.IpFrag.{Frag, Datagram}

-- The new fragment is freed, or it stands between the first and the second list; `valid` is the flag.
pub data Placed : Type 0 where
  overlapping : Placed
  placed : (valid : Bool) → (before after : List Frag) → Placed

abbrev pub behind : Frag → Placed → Placed
behind q overlapping = overlapping
behind q (placed valid before after) = placed valid (q ∷ before) after

-- `iprh_prev->end == q->start`, where there is a previous fragment.
abbrev pub joins : Option Frag → Frag → Bool
joins none q = true
joins (some p) q = p.end_ == q.start

-- The new fragment would be inserted between `prev` and `q`.
abbrev pub insert_before : Frag → Option Frag → Bool → Frag → List Frag → Placed
insert_before new none valid q qs = placed valid [] (q ∷ qs)
insert_before new (some p) valid q qs =
    if ltb new.start p.end_ || ltb q.start new.end_ then overlapping else placed valid [] (q ∷ qs)

-- The fragment is the one with the highest offset.
abbrev pub append_last : Frag → Option Frag → Bool → Outcome Placed
append_last new none valid = ok (placed valid [] [])
append_last new (some p) valid =
    asserting (leb p.end_ new.start) (ok (placed (valid && p.end_ == new.start) [] []))

-- The loop over the fragments, and what follows it.
unfoldable pub place : Frag → Option Frag → Bool → List Frag → Outcome Placed
place new prev valid [] = append_last new prev valid
place new prev valid (q ∷ qs) =
    let rest = place new (some q) (valid && joins prev q) qs in
    if ltb new.start q.start
    then ok (insert_before new prev valid q qs)
    else if new.start == q.start
    then ok overlapping
    else if ltb new.start q.end_
    then ok overlapping
    else rest >>= λ r. ok (behind q r)

-- The loop that checks that there are no holes behind `prev`.
unfoldable pub no_holes : Frag → List Frag → Bool
no_holes prev [] = true
no_holes prev (q ∷ qs) = prev.end_ == q.start && no_holes q qs

abbrev pub last_of : Frag → List Frag → Frag
last_of q [] = q
last_of q (r ∷ rs) = last_of r rs

abbrev pub first_start : List Frag → ℕ
first_start [] = 0
first_start (q ∷ qs) = q.start

-- The validation part.
unfoldable pub validate :
    (last_seen : Bool)
    → (datagram_len : ℕ) → (valid : Bool) → (before : List Frag) → Frag
    → (after : List Frag) → Outcome Bool
validate last_seen datagram_len valid before new after =
    if not (last_seen && valid)
    then ok false
    else if not (first_start (before ++ new ∷ after) == 0)
    then ok false
    else if not (no_holes new after)
    then ok false
    else asserting (not (length (before ++ new ∷ after) == 1))
        (asserting ((last_of new after).end_ == datagram_len) (ok true))

-- What the call comes to: the fragment is freed, or these are the fragments now, and the result.
pub data Chained : Type 0 where
  thrown_away : Chained
  kept : (frags : List Frag) → (complete : Bool) → Chained

abbrev pub validated : Datagram → Frag → Placed → Outcome Chained
validated d new overlapping = ok thrown_away
validated d new (placed valid before after) =
    validate d.last_seen d.datagram_len valid before new after >>= λ r.
    ok (kept (before ++ new ∷ after) r)

unfoldable pub chain_frag_into_datagram_and_validate : Datagram → Frag → Outcome Chained
chain_frag_into_datagram_and_validate d new = place new none true d.frags >>= validated d new
