-- ===== src/IpFrag/Complete.antt =====
-- ip_reass_chain_frag_into_datagram_and_validate: what it has checked of a datagram that it reports
-- as complete, and what it has not.
use my_lwip_poc.Base.{
  ℕ, ◌≡◌, ◌≢◌, ◌↔◌, refl, Bool, true, false, ◌&&◌, List, [], ◌∷◌, ◌++◌, Option, none, some, ◌==◌,
  if◌then◌else◌, arith, length, ne→==, ==_of_eq, ==_iff, not,
}
use my_lwip_poc.Base.Outcome.{ok, assert_failed, asserting}
use my_lwip_poc.IpFrag.{Frag}
use my_lwip_poc.IpFrag.Place.{joins, no_holes, last_of, first_start, validate}
use my_lwip_poc.IpFrag.Chain.{passed}

-- Each fragment starts where the one before it ends.
abbrev pub Follows : Frag → List Frag → Type 0
Follows q [] = Unit
Follows q (r ∷ rs) = (q.end_ ≡ r.start) × Follows r rs

abbrev pub FollowsFrom : Option Frag → List Frag → Type 0
FollowsFrom none [] = Unit
FollowsFrom none (q ∷ qs) = Follows q qs
FollowsFrom (some p) qs = Follows p qs

-- What the loop has checked of the fragments before the new one: that they have no holes; and that
-- there is none in front of the new one only if that is the last.
abbrev pub Checked : Option Frag → (before : List Frag) → Frag → (after : List Frag) → Type 0
Checked prev before new [] = FollowsFrom prev (before ++ new ∷ [])
Checked prev before new (a ∷ as_) = FollowsFrom prev before

joins_iff :
    (prev : Option Frag) (q : Frag) (qs : List Frag)
    → ((joins prev q ≡ true) × FollowsFrom (some q) qs) ↔ FollowsFrom prev (q ∷ qs)
joins_iff none q qs = (λ h. h.1, λ h. (refl, h))
joins_iff (some p) q qs =
    (λ h. ((==_iff p.end_ q.start).0 h.0, h.1), λ h. (==_of_eq p.end_ q.start h.0, h.1))

and_iff : (a b : Bool) → ((a && b) ≡ true) ↔ ((a ≡ true) × (b ≡ true))
and_iff true b = (λ h. (refl, h), λ h. h.1)
and_iff false b = (λ h. (h, absurd_false b h), λ h. h.0)
  where
    absurd_false : (b : Bool) → false ≡ true → b ≡ true
    absurd_false b e = cc

FollowsFrom-nil : (prev : Option Frag) → FollowsFrom prev []
FollowsFrom-nil none = tt
FollowsFrom-nil (some p) = tt

pub passed_iff :
    (new : Frag) (prev : Option Frag) (valid : Bool) (before after : List Frag)
    → (passed new prev valid before after ≡ true) ↔ ((valid ≡ true) × Checked prev before new after)
passed_iff new prev valid [] [] = (
  λ h.
      let both = (and_iff valid (joins prev new)).0 h in
      (both.0, (joins_iff prev new []).0 (both.1, tt)),
  λ h. (and_iff valid (joins prev new)).1 (h.0, ((joins_iff prev new []).1 h.1).0),
)
passed_iff new prev valid [] (a ∷ as_) = (λ h. (h, FollowsFrom-nil prev), λ h. h.0)
passed_iff new prev valid (q ∷ qs) [] =
    let ih = passed_iff new (some q) (valid && joins prev q) qs [] in
    (
      λ h.
          let r = ih.0 h in
          let both = (and_iff valid (joins prev q)).0 r.0 in
          (both.0, (joins_iff prev q (qs ++ new ∷ [])).0 (both.1, r.1)),
      λ h.
          let r = (joins_iff prev q (qs ++ new ∷ [])).1 h.1 in
          ih.1 ((and_iff valid (joins prev q)).1 (h.0, r.0), r.1),
    )
passed_iff new prev valid (q ∷ qs) (a ∷ as_) =
    let ih = passed_iff new (some q) (valid && joins prev q) qs (a ∷ as_) in
    (
      λ h.
          let r = ih.0 h in
          let both = (and_iff valid (joins prev q)).0 r.0 in
          (both.0, (joins_iff prev q qs).0 (both.1, r.1)),
      λ h.
          let r = (joins_iff prev q qs).1 h.1 in
          ih.1 ((and_iff valid (joins prev q)).1 (h.0, r.0), r.1),
    )

no_holes_iff : (q : Frag) (qs : List Frag) → (no_holes q qs ≡ true) ↔ Follows q qs
unfolding no_holes
no_holes_iff q [] = (λ h. tt, λ h. refl)
no_holes_iff q (r ∷ rs) =
    let ih = no_holes_iff r rs in
    (
      λ h.
          let both = (and_iff (q.end_ == r.start) (no_holes r rs)).0 h in
          ((==_iff q.end_ r.start).0 both.0, ih.0 both.1),
      λ h. (and_iff (q.end_ == r.start) (no_holes r rs)).1 (==_of_eq q.end_ r.start h.0, ih.1 h.1),
    )

-- The checks that the validation makes before its assertions.
pub record Valid (last_seen valid : Bool) (before : List Frag) (new : Frag) (after : List Frag)
    : Type 0 where
  pub last : last_seen ≡ true
  pub flag : valid ≡ true
  pub first : first_start (before ++ new ∷ after) ≡ 0
  pub rest : Follows new after

-- With them the assertions are all that is left.
module _ (last_seen valid : Bool) (len : ℕ) (before : List Frag) (new : Frag) (after : List Frag)
    (v : Valid last_seen valid before new after)
    (several : length (before ++ new ∷ after) ≢ 1) where
  pub validate_complete :
      (last_of new after).end_ ≡ len → validate last_seen len valid before new after ≡ ok true
  unfolding validate
  validate_complete e =
      rw
        (
          v.last,
          v.flag,
          ==_of_eq (first_start (before ++ new ∷ after)) 0 v.first,
          (no_holes_iff new after).1 v.rest,
          ne→== (length (before ++ new ∷ after)) 1 several,
          ==_of_eq (last_of new after).end_ len e,
        )
        refl

  pub validate_aborts :
      (last_of new after).end_ ≢ len → validate last_seen len valid before new after ≡ assert_failed
  unfolding validate
  validate_aborts e =
      rw
        (
          v.last,
          v.flag,
          ==_of_eq (first_start (before ++ new ∷ after)) 0 v.first,
          (no_holes_iff new after).1 v.rest,
          ne→== (length (before ++ new ∷ after)) 1 several,
          ne→== (last_of new after).end_ len e,
        )
        refl

-- The chain of tests, on their values.
tests_true :
    (l v f n o e : Bool)
    → (if not (l && v)
        then ok false
        else if not f
        then ok false
        else if not n
        then ok false
        else asserting o (asserting e (ok true)))
      ≡ ok true
    → (l ≡ true) × (v ≡ true) × (f ≡ true) × (n ≡ true) × (e ≡ true)
tests_true l v f n o e h = ground arith

pub validate-true :
    (last_seen valid : Bool) (len : ℕ) (before : List Frag) (new : Frag) (after : List Frag)
    → validate last_seen len valid before new after ≡ ok true
    → Valid last_seen valid before new after × ((last_of new after).end_ ≡ len)
unfolding validate
validate-true last_seen valid len before new after h =
    let t =
      tests_true last_seen valid (first_start (before ++ new ∷ after) == 0) (no_holes new after)
        (not (length (before ++ new ∷ after) == 1)) ((last_of new after).end_ == len) h in
    (
      record {
        last = t.0;
        flag = t.1;
        first = (==_iff (first_start (before ++ new ∷ after)) 0).0 t.2;
        rest = (no_holes_iff new after).0 t.3;
      },
      (==_iff (last_of new after).end_ len).0 t.4,
    )
