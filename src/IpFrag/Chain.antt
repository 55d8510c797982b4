-- ===== src/IpFrag/Chain.antt =====
-- The place of a new fragment among those of its datagram, and when the datagram counts as complete.
use my_lwip_poc.Base.{
  ℕ, ◌≤◌, ◌<◌, ◌≡◌, refl, Bool, true, false, ◌&&◌, ◌||◌, List, [], ◌∷◌, ◌++◌, Option, none, some,
  ltb, ◌==◌, ◌⊎◌, inl, inr, arith, All, Bool-cases, ltb→lt, ltb→le, ap, lt→ltb, le→ltb, ne→==,
  le→leb, ◌∙◌,
}
use my_lwip_poc.Base.Outcome.{ok, ◌>>=◌}
use my_lwip_poc.IpFrag.{Frag}
use my_lwip_poc.IpFrag.Place.{overlapping, placed, behind, joins, place, insert_before}

-- Before `new`, and nothing of it at or behind new.start.
abbrev pub Below : Frag → Frag → Type 0
Below new q = (q.start < new.start) × (q.end_ ≤ new.start)

-- The flag `valid` when the loop is done.
abbrev pub passed : Frag → Option Frag → Bool → (before after : List Frag) → Bool
passed new prev valid [] [] = valid && joins prev new
passed new prev valid [] (r ∷ rs) = valid
passed new prev valid (q ∷ qs) after = passed new (some q) (valid && joins prev q) qs after

-- The new fragment between `before` and `after`.
pub record Position (new : Frag) (prev : Option Frag) (valid : Bool) (fs : List Frag) : Type 0 where
  pub before : List Frag
  pub after : List Frag
  pub run : place new prev valid fs ≡ ok (placed (passed new prev valid before after) before after)
  pub parts : before ++ after ≡ fs
  pub below : All (Below new) before
  pub above : All (λ (q : Frag). new.start < q.start) after

abbrev pub Fits : Frag → Option Frag → Type 0
Fits new none = Unit
Fits new (some p) = p.end_ ≤ new.start

abbrev pub Ascending : List Frag → Type 0
Ascending [] = Unit
Ascending (q ∷ qs) = All (λ (r : Frag). q.start < r.start) qs × Ascending qs

and_true : (b : Bool) → (b && true) ≡ b
and_true true = refl
and_true false = refl

higher :
    (k l : ℕ) (fs : List Frag)
    → k < l
    → All (λ (r : Frag). l < r.start) fs
    → All (λ (r : Frag). k < r.start) fs
higher k l [] lt a = tt
higher k l (r ∷ rs) lt a = (omega (arith, a.0), higher k l rs lt a.1)

pub place-end :
    (new : Frag) (prev : Option Frag) (valid : Bool)
    → Fits new prev
    → place new prev valid [] ≡ ok (placed (valid && joins prev new) [] [])
unfolding place
place-end new none valid f = rw (and_true valid) refl
place-end new (some p) valid f = rw (le→leb p.end_ new.start f) refl

pub place-next :
    (new : Frag) (prev : Option Frag) (valid : Bool) (q : Frag) (qs : List Frag)
    → Below new q
    → place new prev valid (q ∷ qs)
      ≡ (place new (some q) (valid && joins prev q) qs >>= λ r. ok (behind q r))
unfolding place
place-next new prev valid q qs b =
    rw
      (
        le→ltb new.start q.start (omega (arith, b.0)),
        ne→== new.start q.start (omega (arith, b.0)),
        le→ltb new.start q.end_ b.1,
      )
      refl

pub place-here :
    (new : Frag) (prev : Option Frag) (valid : Bool) (q : Frag) (qs : List Frag)
    → new.start < q.start
    → place new prev valid (q ∷ qs) ≡ ok (insert_before new prev valid q qs)
unfolding place
place-here new prev valid q qs lt = rw (lt→ltb new.start q.start lt) refl

place-drop :
    (new : Frag) (prev : Option Frag) (valid : Bool) (q : Frag) (qs : List Frag)
    → q.start ≤ new.start
    → (new.start ≡ q.start) ⊎ (new.start < q.end_)
    → place new prev valid (q ∷ qs) ≡ ok overlapping
unfolding place
place-drop new prev valid q qs le w = ground arith

Position-next :
    (new : Frag) (prev : Option Frag) (valid : Bool) (q : Frag) (qs : List Frag)
    → Below new q
    → Position new (some q) (valid && joins prev q) qs
    → Position new prev valid (q ∷ qs)
Position-next new prev valid q qs b r = record {
  before = q ∷ r.before;
  after = r.after;
  run = place-next new prev valid q qs b ∙ ap (λ o. o >>= λ x. ok (behind q x)) r.run;
  parts = ap (◌∷◌ q) r.parts;
  below = (b, r.below);
  above = r.above;
}

inserted :
    (new : Frag) (prev : Option Frag) (valid : Bool) (q : Frag) (qs : List Frag)
    → (insert_before new prev valid q qs ≡ overlapping)
      ⊎ (insert_before new prev valid q qs ≡ placed valid [] (q ∷ qs))
inserted new none valid q qs = inr refl
inserted new (some p) valid q qs = ground arith

-- The loop aborts on no assertion: a fragment that is not thrown away stands behind those that start,
-- and end, where it starts or before, and in front of those that start behind it.
pub place-Position :
    (new : Frag) (prev : Option Frag) (valid : Bool) (fs : List Frag)
    → Fits new prev
    → Ascending fs
    → (place new prev valid fs ≡ ok overlapping) ⊎ Position new prev valid fs
place-Position new prev valid [] f a = inr (record {
  before = [];
  after = [];
  run = place-end new prev valid f;
  parts = refl;
  below = tt;
  above = tt;
})
place-Position new prev valid (q ∷ qs) f a = elim (Bool-cases (ltb new.start q.start)) [
  | inl t ↦
      let lt = ltb→lt new.start q.start t in
      let here = place-here new prev valid q qs lt in
      elim (inserted new prev valid q qs) [
        | inl e ↦ inl (here ∙ ap (λ x. ok x) e)
        | inr e ↦ inr (record {
          before = [];
          after = q ∷ qs;
          run = here ∙ ap (λ x. ok x) e;
          parts = refl;
          below = tt;
          above = (lt, higher new.start q.start qs lt a.0);
        })
      ]
  | inr t ↦
      let le = ltb→le new.start q.start t in
      elim (Bool-cases (new.start == q.start || ltb new.start q.end_)) [
        | inl w ↦ inl (place-drop new prev valid q qs le (ground arith))
        | inr w ↦
            let b : Below new q = (ground arith, ground arith) in
            elim (place-Position new (some q) (valid && joins prev q) qs b.1 a.1) [
              | inl e ↦
                  inl (place-next new prev valid q qs b ∙ ap (λ o. o >>= λ x. ok (behind q x)) e)
              | inr r ↦ inr (Position-next new prev valid q qs b r)
            ]
      ]
]
