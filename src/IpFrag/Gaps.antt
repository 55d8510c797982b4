-- ===== src/IpFrag/Gaps.antt =====
-- ip_reass_chain_frag_into_datagram_and_validate as a whole: the datagrams that it reports as
-- complete, the hole that it does not see, and the assertion that a sender can make fail.
use my_lwip_poc.Base.{
  ◌≤◌, ◌<◌, ◌≡◌, ◌≢◌, refl, Bool, true, ◌&&◌, List, [], ◌∷◌, ◌++◌, Option, none, some, inl, inr,
  arith, All, ap, length, sym, ◌∙◌, length-append, subst, Bool-cases, ==_iff, ==→ne, ==_of_eq, ◌==◌,
  le→ltb,
}
use my_lwip_poc.Base.Outcome.{
  Outcome, ok, assert_failed, out_of_fuel, ◌>>=◌, ok-injective, asserting,
}
use my_lwip_poc.IpFrag.{Frag, Datagram}
use my_lwip_poc.IpFrag.Place.{
  overlapping, placed, behind, joins, place, last_of, first_start, validate, kept,
  chain_frag_into_datagram_and_validate, validated, thrown_away,
}
use my_lwip_poc.IpFrag.Chain.{
  Below, passed, Fits, Ascending, place-end, place-next, place-here, place-Position,
}
use my_lwip_poc.IpFrag.Complete.{
  Follows, Checked, passed_iff, Valid, validate-true, validate_complete, validate_aborts,
}

-- What is known of a datagram that is reported as complete.
pub record Reported (d : Datagram) (new : Frag) (fs : List Frag) : Type 0 where
  pub before : List Frag
  pub after : List Frag
  pub parts : before ++ after ≡ d.frags
  pub now : fs ≡ before ++ new ∷ after
  pub last : d.last_seen ≡ true
  pub first : first_start fs ≡ 0
  pub front : Checked none before new after
  pub rest : Follows new after
  pub end_here : (last_of new after).end_ ≡ d.datagram_len

kept-equal : (fs gs : List Frag) (b c : Bool) → kept fs b ≡ kept gs c → (fs ≡ gs) × (b ≡ c)
kept-equal fs gs b c e = (cc, cc)

kept_true :
    (o : Outcome Bool) (gs fs : List Frag)
    → (o >>= λ r. ok (kept gs r)) ≡ ok (kept fs true)
    → (o ≡ ok true) × (fs ≡ gs)
kept_true (ok b) gs fs h =
    let e = kept-equal gs fs b true (ok-injective h) in (ap (λ x. ok x) e.1, sym e.0)
kept_true (assert_failed) gs fs h = (cc, cc)
kept_true (out_of_fuel) gs fs h = (cc, cc)

pub chain-overlapping :
    (d : Datagram) (new : Frag)
    → place new none true d.frags ≡ ok overlapping
    → chain_frag_into_datagram_and_validate d new ≡ ok thrown_away
unfolding chain_frag_into_datagram_and_validate
chain-overlapping d new e = ap (λ o. o >>= validated d new) e

pub chain-placed :
    (d : Datagram) (new : Frag) (valid : Bool) (before after : List Frag)
    → place new none true d.frags ≡ ok (placed valid before after)
    → chain_frag_into_datagram_and_validate d new ≡ (
        validate d.last_seen d.datagram_len valid before new after >>= λ r.
        ok (kept (before ++ new ∷ after) r))
unfolding chain_frag_into_datagram_and_validate
chain-placed d new valid before after e = ap (λ o. o >>= validated d new) e

-- A datagram that is reported as complete has the new fragment between some of those it had, in order.
-- Its last fragment was seen, it starts at 0, nothing is missing behind the new fragment, and it ends
-- where the last fragment said. Nothing is missing among the fragments before the new one either; and
-- nothing between these and the new one, if that is the last.
pub chain-Reported :
    (d : Datagram) (new : Frag) (fs : List Frag)
    → Ascending d.frags
    → chain_frag_into_datagram_and_validate d new ≡ ok (kept fs true)
    → Reported d new fs
chain-Reported d new fs a h = elim (place-Position new none true d.frags tt a) [
  | inl e ↦ impossible (sym (chain-overlapping d new e) ∙ h)
  | inr p ↦
      let run = chain-placed d new (passed new none true p.before p.after) p.before p.after p.run in
      let k =
        kept_true
          (validate d.last_seen d.datagram_len (passed new none true p.before p.after) p.before new
            p.after)
          (p.before ++ new ∷ p.after) fs (sym run ∙ h) in
      let v =
        validate-true d.last_seen (passed new none true p.before p.after) d.datagram_len p.before
          new p.after k.0 in
      record {
        before = p.before;
        after = p.after;
        parts = p.parts;
        now = k.1;
        last = v.0.last;
        first = ap first_start k.1 ∙ v.0.first;
        front = ((passed_iff new none true p.before p.after).0 v.0.flag).1;
        rest = v.0.rest;
        end_here = v.1;
      }
]
  where
    impossible : ok thrown_away ≡ ok (kept fs true) → Reported d new fs
    impossible e = cc

-- The new fragment ends in front of the next one.
abbrev pub Clear : Frag → List Frag → Type 0
Clear new [] = Unit
Clear new (a ∷ as_) = (new.start < a.start) × (new.end_ ≤ a.start)

pub place-run :
    (new : Frag) (prev : Option Frag) (valid : Bool) (before after : List Frag)
    → Fits new prev
    → All (Below new) before
    → Clear new after
    → place new prev valid (before ++ after)
      ≡ ok (placed (passed new prev valid before after) before after)
place-run new prev valid [] [] f b c = place-end new prev valid f
place-run new none valid [] (a ∷ as_) f b c = place-here new none valid a as_ c.0
place-run new (some p) valid [] (a ∷ as_) f b c =
    place-here new (some p) valid a as_ c.0
    ∙ rw (le→ltb new.start p.end_ f, le→ltb a.start new.end_ c.1) refl
place-run new prev valid (q ∷ qs) after f b c =
    place-next new prev valid q (qs ++ after) b.0
    ∙ ap (λ o. o >>= λ r. ok (behind q r))
        (place-run new (some q) (valid && joins prev q) qs after b.0.1 b.1 c)

-- The new fragment lies clear between these two parts of the datagram, whose last fragment was seen
-- and which pass the tests of the validation.
pub record Passes (d : Datagram) (new : Frag) (before after : List Frag) : Type 0 where
  pub parts : before ++ after ≡ d.frags
  pub below : All (Below new) before
  pub clear : Clear new after
  pub last : d.last_seen ≡ true
  pub first : first_start (before ++ new ∷ after) ≡ 0
  pub front : Checked none before new after
  pub rest : Follows new after
  pub several : d.frags ≢ []

several-length :
    (before : List Frag) (new : Frag) (after fs : List Frag)
    → before ++ after ≡ fs
    → fs ≢ []
    → length (before ++ new ∷ after) ≢ 1
several-length [] new [] fs e ne h = absurd (ne (sym e))
several-length [] new (a ∷ as_) fs e ne h = omega (arith, h)
several-length (b ∷ bs) new after fs e ne h = omega (arith, h, length-append {0} bs (new ∷ after))

module _ (d : Datagram) (new : Frag) (before after : List Frag)
    (p : Passes d new before after) where
  flag : Bool
  flag = passed new none true before after

  passing-run : place new none true d.frags ≡ ok (placed flag before after)
  unfolding flag
  passing-run =
      subst
        (λ fs.
          place new none true fs ≡ ok (placed (passed new none true before after) before after))
        p.parts (place-run new none true before after tt p.below p.clear)

  passing-Valid : Valid d.last_seen flag before new after
  unfolding flag
  passing-Valid = record {
    last = p.last;
    flag = (passed_iff new none true before after).1 (refl, p.front);
    first = p.first;
    rest = p.rest;
  }

  -- If the tests of the validation are passed, the datagram is reported as complete when its fragments
  -- end where the last one said; and when they do not, an assertion aborts.
  pub chain-Passes :
      chain_frag_into_datagram_and_validate d new
      ≡ asserting
          ((last_of new after).end_ == d.datagram_len)
          (ok (kept (before ++ new ∷ after) true))
  chain-Passes =
      let several = several-length before new after d.frags p.parts p.several in
      let run = chain-placed d new flag before after passing-run in
      elim (Bool-cases ((last_of new after).end_ == d.datagram_len)) [
        | inl e ↦
            run
            ∙ ap (λ o. o >>= λ r. ok (kept (before ++ new ∷ after) r))
                (validate_complete d.last_seen flag d.datagram_len before new after passing-Valid
                  several ((==_iff (last_of new after).end_ d.datagram_len).0 e))
            ∙ rw e refl
        | inr e ↦
            run
            ∙ ap (λ o. o >>= λ r. ok (kept (before ++ new ∷ after) r))
                (validate_aborts d.last_seen flag d.datagram_len before new after passing-Valid
                  several (==→ne (last_of new after).end_ d.datagram_len e))
            ∙ rw e refl
      ]

Follows-joint :
    (b : Frag) (bs : List Frag) (new : Frag) (after : List Frag)
    → Follows b (bs ++ new ∷ after)
    → (last_of b bs).end_ ≡ new.start
Follows-joint b [] new after f = f.0
Follows-joint b (c ∷ bs) new after f = Follows-joint c bs new after f.1

-- A hole between the fragments before the new one and the new one is not seen when others stand behind
-- it: with the rest in place, the datagram is reported as complete, with bytes missing.
pub chain-hole :
    (d : Datagram) (new b : Frag) (bs : List Frag) (a : Frag) (as_ : List Frag)
    → d.frags ≡ b ∷ bs ++ a ∷ as_
    → b.start ≡ 0
    → Follows b bs
    → All (Below new) (b ∷ bs)
    → (last_of b bs).end_ < new.start
    → new.start < a.start
    → Follows new (a ∷ as_)
    → d.last_seen ≡ true
    → (last_of a as_).end_ ≡ d.datagram_len
    → (chain_frag_into_datagram_and_validate d new ≡ ok (kept (b ∷ bs ++ new ∷ a ∷ as_) true))
      × (¬ Follows b (bs ++ new ∷ a ∷ as_))
chain-hole d new b bs a as_ e z f bl hole lt g l end_ =
    let p : Passes d new (b ∷ bs) (a ∷ as_) = record {
      parts = sym e;
      below = bl;
      clear = (lt, omega (arith, g.0));
      last = l;
      first = z;
      front = f;
      rest = g;
      several = λ q. nonempty (sym q ∙ e);
    } in
    (
      chain-Passes d new (b ∷ bs) (a ∷ as_) p
          ∙ rw (==_of_eq (last_of a as_).end_ d.datagram_len end_) refl,
      λ q. absurd (omega (arith, hole, Follows-joint b bs new (a ∷ as_) q)),
    )
  where
    nonempty : [] ≡ b ∷ bs ++ a ∷ as_ → ⊥
    nonempty q = cc
