-- ===== src/IpFrag/Join.antt =====
-- ip_reass_chain_frag_into_datagram_and_validate: what becomes of the fragments of a datagram.
use my_lwip_poc.Base.{
  ℕ, ◌+◌, ◌<◌, ◌≡◌, refl, Bool, true, false, not, ◌&&◌, List, [], ◌∷◌, ◌++◌, none, ◌⊎◌, inl, inr,
  if◌then◌else◌, ◌==◌, arith, All, ap, length, sym, ◌∙◌, subst, length-append,
}
use my_lwip_poc.Base.Outcome.{ok, assert_failed, ◌>>=◌, asserting}
use my_lwip_poc.IpFrag.{Frag, Datagram}
use my_lwip_poc.IpFrag.Input.{total_clen}
use my_lwip_poc.IpFrag.Place.{
  overlapping, placed, place, no_holes, last_of, first_start, validate, kept, thrown_away,
  chain_frag_into_datagram_and_validate,
}
use my_lwip_poc.IpFrag.Chain.{Below, passed, Ascending, place-end, place-Position}
use my_lwip_poc.IpFrag.Gaps.{chain-overlapping, chain-placed}

Ascending-insert :
    (before : List Frag) (new : Frag) (after : List Frag)
    → Ascending (before ++ after)
    → All (Below new) before
    → All (λ (q : Frag). new.start < q.start) after
    → Ascending (before ++ new ∷ after)
Ascending-insert [] new after a b c = (c, a)
Ascending-insert (q ∷ qs) new after a b c =
    (with_new qs a.0, Ascending-insert qs new after a.1 b.1 c)
  where
    with_new :
        (rs : List Frag)
        → All (λ (r : Frag). q.start < r.start) (rs ++ after)
        → All (λ (r : Frag). q.start < r.start) (rs ++ new ∷ after)
    with_new [] h = (b.0.0, h)
    with_new (r ∷ rs) h = (h.0, with_new rs h.1)

pub total_clen-append : (fs gs : List Frag) → total_clen (fs ++ gs) ≡ total_clen fs + total_clen gs
total_clen-append [] gs = omega arith
total_clen-append (f ∷ fs) gs = omega (arith, total_clen-append fs gs)

tests-cases :
    (l v f n o e : Bool)
    → (b : Bool) × (((if not (l && v)
            then ok false
            else if not f
            then ok false
            else if not n
            then ok false
            else asserting o (asserting e (ok true)))
          ≡ ok b)
        ⊎ ((if not (l && v)
              then ok false
              else if not f
              then ok false
              else if not n
              then ok false
              else asserting o (asserting e (ok true)))
            ≡ assert_failed))
tests-cases false v f n o e = (false, inl refl)
tests-cases true false f n o e = (false, inl refl)
tests-cases true true false n o e = (false, inl refl)
tests-cases true true true false o e = (false, inl refl)
tests-cases true true true true false e = (true, inr refl)
tests-cases true true true true true false = (true, inr refl)
tests-cases true true true true true true = (true, inl refl)

validate-cases :
    (last_seen valid : Bool) (len : ℕ) (before : List Frag) (new : Frag) (after : List Frag)
    → (b : Bool) × ((validate last_seen len valid before new after ≡ ok b)
        ⊎ (validate last_seen len valid before new after ≡ assert_failed))
unfolding validate
validate-cases last_seen valid len before new after =
    tests-cases last_seen valid (first_start (before ++ new ∷ after) == 0) (no_holes new after)
      (not (length (before ++ new ∷ after) == 1)) ((last_of new after).end_ == len)

-- The call aborts, or frees the fragment of a datagram that has others, or keeps it with these.
pub data Joined (d : Datagram) (new : Frag) : Type 0 where
  aborted : chain_frag_into_datagram_and_validate d new ≡ assert_failed → Joined d new
  freed :
      chain_frag_into_datagram_and_validate d new ≡ ok thrown_away
      → 0 < length d.frags
      → Joined d new
  joined :
      (fs : List Frag)
      → (complete : Bool) → chain_frag_into_datagram_and_validate d new ≡ ok (kept fs complete)
      → Ascending fs
      → 0 < length fs
      → total_clen fs ≡ total_clen d.frags + new.clen
      → Joined d new

some_there : (new : Frag) (fs : List Frag) → place new none true fs ≡ ok overlapping → 0 < length fs
some_there new [] e = absurd (differ (sym (place-end new none true tt) ∙ e))
  where
    differ : ok (placed true [] []) ≡ ok overlapping → ⊥
    differ q = cc
some_there new (f ∷ fs) e = omega arith

pub chain-Joined : (d : Datagram) (new : Frag) → Ascending d.frags → Joined d new
chain-Joined d new a = elim (place-Position new none true d.frags tt a) [
  | inl e ↦ freed (chain-overlapping d new e) (some_there new d.frags e)
  | inr p ↦
      let valid = passed new none true p.before p.after in
      let run = chain-placed d new valid p.before p.after p.run in
      let (b, cases) = validate-cases d.last_seen valid d.datagram_len p.before new p.after in
      elim cases [
        | inl e ↦
            joined (p.before ++ new ∷ p.after) b
              (run ∙ ap (λ o. o >>= λ r. ok (kept (p.before ++ new ∷ p.after) r)) e)
              (Ascending-insert p.before new p.after (subst Ascending (sym p.parts) a) p.below
                p.above)
              (omega (arith, length-append {0} p.before (new ∷ p.after)))
              (omega (
                arith,
                total_clen-append p.before (new ∷ p.after),
                total_clen-append p.before p.after,
                ap total_clen p.parts,
              ))
        | inr e ↦ aborted (run ∙ ap (λ o. o >>= λ r. ok (kept (p.before ++ new ∷ p.after) r)) e)
      ]
]
