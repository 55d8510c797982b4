-- ===== src/Memp/Return.antt =====
-- core/memp.c: an element that its owner gives back.
use my_lwip_poc.Base.{
  ℕ, zero, suc, ◌+◌, ◌*◌, ◌%◌, ◌<◌, ◌≡◌, ◌≢◌, refl, List, [], ◌∷◌, ◌++◌, ◌==◌, arith, All, ap, sym,
  ◌∙◌, subst, inl, inr, Bool-cases, ==_iff, ==_refl, ne→==, ==_of_eq, length, length-append,
}
use my_lwip_poc.Base.Word.{u16_mod}
use my_lwip_poc.Base.Outcome.{ok}
use my_lwip_poc.Mem.{dec_used}
use my_lwip_poc.Memp.{Memp, set_at, push, memp_malloc, memp_free}
use my_lwip_poc.Memp.Lists.{
  Links, cells, one_if, count, count-append, count_here, Links-frame, Links-push,
}
use my_lwip_poc.Memp.Client.{
  Owned, own, own-append, at_pool, base, elements, Inv, elements_apart, elements-le, own-same,
  own-cons, taken, taken-Inv, malloc_takes,
}

-- An element of a list that is linked so is aligned and not NULL; those of a pool are.
abbrev pub Aligned : ℕ → Type 0
Aligned a = (a ≢ 0) × (a % 4 ≡ 0)

pub times_four : (n m : ℕ) → m % 4 ≡ 0 → n * m % 4 ≡ 0
times_four zero m h = omega arith
times_four (suc n) m h = omega (arith, h, times_four n m h)

cells-Aligned :
    (start size n : ℕ) → 0 < start → start % 4 ≡ 0 → size % 4 ≡ 0 → All Aligned (cells start size n)
cells-Aligned start size zero pos al w = tt
cells-Aligned start size (suc n) pos al w = (
  (λ e. absurd (omega (arith, e, pos)), al),
  cells-Aligned (start + size) size n (omega (arith, pos)) (omega (arith, al, w)) w,
)

-- A predicate on the items of a list, at an item that is in it.
pub All-count : (P : ℕ → Type 0) (a : ℕ) (xs : List ℕ) → All P xs → 0 < count a xs → P a
All-count P a [] h c = absurd (omega (arith, c))
All-count P a (x ∷ xs) h c = elim (Bool-cases (a == x)) [
  | inl e ↦ subst P (sym ((==_iff a x).0 e)) h.0
  | inr e ↦ let z : one_if a x ≡ 0 = rw e refl in All-count P a xs h.1 (omega (arith, c, z))
]

own-drop :
    (u t a : ℕ) (o q : Owned) (x : ℕ)
    → count x (own u (o ++ (t, a) ∷ q)) ≡ count x (own u ((t, a) ∷ o ++ q))
own-drop u t a o q x =
    ap (count x) (own-append u o ((t, a) ∷ q))
    ∙ count-append x (own u o) (own u ((t, a) ∷ q))
    ∙ elim (Bool-cases (t == u)) [
      | inl e ↦
          rw e (omega (arith, count-append x (own u o) (own u q), ap (count x) (own-append u o q)))
      | inr e ↦
          rw e (omega (arith, count-append x (own u o) (own u q), ap (count x) (own-append u o q)))
    ]

own-length :
    (u t a : ℕ) (o q : Owned) → length (own u (o ++ (t, a) ∷ q)) ≡ length (own u ((t, a) ∷ o ++ q))
own-length u t a o q =
    ap length (own-append u o ((t, a) ∷ q))
    ∙ length-append (own u o) (own u ((t, a) ∷ q))
    ∙ elim (Bool-cases (t == u)) [
      | inl e ↦
          rw e (omega (arith, length-append {0} (own u o) (own u q), ap length (own-append u o q)))
      | inr e ↦
          rw e (omega (arith, length-append {0} (own u o) (own u q), ap length (own-append u o q)))
    ]

module _ (memp_num memp_sizes : ℕ → ℕ) (memp_max memory : ℕ)
    (positive : (t : ℕ) → 0 < memp_sizes t) where
  abbrev Pools : Memp → Owned → Type 0
  Pools s o = Inv memp_num memp_sizes memp_max memory s o

  -- The state when `a` is back in the list of its pool.
  abbrev pub returned : Memp → (t a : ℕ) → Memp
  returned s t a = push (record s { stats = set_at s.stats t (dec_used (s.stats t) 1) }) t a

  module _ (whole : (t : ℕ) → memp_sizes t % 4 ≡ 0) (here : 0 < memory)
      (aligned : memory % 4 ≡ 0) where
    base-Aligned :
        (t : ℕ)
        → (0 < base memp_num memp_sizes memp_max memory t)
          × (base memp_num memp_sizes memp_max memory t % 4 ≡ 0)
    base-Aligned zero = (here, aligned)
    base-Aligned (suc t) =
        let h = base-Aligned t in
        (omega (arith, h.0), omega (arith, h.1, times_four (memp_num t) (memp_sizes t) (whole t)))

    pub elements-Aligned : (t : ℕ) → All Aligned (elements memp_num memp_sizes memp_max memory t)
    elements-Aligned t =
        let h = base-Aligned t in
        cells-Aligned (base memp_num memp_sizes memp_max memory t) (memp_sizes t) (memp_num t) h.0
          h.1 (whole t)

  module _ (s : Memp) (o q : Owned) (t a : ℕ) (v : Pools s (o ++ (t, a) ∷ q))
      (lt : t < memp_max) where
    -- It is an element of this pool, owned once, and in no list.
    a_element : count a (elements memp_num memp_sizes memp_max memory t) ≡ 1
    a_element = omega (
      arith,
      v.counted t lt a,
      own-drop t t a o q a,
      ap (count a) (own-same memp_num memp_sizes memp_max memory positive t a (o ++ q)),
      count_here a (own t (o ++ q)),
      elements-le memp_num memp_sizes memp_max memory positive t a,
    )

    not_free : (u : ℕ) → u < memp_max → count a (v.free u) ≡ 0
    not_free u h =
        at_pool (λ k. k < memp_max → count a (v.free k) ≡ 0) t u
          (λ _. omega (
            arith,
            v.counted t lt a,
            own-drop t t a o q a,
            ap (count a) (own-same memp_num memp_sizes memp_max memory positive t a (o ++ q)),
            count_here a (own t (o ++ q)),
            a_element,
          ))
          (λ ne k. omega (
            arith,
            v.counted u k a,
            elements_apart memp_num memp_sizes memp_max memory positive t u a (λ e. ne (sym e))
                a_element,
          ))
          h

    pub returned-Inv : Aligned a → Pools (returned s t a) (o ++ q)
    returned-Inv al = record {
      free = set_at v.free t (a ∷ v.free t);
      links = λ u h.
          at_pool
            (λ k.
              k < memp_max
              → Links (set_at s.next a (s.tab t)) (set_at s.tab t a k)
                  (set_at v.free t (a ∷ v.free t) k))
            t u
            (λ _.
              rw (==_refl t)
                (Links-push s.next a (s.tab t) (v.free t) al.0 al.1 (not_free t lt) (v.links t lt)))
            (λ ne k.
              rw (ne→== u t ne)
                (Links-frame s.next a (s.tab t) (s.tab u) (v.free u) (not_free u k) (v.links u k)))
            h;
      counted = λ u h x.
          at_pool
            (λ k.
              k < memp_max
              → count x (set_at v.free t (a ∷ v.free t) k) + count x (own k (o ++ q))
                ≡ count x (elements memp_num memp_sizes memp_max memory k))
            t u
            (λ _. rw (==_refl t) (
              omega (
                arith,
                v.counted t lt x,
                own-drop t t a o q x,
                ap (count x) (own-same memp_num memp_sizes memp_max memory positive t a (o ++ q)),
              )))
            (λ ne k. rw (ne→== u t ne) (
              omega (
                arith,
                v.counted u k x,
                own-drop u t a o q x,
                ap (count x) (
                    own-cons memp_num memp_sizes memp_max memory positive t a u (o ++ q)
                      (λ e. ne (sym e))),
              )))
            h;
      used = λ u h.
          at_pool
            (λ k.
              k < memp_max
              → (set_at s.stats t (dec_used (s.stats t) 1) k).used
                ≡ length (own k (o ++ q)) % u16_mod)
            t u
            (λ _. rw (==_refl t) (
              omega (
                arith,
                v.used t lt,
                own-length t t a o q,
                ap (length {A = ℕ})
                    (own-same memp_num memp_sizes memp_max memory positive t a (o ++ q)),
              )))
            (λ ne k. rw (ne→== u t ne) (
              omega (
                arith,
                v.used u k,
                own-length u t a o q,
                ap (length {A = ℕ}) (
                    own-cons memp_num memp_sizes memp_max memory positive t a u (o ++ q)
                      (λ e. ne (sym e))),
              )))
            h;
    }

  -- An element that is owned goes back into its pool: memp_free aborts on no assertion and keeps the
  -- invariant, and the next allocation from the pool succeeds, with this element.
  pub memp_free-memp_malloc :
      (s : Memp) (o q : Owned) (t a : ℕ)
      → ((t : ℕ) → memp_sizes t % 4 ≡ 0)
      → 0 < memory
      → memory % 4 ≡ 0
      → Pools s (o ++ (t, a) ∷ q)
      → t < memp_max
      → (memp_free memp_num memp_sizes memp_max memory t a s ≡ ok (returned s t a))
        × Pools (returned s t a) (o ++ q)
        × ((u : Memp) × (memp_malloc memp_num memp_sizes memp_max memory t (returned s t a)
              ≡ ok (a, u))
            × Pools u ((t, a) ∷ o ++ q))
  unfolding memp_free returned-Inv
  memp_free-memp_malloc s o q t a w pos al v lt =
      let element = a_element s o q t a v lt in
      let ok_ : Aligned a =
        All-count Aligned a (elements memp_num memp_sizes memp_max memory t)
          (elements-Aligned w pos al t) (omega (arith, element)) in
      let inv = returned-Inv s o q t a v lt ok_ in
      let front : inv.free t ≡ a ∷ v.free t = rw (==_refl t) refl in
      (
        rw (ne→== a 0 ok_.0, ==_of_eq (a % 4) 0 ok_.1) refl,
        inv,
        (
          taken memp_num memp_sizes memp_max memory positive (returned s t a) t a,
          malloc_takes memp_num memp_sizes memp_max memory positive (returned s t a) t a
              (rw (==_refl t) refl) ok_.0 ok_.1 lt,
          taken-Inv memp_num memp_sizes memp_max memory positive (returned s t a) (o ++ q) t a
              (v.free t) inv lt front,
        ),
      )
