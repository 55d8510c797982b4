-- ===== src/Memp/Client.antt =====
-- core/memp.c: what the pools promise to their clients, and that the lists keep it.
use my_lwip_poc.Base.{
  ℕ, zero, suc, ◌+◌, ◌*◌, ◌%◌, ◌≤◌, ◌<◌, ◌≡◌, ◌≢◌, refl, List, [], ◌∷◌, ◌++◌, if◌then◌else◌, ltb,
  ◌==◌, arith, ap, sym, ◌∙◌, subst, inl, inr, Bool-cases, ==_iff, ==→ne, ==_refl, ne→==, ==_of_eq,
  length, lt→ltb, ltb→lt, ltb→le,
}
use my_lwip_poc.Base.Word.{u16_mod}
use my_lwip_poc.Base.Outcome.{ok}
use my_lwip_poc.Mem.{inc_used}
use my_lwip_poc.Memp.{Memp, set_at, inc_err, memp_malloc}
use my_lwip_poc.Memp.Lists.{Links, count, count_here, cells, count-below, count-above, count-cells}

-- What clients own: pairs of a pool and the address of an element.
abbrev pub Owned : Type 0
Owned = List (ℕ × ℕ)

abbrev pub own : ℕ → Owned → List ℕ
own t [] = []
own t ((u, a) ∷ o) = let rest = own t o in if u == t then a ∷ rest else rest

pub own-append : (t : ℕ) (o q : Owned) → own t (o ++ q) ≡ own t o ++ own t q
own-append t [] q = refl
own-append t ((u, a) ∷ o) q = elim (Bool-cases (u == t)) [
  | inl e ↦ rw e (ap (◌∷◌ a) (own-append t o q))
  | inr e ↦ rw e (own-append t o q)
]

-- At the pool `t` and at the others.
pub at_pool : (P : ℕ → Type 0) (t u : ℕ) → P t → (u ≢ t → P u) → P u
at_pool P t u here there = elim (Bool-cases (u == t)) [
  | inl q ↦ subst P (sym ((==_iff u t).0 q)) here
  | inr q ↦ there (==→ne u t q)
]

module _ (memp_num memp_sizes : ℕ → ℕ) (memp_max memory : ℕ) where
  -- Where a pool begins, and its elements.
  abbrev pub base : ℕ → ℕ
  base zero = memory
  base (suc t) = base t + memp_num t * memp_sizes t

  abbrev pub elements : ℕ → List ℕ
  elements t = cells (base t) (memp_sizes t) (memp_num t)

  -- The specification of an allocation, which knows only what is owned: it gives out any element of
  -- the pool that is not owned, or NULL when all are.
  pub data Allocates (t : ℕ) (o : Owned) : ℕ → Owned → Type 0 where
    gives :
        (a : ℕ) → count a (elements t) ≡ 1 → count a (own t o) ≡ 0 → Allocates t o a ((t, a) ∷ o)
    refuses : ((a : ℕ) → count a (own t o) ≡ count a (elements t)) → Allocates t o 0 o

  -- Each pool's list and what is owned of it make up its elements.
  pub record Inv (s : Memp) (o : Owned) : Type 0 where
    pub free : ℕ → List ℕ
    pub links : (t : ℕ) → t < memp_max → Links s.next (s.tab t) (free t)
    pub counted :
        (t : ℕ)
        → t < memp_max
        → (a : ℕ) → count a (free t) + count a (own t o) ≡ count a (elements t)
    pub used : (t : ℕ) → t < memp_max → (s.stats t).used ≡ length (own t o) % u16_mod

  module _ (positive : (t : ℕ) → 0 < memp_sizes t) where
    base-le : (t u : ℕ) → t < u → base (suc t) ≤ base u
    base-le t zero h = absurd (omega (arith, h))
    base-le t (suc u) h = elim (Bool-cases (t == u)) [
      | inl e ↦
          let q : t ≡ u = (==_iff t u).0 e in
          subst (λ k. base (suc t) ≤ base (suc k)) q (omega arith)
      | inr e ↦ omega (arith, base-le t u (omega (arith, h, ==→ne t u e)))
    ]

    -- An element belongs to one pool only.
    pub elements_apart : (t u a : ℕ) → t ≢ u → count a (elements t) ≡ 1 → count a (elements u) ≡ 0
    elements_apart t u a ne c = elim (Bool-cases (ltb a (base u))) [
      | inl l ↦ count-below a (base u) (memp_sizes u) (memp_num u) (ltb→lt a (base u) l)
      | inr l ↦
          let le = ltb→le a (base u) l in
          elim (Bool-cases (ltb t u)) [
            | inl k ↦
                let before = base-le t u (ltb→lt t u k) in
                let none =
                  count-above a (base t) (memp_sizes t) (memp_num t) (positive t)
                    (omega (arith, before, le)) in
                absurd (omega (arith, none, c))
            | inr k ↦
                let before = base-le u t (omega (arith, ltb→le t u k, ne)) in
                elim (Bool-cases (ltb a (base t))) [
                  | inl j ↦
                      let none =
                        count-below a (base t) (memp_sizes t) (memp_num t) (ltb→lt a (base t) j) in
                      absurd (omega (arith, none, c))
                  | inr j ↦
                      count-above a (base u) (memp_sizes u) (memp_num u) (positive u)
                        (omega (arith, before, ltb→le a (base t) j))
                ]
          ]
    ]

    pub elements-le : (t a : ℕ) → count a (elements t) ≤ 1
    elements-le t a = count-cells a (base t) (memp_sizes t) (memp_num t) (positive t)

    pub own-cons : (t a u : ℕ) (o : Owned) → t ≢ u → own u ((t, a) ∷ o) ≡ own u o
    own-cons t a u o ne = rw (ne→== t u ne) refl

    pub own-same : (t a : ℕ) (o : Owned) → own t ((t, a) ∷ o) ≡ a ∷ own t o
    own-same t a o = rw (==_refl t) refl

    -- The state when `a` has been taken off the list of its pool.
    abbrev pub taken : Memp → (t a : ℕ) → Memp
    taken s t a = record s {
      tab = set_at s.tab t (s.next a);
      stats = set_at s.stats t (inc_used (s.stats t) 1);
    }

    pub taken-Inv :
        (s : Memp) (o : Owned) (t a : ℕ) (as_ : List ℕ) (v : Inv s o)
        → t < memp_max
        → v.free t ≡ a ∷ as_
        → Inv (taken s t a) ((t, a) ∷ o)
    taken-Inv s o t a as_ v lt e = record {
      free = set_at v.free t as_;
      links = λ u h.
          at_pool (λ k. Links s.next (set_at s.tab t (s.next a) k) (set_at v.free t as_ k)) t u
            (rw (==_refl t) (subst (Links s.next (s.tab t)) e (v.links t lt)).3)
            (λ ne. rw (ne→== u t ne) (v.links u h));
      counted = λ u h x.
          at_pool
            (λ k.
              count x (set_at v.free t as_ k) + count x (own k ((t, a) ∷ o)) ≡ count x (elements k))
            t u (rw (==_refl t) (omega (arith, v.counted t lt x, ap (count x) e)))
            (λ ne. rw (ne→== u t ne, ne→== t u (λ q. ne (sym q))) (v.counted u h x));
      used = λ u h.
          at_pool
            (λ k.
              (set_at s.stats t (inc_used (s.stats t) 1) k).used
              ≡ length (own k ((t, a) ∷ o)) % u16_mod)
            t u (rw (==_refl t) (omega (arith, v.used t lt)))
            (λ ne. rw (ne→== u t ne, ne→== t u (λ q. ne (sym q))) (v.used u h));
    }

    -- No element left: only the count of errors changes.
    abbrev failed : Memp → (t : ℕ) → Memp
    failed s t = record s { stats = set_at s.stats t (inc_err (s.stats t)) }

    failed-Inv : (s : Memp) (o : Owned) (t : ℕ) → Inv s o → t < memp_max → Inv (failed s t) o
    failed-Inv s o t v lt = record {
      free = v.free;
      links = v.links;
      counted = v.counted;
      used = λ u h.
          at_pool
            (λ k. (set_at s.stats t (inc_err (s.stats t)) k).used ≡ length (own k o) % u16_mod) t u
            (rw (==_refl t) (v.used t lt)) (λ ne. rw (ne→== u t ne) (v.used u h));
    }

    pub malloc_takes :
        (s : Memp) (t a : ℕ)
        → s.tab t ≡ a
        → a ≢ 0
        → a % 4 ≡ 0
        → t < memp_max
        → memp_malloc memp_num memp_sizes memp_max memory t s ≡ ok (a, taken s t a)
    unfolding memp_malloc
    malloc_takes s t a e nz al lt =
        rw
          (
            lt→ltb t memp_max lt,
            ne→== (s.tab t) 0 (λ q. nz (sym e ∙ q)),
            ==_of_eq (s.tab t % 4) 0 (ap (λ m. m % 4) e ∙ al),
          )
          (ap (λ m. ok (m, taken s t m)) e)

    -- memp_malloc does what the specification says: it aborts on no assertion, gives out an element of
    -- the pool that nobody owns, or NULL when each of them is owned; and the invariant is kept.
    pub record Refines (s : Memp) (o : Owned) (t : ℕ) : Type 0 where
      pub result : ℕ
      pub after : Memp
      pub owned : Owned
      pub run : memp_malloc memp_num memp_sizes memp_max memory t s ≡ ok (result, after)
      pub spec : Allocates t o result owned
      pub inv : Inv after owned

    pub memp_malloc-Refines :
        (s : Memp) (o : Owned) (t : ℕ) → Inv s o → t < memp_max → Refines s o t
    unfolding memp_malloc
    memp_malloc-Refines s o t v lt = go (v.free t) refl
      where
        go : (fs : List ℕ) → v.free t ≡ fs → Refines s o t
        go [] e =
            let l = subst (Links s.next (s.tab t)) e (v.links t lt) in
            record {
              result = 0;
              after = failed s t;
              owned = o;
              run = rw (lt→ltb t memp_max lt, ==_of_eq (s.tab t) 0 l) refl;
              spec = refuses (λ a. omega (arith, v.counted t lt a, ap (count a) e));
              inv = failed-Inv s o t v lt;
            }
        go (a ∷ as_) e =
            let l = subst (Links s.next (s.tab t)) e (v.links t lt) in
            let here = count_here a as_ in
            record {
              result = a;
              after = taken s t a;
              owned = (t, a) ∷ o;
              run = malloc_takes s t a l.0 l.1 l.2 lt;
              spec =
                  gives a (omega (arith, v.counted t lt a, ap (count a) e, here, elements-le t a))
                    (omega (arith, v.counted t lt a, ap (count a) e, here, elements-le t a));
              inv = taken-Inv s o t a as_ v lt e;
            }
