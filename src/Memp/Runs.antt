-- ===== src/Memp/Runs.antt =====
-- core/memp.c: whatever the clients of the pools do, from memp_init on.
use my_lwip_poc.Base.{ℕ, ◌%◌, ◌<◌, ◌≡◌, ◌≢◌, refl, [], ◌∷◌, ◌++◌, arith, ap, sym, ◌∙◌, subst}
use my_lwip_poc.Base.Outcome.{ok, ok-injective}
use my_lwip_poc.Memp.{Memp, memp_init, memp_malloc, memp_free}
use my_lwip_poc.Memp.Client.{
  Owned, elements, Inv, Allocates, gives, refuses, Refines, memp_malloc-Refines,
}
use my_lwip_poc.Memp.Return.{Aligned, All-count, elements-Aligned, memp_free-memp_malloc}
use my_lwip_poc.Memp.Carve.{memp_init-Inv}

-- Calls of clients that free only what they own, and what they own then.
pub data Run (memp_num memp_sizes : ℕ → ℕ) (memp_max memory : ℕ) (s0 : Memp)
    : Memp → Owned → Type 0 where
  start :
      Run memp_num memp_sizes memp_max memory s0
        (memp_init memp_num memp_sizes memp_max memory s0)
        []
  allocated :
      {s s' : Memp} {o : Owned} {t a : ℕ}
      → Run memp_num memp_sizes memp_max memory s0 s o
      → t < memp_max
      → memp_malloc memp_num memp_sizes memp_max memory t s ≡ ok (a, s')
      → a ≢ 0
      → Run memp_num memp_sizes memp_max memory s0 s' ((t, a) ∷ o)
  refused :
      {s s' : Memp} {o : Owned} {t : ℕ}
      → Run memp_num memp_sizes memp_max memory s0 s o
      → t < memp_max
      → memp_malloc memp_num memp_sizes memp_max memory t s ≡ ok (0, s')
      → Run memp_num memp_sizes memp_max memory s0 s' o
  freed :
      {s s' : Memp}
      → (o q : Owned) → (t a : ℕ) → Run memp_num memp_sizes memp_max memory s0 s (o ++ (t, a) ∷ q)
      → t < memp_max
      → memp_free memp_num memp_sizes memp_max memory t a s ≡ ok s'
      → Run memp_num memp_sizes memp_max memory s0 s' (o ++ q)

module _ (memp_num memp_sizes : ℕ → ℕ) (memp_max memory : ℕ) (positive : (t : ℕ) → 0 < memp_sizes t)
    (whole : (t : ℕ) → memp_sizes t % 4 ≡ 0) (here : 0 < memory) (aligned : memory % 4 ≡ 0) where
  abbrev Pools : Memp → Owned → Type 0
  Pools s o = Inv memp_num memp_sizes memp_max memory s o

  after_malloc :
      (s s' : Memp) (o : Owned) (t a : ℕ)
      → Refines memp_num memp_sizes memp_max memory positive s o t
      → memp_malloc memp_num memp_sizes memp_max memory t s ≡ ok (a, s')
      → (o' : Owned) × Allocates memp_num memp_sizes memp_max memory t o a o' × Pools s' o'
  after_malloc s s' o t a r e =
      let same = ok-injective (sym r.run ∙ e) in
      (
        r.owned,
        subst (λ k. Allocates memp_num memp_sizes memp_max memory t o k r.owned)
            (ap (λ p. p.0) same) r.spec,
        subst (λ k. Pools k r.owned) (ap (λ p. p.1) same) r.inv,
      )

  not_refused :
      (o o' : Owned) (t a : ℕ)
      → Allocates memp_num memp_sizes memp_max memory t o a o'
      → a ≢ 0
      → o' ≡ (t, a) ∷ o
  not_refused o _ t _ (gives a c d) nz = refl
  not_refused o _ t _ (refuses f) nz = absurd (nz refl)

  not_given :
      (o o' : Owned) (t a : ℕ)
      → Allocates memp_num memp_sizes memp_max memory t o a o'
      → a ≡ 0
      → o' ≡ o
  not_given o _ t _ (gives a c d) z =
      let al : Aligned a =
        All-count Aligned a (elements memp_num memp_sizes memp_max memory t)
          (elements-Aligned memp_num memp_sizes memp_max memory positive whole here aligned t)
          (omega (arith, c)) in
      absurd (al.0 z)
  not_given o _ t _ (refuses f) z = refl

  -- After any calls of memp_malloc and memp_free from memp_init on, where each element is freed by its
  -- owner, the list of each pool and what is owned of it make up the elements of the pool, and the
  -- counter of used elements is the number owned, modulo 65536.
  pub Run-Inv :
      (s0 s : Memp) (o : Owned)
      → Run memp_num memp_sizes memp_max memory s0 s o
      → Inv memp_num memp_sizes memp_max memory s o
  Run-Inv s0 _ _ start =
      memp_init-Inv memp_num memp_sizes memp_max memory positive whole here aligned s0
  Run-Inv s0 _ _ (allocated {s} {s'} {o} {t} {a} r lt e nz) =
      let (o', spec, inv) =
        after_malloc s s' o t a
          (memp_malloc-Refines memp_num memp_sizes memp_max memory positive s o t (Run-Inv s0 s o r)
            lt)
          e in
      subst (Pools s') (not_refused o o' t a spec nz) inv
  Run-Inv s0 _ _ (refused {s} {s'} {o} {t} r lt e) =
      let (o', spec, inv) =
        after_malloc s s' o t 0
          (memp_malloc-Refines memp_num memp_sizes memp_max memory positive s o t (Run-Inv s0 s o r)
            lt)
          e in
      subst (Pools s') (not_given o o' t 0 spec refl) inv
  Run-Inv s0 _ _ (freed {s} {s'} o q t a r lt e) =
      let back =
        memp_free-memp_malloc memp_num memp_sizes memp_max memory positive s o q t a whole here
          aligned (Run-Inv s0 s (o ++ (t, a) ∷ q) r) lt in
      subst (λ k. Pools k (o ++ q)) (ok-injective (sym back.0 ∙ e)) back.1
