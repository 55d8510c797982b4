-- ===== src/Memp/Carve.antt =====
-- core/memp.c: memp_init makes the pools, and what any clients do with them.
use my_lwip_poc.Base.{
  ℕ, zero, suc, ◌+◌, ◌*◌, ◌%◌, ◌≤◌, ◌<◌, ◌≡◌, ◌≢◌, refl, List, [], ◌∷◌, if◌then◌else◌, ltb, arith,
  All, All-mono, ap, ◌∙◌, subst, ==_refl, ne→==, lt→ltb,
}
use my_lwip_poc.Memp.{Memp, set_at, push, no_stats, carve_pool, carve_pools, memp_init}
use my_lwip_poc.Memp.Lists.{Links, count, cells, Links-frame, Links-push}
use my_lwip_poc.Memp.Client.{at_pool, base, elements, Inv}
use my_lwip_poc.Memp.Return.{times_four}

Below : ℕ → List ℕ → Type 0
Below m ps = All (λ (a : ℕ). a < m) ps

count-Below : (m a : ℕ) (ps : List ℕ) → m ≤ a → All (λ (b : ℕ). b < m) ps → count a ps ≡ 0
count-Below m a [] le b = refl
count-Below m a (p ∷ ps) le b =
    rw (ne→== a p (omega (arith, le, b.0))) (omega (arith, count-Below m a ps le b.1))

module _ (memp_num memp_sizes : ℕ → ℕ) (memp_max memory : ℕ) (positive : (t : ℕ) → 0 < memp_sizes t)
    (whole : (t : ℕ) → memp_sizes t % 4 ≡ 0) (here : 0 < memory) (aligned : memory % 4 ≡ 0) where
  -- A pool when `n` elements have been added to its list.
  record Carved (n type memp : ℕ) (s : Memp) (fs : List ℕ) (r : ℕ × Memp) : Type 0 where
    list : List ℕ
    links : Links r.1.next (r.1.tab type) list
    counted : (a : ℕ) → count a list ≡ count a fs + count a (cells memp (memp_sizes type) n)
    below : All (λ (a : ℕ). a < r.0) list
    end_here : r.0 ≡ memp + n * memp_sizes type
    others : (u : ℕ) → u ≢ type → r.1.tab u ≡ s.tab u
    frame :
        (p : ℕ) (ps : List ℕ)
        → All (λ (a : ℕ). a < memp) ps
        → Links s.next p ps
        → Links r.1.next p ps
    stats_same : r.1.stats ≡ s.stats

  carve_pool-Carved :
      (n type memp : ℕ) (s : Memp) (fs : List ℕ)
      → 0 < memp
      → memp % 4 ≡ 0
      → Links s.next (s.tab type) fs
      → All (λ (a : ℕ). a < memp) fs
      → Carved n type memp s fs (carve_pool memp_num memp_sizes memp_max memory n type memp s)
  unfolding carve_pool
  carve_pool-Carved zero type memp s fs pos al l b = record {
    list = fs;
    links = l;
    counted = λ a. omega arith;
    below = b;
    end_here = omega arith;
    others = λ u ne. refl;
    frame = λ p ps bl k. k;
    stats_same = refl;
  }
  carve_pool-Carved (suc n) type memp s fs pos al l b =
      let size = memp_sizes type in
      let absent = count-Below memp memp fs (omega arith) b in
      let pushed : Links (set_at s.next memp (s.tab type)) (set_at s.tab type memp type)
          (memp ∷ fs) =
        rw (==_refl type)
          (Links-push s.next memp (s.tab type) fs (omega (arith, pos)) al absent l) in
      let step = positive type in
      let b' : All (λ (a : ℕ). a < memp + size) (memp ∷ fs) =
        (omega (arith, step), All-mono fs (λ a h. omega (arith, h, step)) b) in
      let r =
        carve_pool-Carved n type (memp + size) (push s type memp) (memp ∷ fs) (omega (arith, pos))
          (omega (arith, al, whole type)) pushed b' in
      record {
        list = r.list;
        links = r.links;
        counted = λ a. omega (arith, r.counted a);
        below = r.below;
        end_here = r.end_here ∙ omega arith;
        others = λ u ne. r.others u ne ∙ rw (ne→== u type ne) refl;
        frame = λ p ps bl k. r.frame p ps (All-mono ps (λ a h. omega (arith, h, step)) bl) (
            Links-frame s.next memp (s.tab type) p ps (count-Below memp memp ps (omega arith) bl)
              k);
        stats_same = r.stats_same;
      }

  -- The first `i` pools are made, and their elements lie in front of `memp`.
  record Made (i memp : ℕ) (s : Memp) : Type 0 where
    free : ℕ → List ℕ
    links : (t : ℕ) → t < i → Links s.next (s.tab t) (free t)
    counted :
        (t : ℕ)
        → t < i
        → (a : ℕ) → count a (free t) ≡ count a (elements memp_num memp_sizes memp_max memory t)
    below : (t : ℕ) → t < i → All (λ (a : ℕ). a < memp) (free t)
    from : memp ≡ base memp_num memp_sizes memp_max memory i
    pos : 0 < memp
    al : memp % 4 ≡ 0

  abbrev next_pool : (i memp : ℕ) → Memp → ℕ × Memp
  next_pool i memp s =
      carve_pool memp_num memp_sizes memp_max memory (memp_num i) i memp
        (record s { tab = set_at s.tab i 0 })

  next-Carved :
      (i memp : ℕ) (s : Memp)
      → Made i memp s
      → Carved (memp_num i) i memp (record s { tab = set_at s.tab i 0 }) [] (next_pool i memp s)
  next-Carved i memp s m =
      carve_pool-Carved (memp_num i) i memp (record s { tab = set_at s.tab i 0 }) [] m.pos m.al
        (rw (==_refl i) refl) tt

  next-Made :
      (i memp : ℕ) (s : Memp)
      → Made i memp s
      → Made (suc i) (next_pool i memp s).0 (next_pool i memp s).1
  next-Made i memp s m =
      let c = next-Carved i memp s m in
      let r = next_pool i memp s in
      record {
        free = set_at m.free i c.list;
        links = λ t h.
            at_pool (λ k. k < suc i → Links r.1.next (r.1.tab k) (set_at m.free i c.list k)) i t
              (λ _. rw (==_refl i) c.links)
              (λ ne k.
                let same : r.1.tab t ≡ s.tab t = c.others t ne ∙ rw (ne→== t i ne) refl in
                rw (ne→== t i ne, same)
                  (c.frame (s.tab t) (m.free t) (m.below t (omega (arith, k, ne)))
                    (m.links t (omega (arith, k, ne)))))
              h;
        counted = λ t h a.
            at_pool
              (λ k.
                k < suc i
                → count a (set_at m.free i c.list k)
                  ≡ count a (elements memp_num memp_sizes memp_max memory k))
              i t
              (λ _. rw (==_refl i) (
                c.counted a
                ∙ ap (λ b. 0 + count a (cells b (memp_sizes i) (memp_num i))) m.from
                ∙ omega arith))
              (λ ne k. rw (ne→== t i ne) (m.counted t (omega (arith, k, ne)) a)) h;
        below = λ t h.
            at_pool (λ k. k < suc i → All (λ (a : ℕ). a < r.0) (set_at m.free i c.list k)) i t
              (λ _. rw (==_refl i) c.below)
              (λ ne k. rw (ne→== t i ne) (
                All-mono (m.free t) (λ a q. omega (arith, q, c.end_here))
                  (m.below t (omega (arith, k, ne)))))
              h;
        from = c.end_here ∙ ap (λ b. b + memp_num i * memp_sizes i) m.from;
        pos = omega (arith, c.end_here, m.pos);
        al = omega (arith, c.end_here, m.al, times_four (memp_num i) (memp_sizes i) (whole i));
      }

  data Carves (n : ℕ) (s t : Memp) : Type 0 where
    carves : (memp : ℕ) → Made n memp t → t.stats ≡ s.stats → Carves n s t

  carve_pools-Carves :
      (n i memp : ℕ) (s : Memp)
      → Made i memp s
      → Carves (n + i) s (carve_pools memp_num memp_sizes memp_max memory n i memp s)
  unfolding carve_pools
  carve_pools-Carves zero i memp s m = subst (λ k. Carves k s s) (omega arith) (carves memp m refl)
  carve_pools-Carves (suc n) i memp s m =
      let c = next-Carved i memp s m in
      let r = next_pool i memp s in
      elim (carve_pools-Carves n (suc i) r.0 r.1 (next-Made i memp s m)) [
        | carves b made same ↦
            subst
              (λ k. Carves k s (carve_pools memp_num memp_sizes memp_max memory n (suc i) r.0 r.1))
              (omega arith) (carves b made (same ∙ c.stats_same))
      ]

  no_pools : (s : Memp) → Made 0 memory s
  no_pools s = record {
    free = λ t. [];
    links = λ t h. absurd (omega (arith, h));
    counted = λ t h a. absurd (omega (arith, h));
    below = λ t h. absurd (omega (arith, h));
    from = refl;
    pos = here;
    al = aligned;
  }

  -- memp_init, on any memory, makes pools of which nothing is owned.
  pub memp_init-Inv :
      (s : Memp)
      → Inv memp_num memp_sizes memp_max memory (memp_init memp_num memp_sizes memp_max memory s) []
  unfolding memp_init
  memp_init-Inv s =
      let s0 : Memp = record s {
        stats = λ i. if ltb i memp_max then no_stats else s.stats i;
        avail = λ i. if ltb i memp_max then memp_num i else s.avail i;
      } in
      let n : memp_max + 0 ≡ memp_max = omega arith in
      elim (subst
        (λ k. Carves k s0 (carve_pools memp_num memp_sizes memp_max memory memp_max 0 memory s0)) n
        (carve_pools-Carves memp_max 0 memory s0 (no_pools s0))) [
          | carves b made same ↦ record {
            free = made.free;
            links = made.links;
            counted = λ t h a. omega (arith, made.counted t h a);
            used = λ t h. ap (λ f. (f t).used) same ∙ rw (lt→ltb t memp_max h) refl;
          }
        ]
