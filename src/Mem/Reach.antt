-- ===== src/Mem/Reach.antt =====
-- Every heap that clients can bring about, starting from mem_init: they free and trim only what
-- they own.
use mathlib.Core.Bool.{or_assoc}
use my_lwip_poc.Base.{
  ℕ, ◌+◌, ◌%◌, ◌≤◌, ◌<◌, ◌≡◌, refl, Bool, true, false, List, [], ◌∷◌, ◌++◌, inl, inr, ◌||◌,
  if◌then◌else◌, arith, ap, sym, ◌∙◌, subst, ne→==, ◌==◌, some, none, Option, Bool-cases,
}
use my_lwip_poc.Mem.{mem_size_aligned, sizeof_struct_mem, Ram, Heap, ok, mem_init, mem_free}
use my_lwip_poc.Base.Outcome.{ok-injective}
use my_lwip_poc.Mem.Malloc.{mem_malloc}
use my_lwip_poc.Mem.Blocks.{Block, block, start, Seg, areas, start-le-stop, Inv}
use my_lwip_poc.Mem.Free.{mem_free-Inv}
use my_lwip_poc.Mem.Allocate.{mem_malloc-Inv}

-- The heap after mem_init is one free block.
pub mem_init-Inv : (ram : Ram) → Inv (mem_init ram) (block 0 false ∷ [])
unfolding mem_init
mem_init-Inv ram = record {
  chain = (refl, omega arith, refl, tt);
  first = refl;
  end_used = refl;
  lowest_free = refl;
  apart = (tt, tt);
}

-- Areas in the order of their addresses, with room for a header before each.
abbrev pub Laid : (low stop : ℕ) → List (ℕ × ℕ) → Type 0
Laid low stop [] = Unit
Laid low stop ((a, n) ∷ r) =
    (low + sizeof_struct_mem ≤ a) × (a + n ≤ stop) × (a % 4 ≡ 0) × Laid (a + n) stop r

Laid-mono : (low low' stop : ℕ) (r : List (ℕ × ℕ)) → low' ≤ low → Laid low stop r → Laid low' stop r
Laid-mono low low' stop [] le l = tt
Laid-mono low low' stop ((a, n) ∷ r) le l = (omega arith, l.1, l.2, l.3)

-- Allocated areas do not overlap each other or a header, lie in the heap and are aligned.
pub areas-Laid :
    (ram : Ram) (prev stop : ℕ) (bs : List Block)
    → Seg ram prev stop bs
    → Laid (start stop bs) stop (areas stop bs)
areas-Laid ram prev stop [] s = tt
areas-Laid ram prev stop (b ∷ bs) s = elim (Bool-cases b.used) [
  | inl u ↦ rw u (
    omega arith,
    omega (arith, start-le-stop ram b.pos stop bs s.3),
    omega (arith, s.2),
    Laid-mono (start stop bs) _ stop (areas stop bs) (omega (arith, s.1))
        (areas-Laid ram b.pos stop bs s.3),
  )
  | inr u ↦ rw u (
      Laid-mono (start stop bs) b.pos stop (areas stop bs) (omega (arith, s.1))
        (areas-Laid ram b.pos stop bs s.3))
]

-- Whether an area begins at `q`.
abbrev pub has : ℕ → List (ℕ × ℕ) → Bool
has q [] = false
has q ((a, n) ∷ r) = (a == q) || has q r

has-append : (q : ℕ) (r t : List (ℕ × ℕ)) → has q (r ++ t) ≡ (has q r || has q t)
has-append q [] t = refl
has-append q (x ∷ r) t = rw (has-append q r t, or_assoc)

-- The pointers that clients own, as a set.
abbrev pub Owned : Type 0
Owned = ℕ → Bool

abbrev pub own : Owned → Option ℕ → Owned
own o none q = o q
own o (some p) q = if q == p then true else o q

abbrev pub disown : Owned → ℕ → Owned
disown o p q = if q == p then false else o q

pub data Reach : Heap → Owned → Type 0 where
  boot : (ram : Ram) → Reach (mem_init ram) (λ q. false)
  malloc :
      {h h' : Heap} {o : Owned} {r : Option ℕ} (size : ℕ)
      → Reach h o
      → 0 < size
      → size ≤ 65532
      → mem_malloc h size ≡ ok (r, h')
      → Reach h' (own o r)
  free :
      {h h' : Heap} {o : Owned} (p : ℕ)
      → Reach h o
      → o p ≡ true
      → mem_free h (some p) ≡ ok h'
      → Reach h' (disown o p)

pub record Owns (h : Heap) (o : Owned) (bs : List Block) : Type 0 where
  pub valid : Inv h bs
  pub owned : (q : ℕ) → o q ≡ has q (areas mem_size_aligned bs)

-- An owned pointer is that of a used block.
split_at :
    (stop p : ℕ) (bs : List Block)
    → has p (areas stop bs) ≡ true
    → (xs : List Block) × (q : ℕ) × (ys : List Block) × (bs ≡ xs ++ block q true ∷ ys)
      × (q + sizeof_struct_mem ≡ p)
split_at stop p [] e = cc
split_at stop p (b ∷ bs) e = elim (Bool-cases b.used) [
  | inl u ↦ elim (Bool-cases (b.pos + sizeof_struct_mem == p)) [
    | inl t ↦ ([], b.pos, bs, ground arith, ground arith)
    | inr t ↦
        let e' : has p (areas stop bs) ≡ true = ground arith in
        let (xs, q, ys, d, f) = split_at stop p bs e' in (b ∷ xs, q, ys, ap (◌∷◌ b) d, f)
  ]
  | inr u ↦
      let e' : has p (areas stop bs) ≡ true = ground arith in
      let (xs, q, ys, d, f) = split_at stop p bs e' in (b ∷ xs, q, ys, ap (◌∷◌ b) d, f)
]

-- An area's pointer belongs to no other area.
Laid-fresh : (low stop q : ℕ) (r : List (ℕ × ℕ)) → Laid low stop r → q ≤ low → has q r ≡ false
Laid-fresh low stop q [] l le = refl
Laid-fresh low stop q ((a, n) ∷ r) l le =
    rw (ne→== a q (omega (arith, l.0)), Laid-fresh (a + n) stop q r l.3 (omega (arith, l.0)))

Laid-above :
    (low stop : ℕ) (r t : List (ℕ × ℕ)) (p n : ℕ)
    → Laid low stop (r ++ (p, n) ∷ t)
    → low + sizeof_struct_mem ≤ p
Laid-above low stop [] t p n l = l.0
Laid-above low stop ((a, m) ∷ r) t p n l = omega (arith, l.0, Laid-above (a + m) stop r t p n l.3)

distinct :
    (low stop : ℕ) (r t : List (ℕ × ℕ)) (p n : ℕ)
    → Laid low stop (r ++ (p, n) ∷ t)
    → (has p r ≡ false) × (has p t ≡ false)
distinct low stop [] t p n l = (refl, Laid-fresh (p + n) stop p t l.3 (omega arith))
distinct low stop ((a, m) ∷ r) t p n l =
    let (e, f) = distinct (a + m) stop r t p n l.3 in
    (rw (ne→== a p (omega (arith, Laid-above (a + m) stop r t p n l.3))) e, f)

-- One area more, one area less.
has-insert :
    (o : Owned) (r t : List (ℕ × ℕ)) (p n : ℕ)
    → ((q : ℕ) → o q ≡ has q (r ++ t))
    → (q : ℕ) → own o (some p) q ≡ has q (r ++ (p, n) ∷ t)
has-insert o r t p n h q = ground (arith, h q, has-append q r t, has-append q r ((p, n) ∷ t))

has-remove :
    (o : Owned) (r t : List (ℕ × ℕ)) (p n : ℕ)
    → ((q : ℕ) → o q ≡ has q (r ++ (p, n) ∷ t))
    → (has p r ≡ false) × (has p t ≡ false)
    → (q : ℕ) → disown o p q ≡ has q (r ++ t)
has-remove o r t p n h d q = elim (Bool-cases (q == p)) [
  | inl e ↦ let e' : q ≡ p = ground arith in rw (e, has-append q r t, e', d.0) (sym d.1)
  | inr e ↦ ground (arith, h q, has-append q r t, has-append q r ((p, n) ∷ t))
]

malloc_Owns :
    (h h' : Heap) (o : Owned) (bs : List Block) (r : Option ℕ) (size : ℕ)
    → Owns h o bs
    → 0 < size
    → size ≤ 65532
    → mem_malloc h size ≡ ok (r, h')
    → (bs' : List Block) × Owns h' (own o r) bs'
malloc_Owns h h' o bs r size w pos le e = elim (mem_malloc-Inv h bs size w.valid pos le) [
  | inl (g, bs', p, room, left, right, run, v, fit, al, old, new) ↦
      let q : ◌≡◌ {A = Option ℕ × Heap} (some p, g) (r, h') = ok-injective (sym run ∙ e) in
      (
        bs',
        subst (λ (x : Option ℕ × Heap). Owns x.1 (own o x.0) bs') q
            (record {
              valid = v;
              owned = rw new (has-insert o left right p room (λ k. w.owned k ∙ ap (has k) old));
            }),
      )
  | inr (s, run, nofit) ↦
      let q : ◌≡◌ {A = Option ℕ × Heap} (none, record h { stats = s }) (r, h') =
        ok-injective (sym run ∙ e) in
      (
        bs,
        subst (λ (x : Option ℕ × Heap). Owns x.1 (own o x.0) bs) q
            (record {
              valid = record {
                chain = w.valid.chain;
                first = w.valid.first;
                end_used = w.valid.end_used;
                lowest_free = w.valid.lowest_free;
                apart = w.valid.apart;
              };
              owned = w.owned;
            }),
      )
]

free_Owns :
    (h h' : Heap) (o : Owned) (bs xs : List Block) (q : ℕ) (ys : List Block)
    → bs ≡ xs ++ block q true ∷ ys
    → Owns h o bs
    → mem_free h (some (q + sizeof_struct_mem)) ≡ ok h'
    → (bs' : List Block) × Owns h' (disown o (q + sizeof_struct_mem)) bs'
free_Owns h h' o bs xs q ys d w e =
    let v = subst (Inv h) d w.valid in
    let (g, bs', run, v', old, new) = mem_free-Inv h xs q ys v in
    let same : g ≡ h' = ok-injective (sym run ∙ e) in
    let laid =
      subst (Laid _ mem_size_aligned) (ap (areas mem_size_aligned) d ∙ old)
        (areas-Laid h.ram 0 mem_size_aligned bs w.valid.chain) in
    (
      bs',
      record {
        valid = subst (λ k. Inv k bs') same v';
        owned = rw new (
            has-remove o _ _ _ _ (λ k. w.owned k ∙ ap (has k) (ap (areas mem_size_aligned) d ∙ old))
              (distinct _ mem_size_aligned _ _ _ _ laid));
      },
    )

-- Whatever sequence of allocations and frees of owned pointers has run, the heap is valid, and the
-- owned pointers are those of its allocated areas.
pub Reach-Owns : {h : Heap} {o : Owned} → Reach h o → (bs : List Block) × Owns h o bs
Reach-Owns (boot ram) = (block 0 false ∷ [], record { valid = mem_init-Inv ram; owned = λ q. refl })
Reach-Owns (malloc size r pos le e) =
    let (bs, w) = Reach-Owns r in malloc_Owns _ _ _ bs _ size w pos le e
Reach-Owns (free {h} {h'} {o} p r own e) =
    let (bs, w) = Reach-Owns r in
    let (xs, q, ys, d, f) = split_at mem_size_aligned p bs (sym (w.owned p) ∙ own) in
    subst (λ k. (bs' : List Block) × Owns h' (disown o k) bs') f
      (free_Owns h h' o bs xs q ys d w (ap (λ k. mem_free h (some k)) f ∙ e))
