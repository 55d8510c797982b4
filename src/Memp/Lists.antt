-- ===== src/Memp/Lists.antt =====
-- Lists of free elements: linked lists, counted.
use my_lwip_poc.Base.{
  ℕ, zero, suc, ◌+◌, ◌*◌, ◌%◌, ◌≤◌, ◌<◌, ◌≡◌, ◌≢◌, refl, List, [], ◌∷◌, ◌++◌, if◌then◌else◌, ◌==◌,
  arith, ap, sym, inl, inr, Bool-cases, ==_iff, ==_refl, ne→==,
}
use my_lwip_poc.Memp.{set_at}

-- From `p` the elements at these addresses are linked in this order.
abbrev pub Links : (ℕ → ℕ) → ℕ → List ℕ → Type 0
Links next p [] = p ≡ 0
Links next p (a ∷ ps) = (p ≡ a) × (a ≢ 0) × (a % 4 ≡ 0) × Links next (next a) ps

abbrev pub one_if : (a b : ℕ) → ℕ
one_if a b = if a == b then 1 else 0

abbrev pub count : ℕ → List ℕ → ℕ
count a [] = 0
count a (b ∷ bs) = one_if a b + count a bs

pub count-append : (a : ℕ) (ps qs : List ℕ) → count a (ps ++ qs) ≡ count a ps + count a qs
count-append a [] qs = omega arith
count-append a (p ∷ ps) qs = omega (arith, count-append a ps qs)

pub count_here : (a : ℕ) (bs : List ℕ) → count a (a ∷ bs) ≡ suc (count a bs)
count_here a bs = rw (==_refl a) (omega arith)

-- The elements of a pool: `n` of them of this size.
abbrev pub cells : (start size n : ℕ) → List ℕ
cells start size zero = []
cells start size (suc n) = start ∷ cells (start + size) size n

-- Not in the list, so not below its start, and so on.
pub count-below : (a start size n : ℕ) → a < start → count a (cells start size n) ≡ 0
count-below a start size zero h = refl
count-below a start size (suc n) h =
    rw (ne→== a start (omega (arith, h)))
      (omega (arith, count-below a (start + size) size n (omega (arith, h))))

pub count-above :
    (a start size n : ℕ) → 0 < size → start + n * size ≤ a → count a (cells start size n) ≡ 0
count-above a start size zero pos h = refl
count-above a start size (suc n) pos h =
    rw (ne→== a start (omega (arith, h, pos)))
      (omega (arith, count-above a (start + size) size n pos (omega (arith, h))))

pub count-cells : (a start size n : ℕ) → 0 < size → count a (cells start size n) ≤ 1
count-cells a start size zero pos = omega arith
count-cells a start size (suc n) pos = elim (Bool-cases (a == start)) [
  | inl t ↦
      let e : a ≡ start = (==_iff a start).0 t in
      rw t (omega (arith, count-below a (start + size) size n (omega (arith, e, pos))))
  | inr t ↦ rw t (omega (arith, count-cells a (start + size) size n pos))
]

-- A set_at to an element that is not in the list.
pub Links-frame :
    (next : ℕ → ℕ) (x v p : ℕ) (ps : List ℕ)
    → count x ps ≡ 0
    → Links next p ps
    → Links (set_at next x v) p ps
Links-frame next x v p [] c l = l
Links-frame next x v p (a ∷ ps) c l =
    let ne : x ≢ a =
      λ e. absurd (omega (arith, c, ap (λ k. count k (a ∷ ps)) e, count_here a ps)) in
    rw (ne→== a x (λ e. ne (sym e)))
      (l.0, l.1, l.2, Links-frame next x v (next a) ps (omega (arith, c)) l.3)

pub Links-push :
    (next : ℕ → ℕ) (x p : ℕ) (ps : List ℕ)
    → x ≢ 0
    → x % 4 ≡ 0
    → count x ps ≡ 0
    → Links next p ps
    → Links (set_at next x p) x (x ∷ ps)
Links-push next x p ps nz al c l = rw (==_refl x) (refl, nz, al, Links-frame next x p p ps c l)
