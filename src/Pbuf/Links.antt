-- ===== src/Pbuf/Links.antt =====
-- A chain of pbufs in memory, with its total lengths.
use my_lwip_poc.Base.{
  ℕ, ◌+◌, ◌≡◌, ◌≢◌, refl, List, [], ◌∷◌, ◌++◌, arith, ap, sym, ◌∙◌, ◌==◌, subst, Bool-cases, inl,
  inr, ==_iff, ne→==, ==_refl,
}
use my_lwip_poc.Pbuf.Chain.{Cell, Cells, write_cell}

abbrev pub total : Cells → List ℕ → ℕ
total c [] = 0
total c (a ∷ ps) = (c a).len + total c ps

abbrev pub Absent : ℕ → List ℕ → Type 0
Absent a [] = Unit
Absent a (b ∷ bs) = (b ≢ a) × Absent a bs

abbrev pub Disjoint : List ℕ → List ℕ → Type 0
Disjoint [] bs = Unit
Disjoint (a ∷ ps) bs = Absent a bs × Disjoint ps bs

-- From `p` the pbufs at these addresses are linked in this order; each one's tot_len is the sum of
-- the lengths from it on.
abbrev pub Chain : Cells → ℕ → List ℕ → Type 0
Chain c p [] = p ≡ 0
Chain c p (a ∷ ps) =
    (p ≡ a) × (a ≢ 0) × Absent a ps × ((c a).tot_len ≡ total c (a ∷ ps)) × Chain c (c a).next ps

pub total_frame :
    (c : Cells) (a : ℕ) (v : Cell) (ps : List ℕ)
    → Absent a ps
    → total (write_cell c a v) ps ≡ total c ps
total_frame c a v [] f = refl
total_frame c a v (b ∷ bs) f = rw (ne→== b a f.0, total_frame c a v bs f.1) refl

pub Chain-frame :
    (c : Cells) (p a : ℕ) (v : Cell) (ps : List ℕ)
    → Absent a ps
    → Chain c p ps
    → Chain (write_cell c a v) p ps
Chain-frame c p a v [] f l = l
Chain-frame c p a v (b ∷ bs) f l =
    rw (ne→== b a f.0, total_frame c a v bs f.1)
      (l.0, l.1, l.2, l.3, Chain-frame c (c b).next a v bs f.1 l.4)

pub total-append : (c : Cells) (ps bs : List ℕ) → total c (ps ++ bs) ≡ total c ps + total c bs
total-append c [] bs = omega arith
total-append c (a ∷ ps) bs = omega (arith, total-append c ps bs)

pub Absent-append : (a : ℕ) (bs ds : List ℕ) → Absent a bs → Absent a ds → Absent a (bs ++ ds)
Absent-append a [] ds f g = g
Absent-append a (b ∷ bs) ds f g = (f.0, Absent-append a bs ds f.1 g)

-- The same links and lengths; the reference counts may differ.
abbrev pub Alike : Cells → Cells → Type 0
Alike c d =
    (a : ℕ)
    → ((d a).next ≡ (c a).next)
      × ((d a).tot_len ≡ (c a).tot_len)
      × ((d a).len ≡ (c a).len)
      × ((d a).kind ≡ (c a).kind)

pub total_alike :
    (c d : Cells) (ps : List ℕ) → ((a : ℕ) → (d a).len ≡ (c a).len) → total d ps ≡ total c ps
total_alike c d [] f = refl
total_alike c d (a ∷ ps) f = omega (arith, f a, total_alike c d ps f)

pub Chain-Alike : (c d : Cells) (p : ℕ) (ps : List ℕ) → Alike c d → Chain c p ps → Chain d p ps
Chain-Alike c d p [] f l = l
Chain-Alike c d p (a ∷ ps) f l = (
  l.0,
  l.1,
  l.2,
  (f a).1 ∙ l.3 ∙ sym (total_alike c d (a ∷ ps) (λ b. (f b).2)),
  subst (λ k. Chain d k ps) (sym (f a).0) (Chain-Alike c d (c a).next ps f l.4),
)

pub Chain-cons :
    (d : Cells) (x t : ℕ) (ys : List ℕ)
    → x ≢ 0
    → Absent x ys
    → (d x).next ≡ t
    → (d x).tot_len ≡ (d x).len + total d ys
    → Chain d t ys
    → Chain d x (x ∷ ys)
Chain-cons d x t ys nz f e s l = (refl, nz, f, s, subst (λ k. Chain d k ys) (sym e) l)

pub write_here : (c : Cells) (x : ℕ) (v : Cell) → write_cell c x v x ≡ v
write_here c x v = rw (==_refl x) refl

pub write_other : (c : Cells) (x a : ℕ) (v : Cell) → a ≢ x → write_cell c x v a ≡ c a
write_other c x a v ne = rw (ne→== a x ne) refl

-- A field that a write keeps at the place written is kept everywhere.
pub write_keeps :
    {A : Type 0} (g : Cell → A) (c : Cells) (x : ℕ) (v : Cell)
    → g v ≡ g (c x)
    → (a : ℕ) → g (write_cell c x v a) ≡ g (c a)
write_keeps g c x v e a = elim (Bool-cases (a == x)) [
  | inl t ↦ let same : a ≡ x = (==_iff a x).0 t in rw t (e ∙ ap (λ k. g (c k)) (sym same))
  | inr t ↦ rw t refl
]
