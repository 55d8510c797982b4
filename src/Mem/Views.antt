-- ===== src/Mem/Views.antt =====
-- The lists of blocks around a place: areas, lowest free block, and alternation.
use my_lwip_poc.Base.{
  ℕ, ◌≤◌, ◌<◌, ◌≡◌, refl, Bool, true, false, List, [], ◌∷◌, ◌++◌, not, ◌⊎◌, inl, inr, arith, ap,
}
use my_lwip_poc.Mem.{Ram}
use my_lwip_poc.Mem.Blocks.{Block, start, last_pos, Seg, lowest, Apart, areas, start-le-stop}

pub start-append :
    (stop : ℕ) (xs ys : List Block) → start stop (xs ++ ys) ≡ start (start stop ys) xs
start-append stop [] ys = refl
start-append stop (b ∷ xs) ys = refl

pub areas-append :
    (stop : ℕ) (xs ys : List Block)
    → areas stop (xs ++ ys) ≡ areas (start stop ys) xs ++ areas stop ys
areas-append stop [] ys = refl
areas-append stop (b ∷ xs) ys = ground (arith, areas-append stop xs ys, start-append stop xs ys)

pub lowest-append :
    (stop : ℕ) (xs ys : List Block) → lowest stop (xs ++ ys) ≡ lowest (lowest stop ys) xs
lowest-append stop [] ys = refl
lowest-append stop (b ∷ xs) ys = ground (arith, lowest-append stop xs ys)

-- Either all blocks are used, or the lowest free one lies below the end.
pub lowest_cases :
    (ram : Ram) (prev stop : ℕ) (xs : List Block)
    → Seg ram prev stop xs
    → ((s : ℕ) → lowest s xs ≡ s) ⊎ ((v : ℕ) × (v < stop) × ((s : ℕ) → lowest s xs ≡ v))
lowest_cases ram prev stop [] s = inl (λ t. refl)
lowest_cases ram prev stop (b ∷ xs) s = go b.used refl (lowest_cases ram b.pos stop xs s.3)
  where
    go :
        (u : Bool)
        → b.used ≡ u
        → ((t : ℕ) → lowest t xs ≡ t) ⊎ ((v : ℕ) × (v < stop) × ((t : ℕ) → lowest t xs ≡ v))
        → ((t : ℕ) → lowest t (b ∷ xs) ≡ t)
          ⊎ ((v : ℕ) × (v < stop) × ((t : ℕ) → lowest t (b ∷ xs) ≡ v))
    go false e r = inr (b.pos, omega (arith, start-le-stop ram b.pos stop xs s.3), λ t. rw e)
    go true e (inl f) = inl (λ t. rw e (f t))
    go true e (inr (v, lt, f)) = inr (v, lt, λ t. rw e (f t))

pub lowest-le-stop :
    (ram : Ram) (prev stop : ℕ) (xs : List Block) → Seg ram prev stop xs → lowest stop xs ≤ stop
lowest-le-stop ram prev stop xs s = elim (lowest_cases ram prev stop xs s) [
  | inl g ↦ omega (arith, g stop)
  | inr (v, lt, g) ↦ omega (arith, g stop)
]

pub start-le-lowest :
    (ram : Ram) (prev stop : ℕ) (bs : List Block)
    → Seg ram prev stop bs
    → start stop bs ≤ lowest stop bs
start-le-lowest ram prev stop [] s = omega arith
start-le-lowest ram prev stop (b ∷ bs) s = ground (arith, start-le-lowest ram b.pos stop bs s.3)

pub last_pos-lt :
    (ram : Ram) (prev stop : ℕ) (b : Block) (xs : List Block)
    → Seg ram prev stop (b ∷ xs)
    → last_pos prev (b ∷ xs) < stop
last_pos-lt ram prev stop b [] s = omega arith
last_pos-lt ram prev stop b (c ∷ xs) s = last_pos-lt ram b.pos stop c xs s.3

-- Whether the last block is free, `free` telling it of the one before the list.
abbrev pub free_after : Bool → List Block → Bool
free_after free [] = free
free_after free (b ∷ bs) = free_after (not b.used) bs

pub Apart-left : (f : Bool) (xs ys : List Block) → Apart f (xs ++ ys) → Apart f xs
Apart-left f [] ys a = tt
Apart-left f (b ∷ xs) ys a = (a.0, Apart-left (not b.used) xs ys a.1)

pub Apart-right : (f : Bool) (xs ys : List Block) → Apart f (xs ++ ys) → Apart (free_after f xs) ys
Apart-right f [] ys a = a
Apart-right f (b ∷ xs) ys a = Apart-right (not b.used) xs ys a.1

pub Apart-append :
    (f : Bool) (xs ys : List Block) → Apart f xs → Apart (free_after f xs) ys → Apart f (xs ++ ys)
Apart-append f [] ys a a' = a'
Apart-append f (b ∷ xs) ys a a' = (a.0, Apart-append (not b.used) xs ys a.1 a')

-- The last block of a list.
pub snoc_cases :
    (xs : List Block) → (xs ≡ []) ⊎ ((ws : List Block) × (a : Block) × (xs ≡ ws ++ a ∷ []))
snoc_cases [] = inl refl
snoc_cases (b ∷ xs) = inr (go (snoc_cases xs))
  where
    go :
        (xs ≡ []) ⊎ ((ws : List Block) × (a : Block) × (xs ≡ ws ++ a ∷ []))
        → (ws : List Block) × (a : Block) × (b ∷ xs ≡ ws ++ a ∷ [])
    go (inl e) = ([], b, ap (◌∷◌ b) e)
    go (inr (ws, a, e)) = (b ∷ ws, a, ap (◌∷◌ b) e)

pub last_pos-snoc : (q : ℕ) (ws : List Block) (a : Block) → last_pos q (ws ++ a ∷ []) ≡ a.pos
last_pos-snoc q [] a = refl
last_pos-snoc q (b ∷ ws) a = last_pos-snoc b.pos ws a

pub free_after-snoc :
    (f : Bool) (ws : List Block) (a : Block) → free_after f (ws ++ a ∷ []) ≡ not a.used
free_after-snoc f [] a = refl
free_after-snoc f (b ∷ ws) a = free_after-snoc (not b.used) ws a
