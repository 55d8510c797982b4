-- ===== src/Mem/Search.antt =====
-- The two loops of mem_malloc: first fit from the lowest free block, and the next lowest one.
use my_lwip_poc.Base.{
  ℕ, zero, suc, ◌+◌, ◌-◌, ◌*◌, ◌≤◌, ◌<◌, ◌≡◌, refl, Bool, true, false, List, [], ◌∷◌, not, inl, inr,
  ◌&&◌, ◌||◌, if◌then◌else◌, arith, ap, ne→==, ◌==◌, some, none, Option, ltb, leb, lt→ltb, le→ltb,
  Bool-cases, ltb→lt, ltb→le,
}
use my_lwip_poc.Mem.{mem_size_aligned, sizeof_struct_mem, Header, Ram, ok}
use my_lwip_poc.Mem.Malloc.{search_block, next_free}
use my_lwip_poc.Mem.Blocks.{Block, start, Seg, lowest, start-le-stop}

-- The first free block with room for `n` bytes behind its header.
abbrev pub first_fit : (stop n : ℕ) → List Block → Option ℕ
first_fit stop n [] = none
first_fit stop n (b ∷ bs) =
    if not b.used && leb (b.pos + sizeof_struct_mem + n) (start stop bs)
    then some b.pos
    else first_fit stop n bs

-- Too close to the end nothing fits.
pub first_fit-none :
    (ram : Ram) (prev stop n : ℕ) (bs : List Block)
    → Seg ram prev stop bs
    → stop ≤ start stop bs + n
    → first_fit stop n bs ≡ none
first_fit-none ram prev stop n [] s h = refl
first_fit-none ram prev stop n (b ∷ bs) s h =
    ground (arith, start-le-stop ram b.pos stop bs s.3, first_fit-none ram b.pos stop n bs s.3)

search_step :
    (fuel : ℕ) (ram : Ram) (n : ℕ) (p next : ℕ) (u : Bool) (r : Option ℕ)
    → (ram p).next ≡ next
    → (ram p).used ≡ u
    → p < mem_size_aligned - n
    → search_block fuel ram n next ≡ ok r
    → search_block (suc fuel) ram n p
      ≡ ok (if not u && leb (p + sizeof_struct_mem + n) next then some p else r)
unfolding search_block
search_step fuel ram n p next u r e e' lt ih =
    rw (lt→ltb p (mem_size_aligned - n) lt, e, e', ih)
      (go (not u && leb (p + sizeof_struct_mem + n) next))
  where
    go : (t : Bool) → (if t then ok (some p) else ok r) ≡ ok (if t then some p else r)
    go true = refl
    go false = refl

search_end :
    (fuel : ℕ) (ram : Ram) (n p : ℕ)
    → mem_size_aligned - n ≤ p
    → search_block (suc fuel) ram n p ≡ ok none
unfolding search_block
search_end fuel ram n p le = rw (le→ltb p (mem_size_aligned - n) le)

-- The search loop ends, and finds the first fit.
pub search_block-first_fit :
    (fuel : ℕ) (ram : Ram) (prev n : ℕ) (bs : List Block)
    → Seg ram prev mem_size_aligned bs
    → mem_size_aligned < start mem_size_aligned bs + 20 * fuel
    → search_block fuel ram n (start mem_size_aligned bs) ≡ ok (first_fit mem_size_aligned n bs)
search_block-first_fit zero ram prev n bs s f =
    absurd (omega (arith, start-le-stop ram prev mem_size_aligned bs s))
search_block-first_fit (suc fuel) ram prev n [] s f =
    search_end fuel ram n mem_size_aligned (omega arith)
search_block-first_fit (suc fuel) ram prev n (b ∷ bs) s f =
    elim (Bool-cases (ltb b.pos (mem_size_aligned - n))) [
      | inl t ↦
          search_step fuel ram n b.pos _ b.used _ (ap (λ (r : Header). r.next) s.0)
            (ap (λ (r : Header). r.used) s.0) (ltb→lt _ _ t)
            (search_block-first_fit fuel ram b.pos n bs s.3 (omega arith))
      | inr t ↦
          let le = ltb→le b.pos (mem_size_aligned - n) t in
          rw (first_fit-none ram prev mem_size_aligned n (b ∷ bs) s (omega arith))
            (search_end fuel ram n b.pos le)
    ]

-- What lies below the lowest free block is used, so the search may begin there.
pub lowest_suffix :
    (ram : Ram) (prev n : ℕ) (bs : List Block)
    → Seg ram prev mem_size_aligned bs
    → (q : ℕ) × (vs : List Block) × Seg ram q mem_size_aligned vs
      × (start mem_size_aligned vs ≡ lowest mem_size_aligned bs)
      × (first_fit mem_size_aligned n vs ≡ first_fit mem_size_aligned n bs)
lowest_suffix ram prev n [] s = (prev, [], tt, refl, refl)
lowest_suffix ram prev n (b ∷ bs) s = go b.used refl (lowest_suffix ram b.pos n bs s.3)
  where
    go :
        (u : Bool)
        → b.used ≡ u
        → ((q : ℕ) × (vs : List Block) × Seg ram q mem_size_aligned vs
            × (start mem_size_aligned vs ≡ lowest mem_size_aligned bs)
            × (first_fit mem_size_aligned n vs ≡ first_fit mem_size_aligned n bs))
        → (q : ℕ) × (vs : List Block) × Seg ram q mem_size_aligned vs
          × (start mem_size_aligned vs ≡ lowest mem_size_aligned (b ∷ bs))
          × (first_fit mem_size_aligned n vs ≡ first_fit mem_size_aligned n (b ∷ bs))
    go true e (q, vs, t, l, f) = (q, vs, t, rw e l, rw e f)
    go false e _ = (prev, b ∷ bs, s, rw e, refl)

next_free_step :
    (fuel : ℕ) (ram : Ram) (p next r : ℕ) (u : Bool)
    → (ram p).next ≡ next
    → (ram p).used ≡ u
    → p < mem_size_aligned
    → next_free fuel ram next ≡ ok r
    → next_free (suc fuel) ram p ≡ ok (if u then r else p)
unfolding next_free
next_free_step fuel ram p next r true e e' lt ih =
    rw (e, e', ne→== p mem_size_aligned (omega arith), ih)
next_free_step fuel ram p next r false e e' lt ih = rw e'

next_free_end :
    (fuel : ℕ) (ram : Ram)
    → (ram mem_size_aligned).used ≡ true
    → next_free (suc fuel) ram mem_size_aligned ≡ ok mem_size_aligned
unfolding next_free
next_free_end fuel ram e = rw e

-- The second loop ends, and finds the lowest free block.
pub next_free-lowest :
    (fuel : ℕ) (ram : Ram) (prev : ℕ) (bs : List Block)
    → Seg ram prev mem_size_aligned bs
    → (ram mem_size_aligned).used ≡ true
    → mem_size_aligned < start mem_size_aligned bs + 20 * fuel
    → next_free fuel ram (start mem_size_aligned bs) ≡ ok (lowest mem_size_aligned bs)
next_free-lowest zero ram prev bs s e f =
    absurd (omega (arith, start-le-stop ram prev mem_size_aligned bs s))
next_free-lowest (suc fuel) ram prev [] s e f = next_free_end fuel ram e
next_free-lowest (suc fuel) ram prev (b ∷ bs) s e f =
    next_free_step fuel ram b.pos _ _ b.used (ap (λ (r : Header). r.next) s.0)
      (ap (λ (r : Header). r.used) s.0)
      (omega (arith, start-le-stop ram b.pos mem_size_aligned bs s.3))
      (next_free-lowest fuel ram b.pos bs s.3 e (omega arith))

-- The assertion behind the second loop holds.
pub lowest-free :
    (ram : Ram) (prev : ℕ) (bs : List Block)
    → Seg ram prev mem_size_aligned bs
    → (lowest mem_size_aligned bs == mem_size_aligned
        || not (ram (lowest mem_size_aligned bs)).used)
      ≡ true
lowest-free ram prev [] s = refl
lowest-free ram prev (b ∷ bs) s = go b.used refl (lowest-free ram b.pos bs s.3)
  where
    go' : (t : Bool) → (t || true) ≡ true
    go' true = refl
    go' false = refl

    go :
        (u : Bool)
        → b.used ≡ u
        → (lowest mem_size_aligned bs == mem_size_aligned
            || not (ram (lowest mem_size_aligned bs)).used)
          ≡ true
        → (lowest mem_size_aligned (b ∷ bs) == mem_size_aligned
            || not (ram (lowest mem_size_aligned (b ∷ bs))).used)
          ≡ true
    go true e h = rw e h
    go false e h = rw (e, ap (λ (r : Header). r.used) s.0, e) (go' (b.pos == mem_size_aligned))
