-- ===== src/Mem/Links.antt =====
-- The three ways in which mem.c relinks headers: it marks a block, joins it with the next, splits it.
use my_lwip_poc.Base.{
  ℕ, ◌+◌, ◌%◌, ◌≤◌, ◌<◌, ◌≡◌, refl, Bool, true, false, List, [], ◌∷◌, ◌++◌, not, if◌then◌else◌,
  ◌==◌, ne→==, ==_refl, arith, ap, subst, sym, subst, sym,
}
use my_lwip_poc.Mem.{header, Header, Ram, write, set_next, set_prev}
use my_lwip_poc.Mem.Blocks.{
  Block, block, start, last_pos, Seg, start-le-stop, Seg-append, Seg-left, Seg-right,
  Seg-write_above, Seg-write_below,
}

module _ (ram : Ram) (prev stop : ℕ) (xs : List Block) where
  -- What the header of the block behind `xs` says.
  pub header_at :
      (b : Block) (ys : List Block)
      → Seg ram prev stop (xs ++ b ∷ ys)
      → (ram b.pos ≡ header (start stop ys) (last_pos prev xs) b.used)
        × (b.pos + 20 ≤ start stop ys)
        × (b.pos % 4 ≡ 0)
        × Seg ram b.pos stop ys
  header_at b ys s = Seg-right ram prev stop xs (b ∷ ys) s

  -- Marking a block.
  pub Seg-mark :
      (p : ℕ) (u v : Bool) (ys : List Block)
      → Seg ram prev stop (xs ++ block p u ∷ ys)
      → Seg
          (write ram p (header (start stop ys) (last_pos prev xs) v))
          prev
          stop
          (xs ++ block p v ∷ ys)
  Seg-mark p u v ys s =
      let (e, size, al, rest) = header_at (block p u) ys s in
      let h = header (start stop ys) (last_pos prev xs) v in
      Seg-append (write ram p h) prev stop xs (block p v ∷ ys)
        (Seg-write_above ram prev p p h xs (omega arith)
          (Seg-left ram prev stop xs (block p u ∷ ys) s))
        (rw (==_refl p) refl, size, al, Seg-write_below ram p stop p h ys (omega arith) rest)

-- A new predecessor for the first block of a segment, or a write at its end if it is empty.
pub Seg-set_prev :
    (ram : Ram) (prev stop q : ℕ) (ys : List Block)
    → Seg ram prev stop ys
    → Seg (set_prev ram (start stop ys) q) q stop ys
Seg-set_prev ram prev stop q [] s = tt
Seg-set_prev ram prev stop q (b ∷ bs) s = (
  rw (==_refl b.pos) (ap (λ (r : Header). header r.next q r.used) s.0),
  s.1,
  s.2,
  Seg-write_below ram b.pos stop b.pos _ bs (omega arith) s.3,
)

-- The same where the source spares the end of the heap.
pub Seg-relink :
    (ram : Ram) (prev stop q : ℕ) (ys : List Block)
    → Seg ram prev stop ys
    → Seg (if not (start stop ys == stop) then set_prev ram (start stop ys) q else ram) q stop ys
Seg-relink ram prev stop q [] s = tt
Seg-relink ram prev stop q (b ∷ bs) s =
    subst (λ t. Seg (if not t then set_prev ram b.pos q else ram) q stop (b ∷ bs))
      (sym (ne→== b.pos stop (omega (arith, start-le-stop ram b.pos stop bs s.3))))
      (Seg-set_prev ram prev stop q (b ∷ bs) s)

-- A write that may or may not happen.
Seg-when_above :
    (ram : Ram) (prev stop a : ℕ) (v : Header) (t : Bool) (bs : List Block)
    → stop ≤ a
    → Seg ram prev stop bs
    → Seg (if t then write ram a v else ram) prev stop bs
Seg-when_above ram prev stop a v true bs le s = Seg-write_above ram prev stop a v bs le s
Seg-when_above ram prev stop a v false bs le s = s

read_when :
    (ram : Ram) (a p : ℕ) (v : Header) (t : Bool)
    → p < a
    → (if t then write ram a v else ram) p ≡ ram p
read_when ram a p v true lt = rw (ne→== p a (omega arith))
read_when ram a p v false lt = refl

module _ (ram : Ram) (prev stop : ℕ) (xs : List Block) where
  -- Joining a block with the next one, as plug_holes does.
  pub Seg-join :
      (p : ℕ) (u : Bool) (c : Block) (ys : List Block)
      → Seg ram prev stop (xs ++ block p u ∷ c ∷ ys)
      → let after = start stop ys in
        Seg (set_prev (set_next ram p after) after p) prev stop (xs ++ block p u ∷ ys)
  Seg-join p u c ys s =
      let (e, size, al, (e', size', al', rest)) =
        header_at ram prev stop xs (block p u) (c ∷ ys) s in
      let after : ℕ = start stop ys in
      let ram' : Ram = set_next ram p after in
      Seg-append (set_prev ram' after p) prev stop xs (block p u ∷ ys)
        (Seg-write_above ram' prev p after _ xs (omega arith) (
          Seg-write_above ram prev p p _ xs (omega arith)
            (Seg-left ram prev stop xs (block p u ∷ c ∷ ys) s)))
        (
          rw (ne→== p after (omega arith), ==_refl p)
              (ap (λ (r : Header). header after r.prev r.used) e),
          omega arith,
          al,
          Seg-set_prev ram' c.pos stop p ys
              (Seg-write_below ram c.pos stop p _ ys (omega arith) rest),
        )

  -- Putting the blocks at `p` and `p2` between two segments, as mem_malloc and mem_trim do.
  pub Seg-splice :
      (p p2 q : ℕ) (v : Bool) (ys : List Block)
      → p + 20 ≤ p2
      → p2 + 20 ≤ start stop ys
      → p % 4 ≡ 0
      → p2 % 4 ≡ 0
      → Seg ram prev p xs
      → Seg ram q stop ys
      → let after = start stop ys in
        let split =
          write (write ram p2 (header after p false)) p (header p2 (last_pos prev xs) v) in
        Seg
          (if not (after == stop) then set_prev split after p2 else split)
          prev
          stop
          (xs ++ block p v ∷ block p2 false ∷ ys)
  Seg-splice p p2 q v ys le le2 al al2 left rest =
      let after : ℕ = start stop ys in
      let h2 = header after p false in
      let h1 = header p2 (last_pos prev xs) v in
      let split : Ram = write (write ram p2 h2) p h1 in
      let t : Bool = not (after == stop) in
      Seg-append _ prev stop xs (block p v ∷ block p2 false ∷ ys)
        (Seg-when_above split prev p after _ t xs (omega arith) (
          Seg-write_above _ prev p p h1 xs (omega arith)
            (Seg-write_above ram prev p p2 h2 xs (omega arith) left)))
        (
          rw (read_when split after p _ t (omega arith), ==_refl p) refl,
          le,
          al,
          (
            rw (read_when split after p2 _ t (omega arith), ne→== p2 p (omega arith), ==_refl p2)
                refl,
            le2,
            al2,
            Seg-relink split q stop p2 ys (
                Seg-write_below _ q stop p h1 ys (omega arith)
                  (Seg-write_below ram q stop p2 h2 ys (omega arith) rest)),
          ),
        )

  -- Splitting a block at `p2`.
  pub Seg-split :
      (p p2 : ℕ) (u v : Bool) (ys : List Block)
      → p + 20 ≤ p2
      → p2 + 20 ≤ start stop ys
      → p2 % 4 ≡ 0
      → Seg ram prev stop (xs ++ block p u ∷ ys)
      → let after = start stop ys in
        let split =
          write (write ram p2 (header after p false)) p (header p2 (last_pos prev xs) v) in
        Seg
          (if not (after == stop) then set_prev split after p2 else split)
          prev
          stop
          (xs ++ block p v ∷ block p2 false ∷ ys)
  Seg-split p p2 u v ys le le2 al2 s =
      let (e, size, al, rest) = header_at ram prev stop xs (block p u) ys s in
      Seg-splice p p2 p v ys le le2 al al2 (Seg-left ram prev stop xs (block p u ∷ ys) s) rest
