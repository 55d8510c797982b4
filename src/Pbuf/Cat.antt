-- ===== src/Pbuf/Cat.antt =====
-- pbuf_cat and pbuf_chain on the chains in memory.
use my_lwip_poc.Base.{
  ℕ, zero, suc, ◌+◌, ◌<◌, ◌≡◌, ◌≢◌, refl, List, [], ◌∷◌, ◌++◌, arith, ap, sym, ◌∙◌, ne→==, ==_refl,
  ==_of_eq, length, subst,
}
use my_lwip_poc.Base.Word.{u16_mod, add16}
use my_lwip_poc.Base.Outcome.{ok}
use my_lwip_poc.Pbuf.Chain.{Cell, Cells, write_cell, add_total, cat_loop, pbuf_cat}
use my_lwip_poc.Pbuf.Links.{
  total, Absent, Disjoint, Chain, total_frame, Chain-frame, total-append, Absent-append,
  total_alike, Chain-cons, write_here, write_other, write_keeps,
}

-- What joining two chains comes to: the run, the joined chain, and what stays of every pbuf.
pub record Joined (fuel : ℕ) (c : Cells) (p t : ℕ) (xs ys : List ℕ) : Type 0 where
  pub after : Cells
  pub run : cat_loop fuel c p t ≡ ok after
  pub chain : Chain after p (xs ++ ys)
  pub lens : (a : ℕ) → ((after a).len ≡ (c a).len) × ((after a).ref ≡ (c a).ref)
  pub others : (a : ℕ) → Absent a xs → after a ≡ c a

-- The last pbuf of the first chain is linked to the tail.
abbrev linked : Cells → (x n t : ℕ) → Cells
linked c x n t =
    let longer = add_total c x n in write_cell longer x (record (longer x) { next = t })

cat_end :
    (fuel : ℕ) (c : Cells) (x t n : ℕ)
    → (c x).next ≡ 0
    → (c x).tot_len ≡ (c x).len
    → (c t).tot_len ≡ n
    → cat_loop (suc fuel) c x t ≡ ok (linked c x n t)
unfolding cat_loop
cat_end fuel c x t n e l f =
    rw (==_of_eq (c x).next 0 e, ==_of_eq (c x).tot_len (c x).len l, f) refl

cat_step :
    (fuel : ℕ) (c : Cells) (x t n : ℕ)
    → (c x).next ≢ 0
    → (c t).tot_len ≡ n
    → cat_loop (suc fuel) c x t ≡ cat_loop fuel (add_total c x n) (c x).next t
unfolding cat_loop
cat_step fuel c x t n ne f = rw (ne→== (c x).next 0 ne, f) refl

-- The cell at `x` when it is the last one.
abbrev joint : Cell → (n t : ℕ) → Cell
joint v n t = record v { next = t; tot_len = add16 v.tot_len n }

linked_here : (c : Cells) (x n t : ℕ) → linked c x n t x ≡ joint (c x) n t
linked_here c x n t = rw (==_refl x) refl

linked_other : (c : Cells) (x n t a : ℕ) → a ≢ x → linked c x n t a ≡ c a
linked_other c x n t a ne = rw (ne→== a x ne) refl

linked_lens :
    (c : Cells) (x n t a : ℕ)
    → ((linked c x n t a).len ≡ (c a).len) × ((linked c x n t a).ref ≡ (c a).ref)
linked_lens c x n t a =
    let v = record (c x) { tot_len = add16 (c x).tot_len n } in
    let longer = add_total c x n in
    let u = record (longer x) { next = t } in
    (
      write_keeps (λ (k : Cell). k.len) longer x u refl a
          ∙ write_keeps (λ (k : Cell). k.len) c x v refl a,
      write_keeps (λ (k : Cell). k.ref) longer x u refl a
          ∙ write_keeps (λ (k : Cell). k.ref) c x v refl a,
    )

linked-Chain :
    (c : Cells) (x n t : ℕ) (ys : List ℕ)
    → x ≢ 0
    → Absent x ys
    → add16 (c x).tot_len n ≡ (c x).len + total c ys
    → Chain c t ys
    → Chain (linked c x n t) x (x ∷ ys)
linked-Chain c x n t ys nz d e m =
    let longer = add_total c x n in
    let here = linked_here c x n t in
    let same : total (linked c x n t) ys ≡ total c ys =
      total_alike c (linked c x n t) ys (λ a. (linked_lens c x n t a).0) in
    Chain-cons (linked c x n t) x t ys nz d (ap (λ (v : Cell). v.next) here)
      (ap (λ (v : Cell). v.tot_len) here
        ∙ e
        ∙ sym (ap (λ k. k + total c ys) (ap (λ (v : Cell). v.len) here))
        ∙ ap (◌+◌ (linked c x n t x).len) (sym same))
      (Chain-frame longer t x (record (longer x) { next = t }) ys d
        (Chain-frame c t x (record (c x) { tot_len = add16 (c x).tot_len n }) ys d m))

cat_last :
    (fuel : ℕ) (c : Cells) (p t x : ℕ) (ys : List ℕ)
    → Chain c p (x ∷ [])
    → Chain c t ys
    → (c t).tot_len ≡ total c ys
    → Absent x ys
    → (c x).len + total c ys < u16_mod
    → Joined (suc fuel) c p t (x ∷ []) ys
cat_last fuel c p t x ys l m n d w = record {
  after = linked c x (total c ys) t;
  run =
      ap (λ k. cat_loop (suc fuel) c k t) l.0
      ∙ cat_end fuel c x t (total c ys) l.4 (omega (arith, l.3)) n;
  chain =
      subst (λ k. Chain (linked c x (total c ys) t) k (x ∷ ys)) (sym l.0)
        (linked-Chain c x (total c ys) t ys l.1 d (omega (arith, l.3)) m);
  lens = linked_lens c x (total c ys) t;
  others = λ a f. linked_other c x (total c ys) t a (λ e. f.0 (sym e));
}

-- A pbuf before the last one: its total length grows, and the loop goes on.
cat_more :
    (fuel : ℕ) (c : Cells) (p t x y n : ℕ) (xs ys : List ℕ)
    → Chain c p (x ∷ y ∷ xs)
    → (c t).tot_len ≡ n
    → total c ys ≡ n
    → Absent x ys
    → total c (x ∷ y ∷ xs) + n < u16_mod
    → Joined fuel (add_total c x n) (c x).next t (y ∷ xs) ys
    → Joined (suc fuel) c p t (x ∷ y ∷ xs) ys
cat_more fuel c p t x y n xs ys l e f d w j =
    let v = record (c x) { tot_len = add16 (c x).tot_len n } in
    let here : j.after x ≡ v = j.others x l.2 ∙ write_here c x v in
    let lens : (a : ℕ) → ((j.after a).len ≡ (c a).len) × ((j.after a).ref ≡ (c a).ref) = λ a. (
      (j.lens a).0 ∙ write_keeps (λ (k : Cell). k.len) c x v refl a,
      (j.lens a).1 ∙ write_keeps (λ (k : Cell). k.ref) c x v refl a,
    ) in
    let sum : total j.after (y ∷ xs ++ ys) ≡ total c (y ∷ xs) + n =
      total_alike c j.after (y ∷ xs ++ ys) (λ a. (lens a).0)
      ∙ total-append c (y ∷ xs) ys
      ∙ ap (λ k. total c (y ∷ xs) + k) f in
    record {
      after = j.after;
      run =
          ap (λ k. cat_loop (suc fuel) c k t) l.0
          ∙ cat_step fuel c x t n (λ z. l.4.1 (sym l.4.0 ∙ z)) e
          ∙ j.run;
      chain =
          subst (λ k. Chain j.after k (x ∷ y ∷ xs ++ ys)) (sym l.0)
            (Chain-cons j.after x (c x).next (y ∷ xs ++ ys) l.1 (Absent-append x (y ∷ xs) ys l.2 d)
              (ap (λ (k : Cell). k.next) here)
              (ap (λ (k : Cell). k.tot_len) here ∙ omega (arith, l.3, w, sum, (lens x).0)) j.chain);
      lens = lens;
      others = λ a g. j.others a g.1 ∙ write_other c x a v (λ z. g.0 (sym z));
    }

cat_loop-Joined :
    (fuel : ℕ) (c : Cells) (p t x : ℕ) (xs ys : List ℕ)
    → Chain c p (x ∷ xs)
    → Chain c t ys
    → (c t).tot_len ≡ total c ys
    → Disjoint (x ∷ xs) ys
    → Absent t (x ∷ xs)
    → total c (x ∷ xs) + total c ys < u16_mod
    → length xs < fuel
    → Joined fuel c p t (x ∷ xs) ys
cat_loop-Joined zero c p t x xs ys l m n d b w f = absurd (omega arith)
cat_loop-Joined (suc fuel) c p t x [] ys l m n d b w f =
    cat_last fuel c p t x ys l m n d.0 (omega arith)
cat_loop-Joined (suc fuel) c p t x (y ∷ xs) ys l m n d b w f =
    let k = total c ys in
    let v = record (c x) { tot_len = add16 (c x).tot_len k } in
    let longer = add_total c x k in
    let same : total longer ys ≡ k = total_frame c x v ys d.0 in
    cat_more fuel c p t x y k xs ys l n refl d.0 w (
      cat_loop-Joined fuel longer (c x).next t y xs ys
        (Chain-frame c (c x).next x v (y ∷ xs) l.2 l.4) (Chain-frame c t x v ys d.0 m)
        (ap (λ (u : Cell). u.tot_len) (write_other c x t v (λ z. b.0 (sym z))) ∙ n ∙ sym same) d.1
        b.1 (omega (arith, same, total_frame c x v (y ∷ xs) l.2)) (omega arith))

Disjoint-Absent : (xs : List ℕ) (y : ℕ) (ys : List ℕ) → Disjoint xs (y ∷ ys) → Absent y xs
Disjoint-Absent [] y ys d = tt
Disjoint-Absent (x ∷ xs) y ys d = ((λ e. d.0.0 (sym e)), Disjoint-Absent xs y ys d.1)

-- pbuf_cat joins two chains that share no pbuf, whose bytes together are fewer than 0x10000: it
-- aborts on no assertion, the result is one chain whose total lengths are right, and no length or
-- reference count has changed, nor anything of any other pbuf.
pub pbuf_cat-Chain :
    (fuel : ℕ) (c : Cells) (h t x y : ℕ) (xs ys : List ℕ)
    → Chain c h (x ∷ xs)
    → Chain c t (y ∷ ys)
    → Disjoint (x ∷ xs) (y ∷ ys)
    → total c (x ∷ xs) + total c (y ∷ ys) < u16_mod
    → length xs < fuel
    → (c' : Cells) × (pbuf_cat fuel c h t ≡ ok c')
      × Chain c' h ((x ∷ xs) ++ (y ∷ ys))
      × ((a : ℕ) → ((c' a).len ≡ (c a).len) × ((c' a).ref ≡ (c a).ref))
      × ((a : ℕ) → Absent a (x ∷ xs) → c' a ≡ c a)
unfolding pbuf_cat
pbuf_cat-Chain fuel c h t x y xs ys l m d w f =
    let total_at : (c t).tot_len ≡ total c (y ∷ ys) = ap (λ k. (c k).tot_len) m.0 ∙ m.3 in
    let out : Absent t (x ∷ xs) =
      subst (λ k. Absent k (x ∷ xs)) (sym m.0) (Disjoint-Absent (x ∷ xs) y ys d) in
    let j = cat_loop-Joined fuel c h t x xs (y ∷ ys) l m total_at d out w f in
    (
      j.after,
      rw (ne→== h 0 (λ z. l.1 (sym l.0 ∙ z)), ne→== t 0 (λ z. m.1 (sym m.0 ∙ z))) j.run,
      j.chain,
      j.lens,
      j.others,
    )
