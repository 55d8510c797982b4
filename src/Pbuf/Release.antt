-- ===== src/Pbuf/Release.antt =====
-- pbuf_free on the chains in memory.
use my_lwip_poc.Base.{
  ℕ, zero, suc, ◌+◌, ◌-◌, ◌%◌, ◌<◌, ◌≡◌, ◌≢◌, refl, List, [], ◌∷◌, ◌++◌, arith, ap, sym, ◌∙◌, ◌==◌,
  ltb, ne→==, ==_refl, ==_of_eq, lt→ltb, ltb→lt, ltb→le, length, none, subst, Bool-cases, inl, inr,
  ==_iff, All,
}
use my_lwip_poc.Base.Word.{u8_mod, u16_mod, sub16}
use my_lwip_poc.Base.Outcome.{Outcome, ok}
use my_lwip_poc.Pbuf.Chain.{Cell, Cells, write_cell, free_loop, pbuf_free}
use my_lwip_poc.Pbuf.Links.{Absent, Chain, Alike, Chain-Alike, write_here, write_other}

-- The first address of a chain, 0 for none.
abbrev pub first : List ℕ → ℕ
first [] = 0
first (a ∷ ps) = a

-- The addresses in front of a list, turned round.
abbrev pub onto : List ℕ → List ℕ → List ℕ
onto [] log = log
onto (a ∷ ps) log = onto ps (a ∷ log)

-- Where the loop stops: at the end, or at a pbuf that is still referenced, whose count is one less.
abbrev pub Stopped : (c d : Cells) → List ℕ → Type 0
Stopped c d [] = Unit
Stopped c d (r ∷ rs) = (1 < (c r).ref) × ((d r).ref ≡ (c r).ref - 1)

-- References that are there and have not wrapped, on pbufs that are not custom.
abbrev pub Counted : Cells → List ℕ → Type 0
Counted c ps = All (λ (a : ℕ). (0 < (c a).ref) × ((c a).ref < u16_mod) × ((c a).custom ≡ none)) ps

module _ (custom_free_function : (f p : ℕ) → Cells → Outcome Cells) where
  -- What a free comes to: the pbufs that are given back, the rest of the chain, and the memory after.
  pub record Released (fuel : ℕ) (c : Cells) (p count : ℕ) (log ps : List ℕ) : Type 0 where
    pub gone : List ℕ
    pub rest : List ℕ
    pub after : Cells
    pub run :
        free_loop custom_free_function fuel c p count log
        ≡ ok (after, (count + length gone) % u8_mod, onto gone log)
    pub parts : ps ≡ gone ++ rest
    pub ones : All (λ (a : ℕ). (c a).ref ≡ 1) gone
    pub stopped : Stopped c after rest
    pub chain : Chain after (first rest) rest
    pub alike : Alike c after
    pub others : (a : ℕ) → Absent a gone → first rest ≢ a → after a ≡ c a

  abbrev lowered : Cells → ℕ → Cells
  lowered c p = write_cell c p (record (c p) { ref = sub16 (c p).ref 1 })

  lowered-Alike : (c : Cells) (p : ℕ) → Alike c (lowered c p)
  lowered-Alike c p a =
      let v = record (c p) { ref = sub16 (c p).ref 1 } in
      elim (Bool-cases (a == p)) [
        | inl t ↦
            let same : a ≡ p = (==_iff a p).0 t in rw same (rw (==_refl p) (refl, refl, refl, refl))
        | inr t ↦ rw t (refl, refl, refl, refl)
      ]

  free_end :
      (fuel : ℕ) (c : Cells) (count : ℕ) (log : List ℕ)
      → free_loop custom_free_function (suc fuel) c 0 count log ≡ ok (c, count, log)
  unfolding free_loop
  free_end fuel c count log = refl

  free_stop :
      (fuel : ℕ) (c : Cells) (p count : ℕ) (log : List ℕ)
      → p ≢ 0
      → 1 < (c p).ref
      → (c p).ref < u16_mod
      → free_loop custom_free_function (suc fuel) c p count log ≡ ok (lowered c p, count, log)
  unfolding free_loop
  free_stop fuel c p count log nz lt w =
      rw (ne→== p 0 nz, lt→ltb 0 (c p).ref (omega arith), ne→== (sub16 (c p).ref 1) 0 (omega arith))
        refl

  free_step :
      (fuel : ℕ) (c : Cells) (p count : ℕ) (log : List ℕ)
      → p ≢ 0
      → (c p).ref ≡ 1
      → (c p).custom ≡ none
      → free_loop custom_free_function (suc fuel) c p count log
        ≡ free_loop custom_free_function fuel
            (lowered c p)
            (c p).next
            ((count + 1) % u8_mod)
            (p ∷ log)
  unfolding free_loop
  free_step fuel c p count log nz e plain =
      let z : sub16 (c p).ref 1 ≡ 0 = omega (arith, e) in
      rw
        (
          ne→== p 0 nz,
          lt→ltb 0 (c p).ref (omega (arith, e)),
          ==_of_eq (sub16 (c p).ref 1) 0 z,
          plain,
        )
        refl

  Counted-frame :
      (c : Cells) (a : ℕ) (v : Cell) (ps : List ℕ)
      → Absent a ps
      → Counted c ps
      → Counted (write_cell c a v) ps
  Counted-frame c a v [] f h = tt
  Counted-frame c a v (b ∷ bs) f h = (rw (ne→== b a f.0) h.0, Counted-frame c a v bs f.1 h.1)

  Absent-parts : (x : ℕ) (ps qs : List ℕ) → Absent x (ps ++ qs) → Absent x ps × Absent x qs
  Absent-parts x [] qs f = (tt, f)
  Absent-parts x (p ∷ ps) qs f = let r = Absent-parts x ps qs f.1 in ((f.0, r.0), r.1)

  ones-lowered :
      (c : Cells) (x : ℕ) (ps : List ℕ)
      → Absent x ps
      → All (λ (a : ℕ). (lowered c x a).ref ≡ 1) ps
      → All (λ (a : ℕ). (c a).ref ≡ 1) ps
  ones-lowered c x [] f h = tt
  ones-lowered c x (p ∷ ps) f h =
      let v = record (c x) { ref = sub16 (c x).ref 1 } in
      (sym (ap (λ (k : Cell). k.ref) (write_other c x p v f.0)) ∙ h.0, ones-lowered c x ps f.1 h.1)

  Stopped-lowered :
      (c d : Cells) (x : ℕ) (ps : List ℕ)
      → Absent x ps
      → Stopped (lowered c x) d ps
      → Stopped c d ps
  Stopped-lowered c d x [] f s = tt
  Stopped-lowered c d x (p ∷ ps) f s =
      let v = record (c x) { ref = sub16 (c x).ref 1 } in
      let e = ap (λ (k : Cell). k.ref) (write_other c x p v f.0) in
      (subst (◌<◌ 1) e s.0, s.1 ∙ ap (λ k. k - 1) e)

  -- The pbuf at the front is still referenced.
  stop_at :
      (fuel : ℕ) (c : Cells) (x count : ℕ) (log ps : List ℕ)
      → Chain c x (x ∷ ps)
      → 1 < (c x).ref
      → (c x).ref < u16_mod
      → count < u8_mod
      → Released (suc fuel) c x count log (x ∷ ps)
  stop_at fuel c x count log ps l lt w b =
      let v = record (c x) { ref = sub16 (c x).ref 1 } in
      record {
        gone = [];
        rest = x ∷ ps;
        after = lowered c x;
        run =
            free_stop fuel c x count log l.1 lt w
            ∙ ap (λ k. ok (lowered c x, k, log)) (omega arith);
        parts = refl;
        ones = tt;
        stopped = (lt, ap (λ (k : Cell). k.ref) (write_here c x v) ∙ omega arith);
        chain = Chain-Alike c (lowered c x) x (x ∷ ps) (lowered-Alike c x) l;
        alike = lowered-Alike c x;
        others = λ a g ne. write_other c x a v (λ e. ne (sym e));
      }

  -- The pbuf at the front is given back, and the loop goes on with the next one.
  step_over :
      (fuel : ℕ) (c : Cells) (x count : ℕ) (log ps : List ℕ)
      → Chain c x (x ∷ ps)
      → (c x).ref ≡ 1
      → (c x).custom ≡ none
      → Released fuel (lowered c x) (c x).next ((count + 1) % u8_mod) (x ∷ log) ps
      → Released (suc fuel) c x count log (x ∷ ps)
  step_over fuel c x count log ps l e plain r =
      let v = record (c x) { ref = sub16 (c x).ref 1 } in
      let apart = Absent-parts x r.gone r.rest (subst (Absent x) r.parts l.2) in
      record {
        gone = x ∷ r.gone;
        rest = r.rest;
        after = r.after;
        run =
            free_step fuel c x count log l.1 e plain
            ∙ r.run
            ∙ ap (λ k. ok (r.after, k, onto r.gone (x ∷ log))) (omega arith);
        parts = ap (◌∷◌ x) r.parts;
        ones = (e, ones-lowered c x r.gone apart.0 r.ones);
        stopped = Stopped-lowered c r.after x r.rest apart.1 r.stopped;
        chain = r.chain;
        alike = λ a.
            let n = r.alike a in
            let o = lowered-Alike c x a in (n.0 ∙ o.0, n.1 ∙ o.1, n.2 ∙ o.2, n.3 ∙ o.3);
        others = λ a g ne. r.others a g.1 ne ∙ write_other c x a v (λ z. g.0 (sym z));
      }

  free_loop-Released :
      (fuel : ℕ) (c : Cells) (p count : ℕ) (log ps : List ℕ)
      → Chain c p ps
      → Counted c ps
      → count < u8_mod
      → length ps < fuel
      → Released fuel c p count log ps
  free_loop-Released zero c p count log ps l h w f = absurd (omega arith)
  free_loop-Released (suc fuel) c p count log [] l h w f = record {
    gone = [];
    rest = [];
    after = c;
    run =
        ap (λ k. free_loop custom_free_function (suc fuel) c k count log) l
        ∙ free_end fuel c count log
        ∙ ap (λ k. ok (c, k, log)) (omega arith);
    parts = refl;
    ones = tt;
    stopped = tt;
    chain = refl;
    alike = λ a. (refl, refl, refl, refl);
    others = λ a g ne. refl;
  }
  free_loop-Released (suc fuel) c p count log (x ∷ ps) l h w f =
      let v = record (c x) { ref = sub16 (c x).ref 1 } in
      let at : Chain c x (x ∷ ps) = (refl, l.1, l.2, l.3, l.4) in
      subst (λ k. Released (suc fuel) c k count log (x ∷ ps)) (sym l.0)
        (elim (Bool-cases (ltb 1 (c x).ref)) [
          | inl t ↦ stop_at fuel c x count log ps at (ltb→lt 1 (c x).ref t) h.0.1 w
          | inr t ↦
              step_over fuel c x count log ps at (omega (arith, ltb→le 1 (c x).ref t, h.0.0)) h.0.2
                (free_loop-Released fuel (lowered c x) (c x).next ((count + 1) % u8_mod) (x ∷ log)
                  ps (Chain-Alike c (lowered c x) (c x).next ps (lowered-Alike c x) l.4)
                  (Counted-frame c x v ps l.2 h.1) (omega arith) (omega arith))
        ])

  -- pbuf_free on a chain of pbufs that are not custom, and whose reference counts are at least 1, aborts
  -- on no assertion and ends. It gives
  -- back the pbufs at the front that have one reference, and returns their number modulo 256; the first
  -- one that has more loses one, and the rest of the chain stays linked, with its total lengths. Nothing
  -- else changes.
  pub pbuf_free-Released :
      (fuel : ℕ) (c : Cells) (p x : ℕ) (ps : List ℕ)
      → Chain c p (x ∷ ps)
      → Counted c (x ∷ ps)
      → length (x ∷ ps) < fuel
      → (r : Released fuel c p 0 [] (x ∷ ps)) × (pbuf_free custom_free_function fuel c p
          ≡ ok (r.after, length r.gone % u8_mod, onto r.gone []))
  unfolding pbuf_free
  pbuf_free-Released fuel c p x ps l h f =
      let r = free_loop-Released fuel c p 0 [] (x ∷ ps) l h (omega arith) f in
      (
        r,
        rw (ne→== p 0 (λ z. l.1 (sym l.0 ∙ z)))
            (r.run ∙ ap (λ k. ok (r.after, k, onto r.gone [])) (omega arith)),
      )
