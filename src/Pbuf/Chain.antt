-- ===== src/Pbuf/Chain.antt =====
-- lwip-1.4.1/src/core/pbuf.c: pbuf_free, pbuf_ref, pbuf_cat, pbuf_chain and pbuf_dechain, which
-- change the links and the reference counts. A pbuf is addressed by a number, 0 being NULL, and the
-- memory is read as a function from addresses to pbufs.
use my_lwip_poc.Base.{
  ℕ, zero, suc, ◌+◌, ◌%◌, not, ◌&&◌, List, Option, none, some, [], ◌∷◌, if◌then◌else◌, ltb, ◌==◌,
}
use my_lwip_poc.Base.Word.{u8_mod, add16, sub16}
use my_lwip_poc.Base.Outcome.{Outcome, ok, out_of_fuel, ◌>>=◌, asserting}
use my_lwip_poc.Pbuf.{PbufType}

-- struct pbuf, less its payload. Of the flags PBUF_FLAG_IS_CUSTOM is kept: `custom` is the field
-- custom_free_function of struct pbuf_custom when it is set.
pub record Cell : Type 0 where
  pub next : ℕ
  pub tot_len : ℕ
  pub len : ℕ
  pub kind : PbufType
  pub ref : ℕ
  pub custom : Option ℕ

abbrev pub Cells : Type 0
Cells = ℕ → Cell

abbrev pub write_cell : Cells → ℕ → Cell → Cells
write_cell c a v p = if p == a then v else c p

-- What the function of a custom pbuf does to the memory.
module _ (custom_free_function : (f p : ℕ) → Cells → Outcome Cells) where
  -- What becomes of a pbuf without references: a custom one is handed to its function.
  abbrev pub give_back : (custom : Option ℕ) → Cells → ℕ → Outcome Cells
  give_back none c p = ok c
  give_back (some f) c p = asserting (not (f == 0)) (custom_free_function f p c)

  -- The loop of pbuf_free: the memory, `count`, and the pbufs given back to their pool or heap, or to
  -- their function, the last one first.
  unfoldable pub free_loop : ℕ → Cells → (p count : ℕ) → List ℕ → Outcome (Cells × ℕ × List ℕ)
  free_loop zero c p count gone = out_of_fuel
  free_loop (suc fuel) c p count gone =
      let ref = sub16 (c p).ref 1 in
      let left = write_cell c p (record (c p) { ref = ref }) in
      let more = give_back (c p).custom left p >>= λ d.
      free_loop fuel d (c p).next ((count + 1) % u8_mod) (p ∷ gone) in
      if p == 0
      then ok (c, count, gone)
      else asserting (ltb 0 (c p).ref) (if ref == 0 then more else ok (left, count, gone))

  -- `fuel` bounds the length of the chain. NULL aborts.
  unfoldable pub pbuf_free : ℕ → Cells → ℕ → Outcome (Cells × ℕ × List ℕ)
  pbuf_free fuel c p = asserting (not (p == 0)) (free_loop fuel c p 0 [])

unfoldable pub pbuf_ref_inc : Cells → ℕ → Cells
pbuf_ref_inc c p = if p == 0 then c else write_cell c p (record (c p) { ref = add16 (c p).ref 1 })

abbrev pub add_total : Cells → (p n : ℕ) → Cells
add_total c p n = write_cell c p (record (c p) { tot_len = add16 (c p).tot_len n })

-- The loop of pbuf_cat and what follows it: `n` is the total length of the tail `t`.
unfoldable pub cat_loop : ℕ → Cells → (p t : ℕ) → Outcome Cells
cat_loop zero c p t = out_of_fuel
cat_loop (suc fuel) c p t =
    let longer = add_total c p (c t).tot_len in
    let rest = cat_loop fuel longer (c p).next t in
    if not ((c p).next == 0)
    then rest
    else asserting ((c p).tot_len == (c p).len)
        (ok (write_cell longer p (record (longer p) { next = t })))

unfoldable pub pbuf_cat : ℕ → Cells → (h t : ℕ) → Outcome Cells
pbuf_cat fuel c h t = asserting (not (h == 0) && not (t == 0)) (cat_loop fuel c h t)

unfoldable pub pbuf_chain : ℕ → Cells → (h t : ℕ) → Outcome Cells
pbuf_chain fuel c h t = do c' ← pbuf_cat fuel c h t; ok (pbuf_ref_inc c' t)

-- Behind the free of the tail `q`: the remainder of the chain, or 0.
abbrev pub dechained : (p q : ℕ) → Cells × ℕ × List ℕ → Outcome (Cells × ℕ × List ℕ)
dechained p q r =
    asserting ((r.0 p).tot_len == (r.0 p).len) (ok (r.0, (if ltb 0 r.1 then 0 else q), r.2))

module _ (custom_free_function : (f p : ℕ) → Cells → Outcome Cells) where
  -- The result is the memory, the remainder of the chain, and the pbufs given back.
  unfoldable pub pbuf_dechain : ℕ → Cells → ℕ → Outcome (Cells × ℕ × List ℕ)
  pbuf_dechain fuel c p =
      let q = (c p).next in
      let rest = sub16 (c p).tot_len (c p).len in
      let tail = write_cell c q (record (c q) { tot_len = rest }) in
      let cut = write_cell tail p (record (tail p) { next = 0; tot_len = (tail p).len }) in
      if q == 0
      then dechained p 0 (c, 1, [])
      else asserting ((c q).tot_len == rest)
          (do r ← pbuf_free custom_free_function fuel cut q; dechained p q r)
