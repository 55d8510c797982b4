-- ===== src/Pbuf/LinkTests.antt =====
-- Chains of packet buffers in memory, on concrete calls.
use my_lwip_poc.Base.{ℕ, ◌%◌, ◌≡◌, refl, none, [], ◌∷◌, arith, if◌then◌else◌, ◌==◌, length}
use my_lwip_poc.Base.Outcome.{Outcome, ok}
use my_lwip_poc.Pbuf.{pbuf_pool}
use my_lwip_poc.Pbuf.Chain.{Cell, Cells, pbuf_free, pbuf_cat}
use my_lwip_poc.Pbuf.Links.{Chain, Absent}
use my_lwip_poc.Pbuf.Cat.{pbuf_cat-Chain}
use my_lwip_poc.Pbuf.Release.{Counted, Released, onto, pbuf_free-Released}

-- A function that does nothing.
abbrev custom : ℕ → ℕ → Cells → Outcome Cells
custom f p c = ok c

abbrev cell : (next tot_len len ref : ℕ) → Cell
cell next tot_len len ref = record {
  next = next;
  tot_len = tot_len;
  len = len;
  kind = pbuf_pool;
  ref = ref;
  custom = none;
}

-- A chain of two, the second with one more reference.
abbrev two : Cells
two a = if a == 16 then cell 32 5 2 1 else cell 0 3 3 2

two-Chain : Chain two 16 (16 ∷ 32 ∷ [])
two-Chain = (refl, omega arith, (omega arith, tt), refl, (refl, omega arith, tt, refl, refl))

two-Counted : Counted two (16 ∷ 32 ∷ [])
two-Counted = ((omega arith, omega arith, refl), ((omega arith, omega arith, refl), tt))

pbuf_free-Released_example :
    (r : Released custom 4 two 16 0 [] (16 ∷ 32 ∷ [])) × (pbuf_free custom 4 two 16
      ≡ ok (r.after, length r.gone % 256, onto r.gone []))
pbuf_free-Released_example =
    pbuf_free-Released custom 4 two 16 16 (32 ∷ []) two-Chain two-Counted (omega arith)

-- Two pbufs that are not linked.
abbrev apart : Cells
apart a = if a == 16 then cell 0 2 2 1 else cell 0 3 3 1

pbuf_cat-Chain_example :
    (c' : Cells) × (pbuf_cat 4 apart 16 32 ≡ ok c')
    × Chain c' 16 (16 ∷ 32 ∷ [])
    × ((a : ℕ) → ((c' a).len ≡ (apart a).len) × ((c' a).ref ≡ (apart a).ref))
    × ((a : ℕ) → Absent a (16 ∷ []) → c' a ≡ apart a)
pbuf_cat-Chain_example =
    pbuf_cat-Chain 4 apart 16 32 16 32 [] [] (refl, omega arith, tt, refl, refl)
      (refl, omega arith, tt, refl, refl) ((omega arith, tt), tt) (omega arith) (omega arith)
