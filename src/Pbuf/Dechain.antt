-- ===== src/Pbuf/Dechain.antt =====
-- pbuf_dechain on the chains in memory.
use my_lwip_poc.Base.{ℕ, ◌-◌, ◌<◌, ◌≡◌, ◌≢◌, ◌⊎◌, List, [], ◌∷◌}
use my_lwip_poc.Base.Outcome.{Outcome}
use my_lwip_poc.Pbuf.Chain.{Cells, write_cell}
use my_lwip_poc.Pbuf.Links.{Chain}

abbrev corrected : Cells → (q rest : ℕ) → Cells
corrected c q rest = write_cell c q (record (c q) { tot_len = rest })

abbrev cut : Cells → (p : ℕ) → Cells
cut c p = write_cell c p (record (c p) { next = 0; tot_len = (c p).len })

-- What the tail comes to: it stays linked and is returned, or its front is given back and 0 returned.
abbrev pub Tail : (c d : Cells) (y : ℕ) (ys : List ℕ) (m : ℕ) (gone : List ℕ) → Type 0
Tail c d y ys m gone =
    ((1 < (c y).ref) × (m ≡ y) × (gone ≡ []) × Chain d y (y ∷ ys) × ((d y).ref ≡ (c y).ref - 1))
    ⊎ (((c y).ref ≡ 1) × (m ≡ 0) × (gone ≢ []))
