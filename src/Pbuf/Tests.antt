-- ===== src/Pbuf/Tests.antt =====
-- Packet buffers on concrete calls.
use my_lwip_poc.Base.{
  true, false, ℕ, ◌-◌, ◌≤◌, ◌<◌, ◌≡◌, ◌⊎◌, refl, List, [], ◌∷◌, ◌++◌, arith, some, take, drop,
  length, min,
}
use my_lwip_poc.Pbuf.{Pbuf, pbuf_pool, pbuf_copy_partial, pbuf_take, err_ok, err_arg}
use my_lwip_poc.Pbuf.Bytes.{bytes, Valid}
use my_lwip_poc.Pbuf.Copy.{pbuf_copy_partial-bytes}
use my_lwip_poc.Pbuf.Fill.{pbuf_take-bytes, Same}
use my_lwip_poc.Pbuf.Header.{pbuf_header, pbuf_header-restores}
use my_lwip_poc.Pbuf.Search.{pbuf_memcmp, pbuf_memfind}
use my_lwip_poc.Pbuf.Compare.{pbuf_memcmp-Compared, Compared}
use my_lwip_poc.Pbuf.Find.{pbuf_memfind-FoundAt, pbuf_memfind-misses, FoundAt}

-- A packet of three bytes in two pbufs.
abbrev front : Pbuf
front = record { room = 5 ∷ 6 ∷ []; payload = 7 ∷ 7 ∷ []; tot_len = 3; len = 2; kind = pbuf_pool }

abbrev back : Pbuf
back = record { room = []; payload = 9 ∷ 0 ∷ []; tot_len = 1; len = 1; kind = pbuf_pool }

packet-Valid : Valid (front ∷ back ∷ [])
packet-Valid = (omega arith, refl, omega arith, (omega arith, refl, omega arith, tt))

pbuf_copy_partial-bytes_example :
    pbuf_copy_partial (front ∷ back ∷ []) 5 1
    ≡ some (
      take 5 (drop 1 (bytes (front ∷ back ∷ []))),
      min 5 (length (bytes (front ∷ back ∷ [])) - 1),
    )
pbuf_copy_partial-bytes_example =
    pbuf_copy_partial-bytes front (back ∷ []) 5 1 packet-Valid (omega arith) (omega arith)

pbuf_take-bytes_example :
    ((◌<◌ 3 3)
      × (pbuf_take (front ∷ back ∷ []) (1 ∷ 2 ∷ 3 ∷ []) 3 ≡ some (err_arg, front ∷ back ∷ [])))
    ⊎ ((◌≤◌ 3 3)
        × ((qs : List Pbuf) × (pbuf_take (front ∷ back ∷ []) (1 ∷ 2 ∷ 3 ∷ []) 3 ≡ some (err_ok, qs))
            × (bytes qs ≡ take 3 (1 ∷ 2 ∷ 3 ∷ []) ++ drop 3 (7 ∷ 7 ∷ 9 ∷ []))
            × Same (front ∷ back ∷ []) qs))
pbuf_take-bytes_example =
    pbuf_take-bytes front (back ∷ []) (1 ∷ 2 ∷ 3 ∷ []) 3 packet-Valid (omega arith) (omega arith)

pbuf_memcmp-Compared_example :
    ((◌≤◌ 3 1) × (pbuf_memcmp (front ∷ back ∷ []) 1 (7 ∷ 9 ∷ []) 2 ≡ 0xffff))
    ⊎ ((◌<◌ 1 3)
        × Compared
            (7 ∷ 7 ∷ 9 ∷ [])
            1
            (7 ∷ 9 ∷ [])
            2
            (pbuf_memcmp (front ∷ back ∷ []) 1 (7 ∷ 9 ∷ []) 2))
pbuf_memcmp-Compared_example =
    pbuf_memcmp-Compared (front ∷ back ∷ []) 1 (7 ∷ 9 ∷ []) 2 packet-Valid (omega arith)
      (omega arith) (omega arith)

pbuf_memfind-FoundAt_example :
    (r : ℕ) × (pbuf_memfind (front ∷ back ∷ []) (9 ∷ []) 1 0 ≡ some r)
    × ((r ≡ 0xffff) ⊎ FoundAt (7 ∷ 7 ∷ 9 ∷ []) 0 (9 ∷ []) 1 r)
pbuf_memfind-FoundAt_example =
    pbuf_memfind-FoundAt front (back ∷ []) (9 ∷ []) 1 0 packet-Valid (omega arith) (omega arith)

pbuf_memfind-misses_example :
    (pbuf_memfind (front ∷ back ∷ []) (7 ∷ 9 ∷ []) 2 0 ≡ some 0xffff)
    × FoundAt (7 ∷ 7 ∷ 9 ∷ []) 0 (7 ∷ 9 ∷ []) 2 1
pbuf_memfind-misses_example =
    pbuf_memfind-misses front (back ∷ []) 7 9 packet-Valid (omega arith) refl

pbuf_header-restores_example :
    (q : Pbuf) × (pbuf_header front true 1 ≡ some (0, q))
    × (pbuf_header q false 1 ≡ some (0, front))
pbuf_header-restores_example =
    pbuf_header-restores front (back ∷ []) 1 packet-Valid (omega arith) (omega arith) refl
