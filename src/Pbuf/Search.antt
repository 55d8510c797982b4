-- ===== src/Pbuf/Search.antt =====
-- lwip-1.4.1/src/core/pbuf.c: pbuf_memcmp, pbuf_memfind and pbuf_strstr.
use my_lwip_poc.Base.{
  ℕ, zero, suc, ◌+◌, ◌||◌, List, [], ◌∷◌, Option, none, some, if◌then◌else◌, leb, ◌==◌, get_or,
}
use my_lwip_poc.Base.Word.{u16_mod, add16, sub16}
use my_lwip_poc.Pbuf.{Pbuf, pbuf_get_at, chain_len}

-- The loop of pbuf_memcmp that goes to the right pbuf: the chain from there on, and `start`.
unfoldable pub skip_to : List Pbuf → ℕ → List Pbuf × ℕ
skip_to [] start = ([], start)
skip_to (q ∷ qs) start =
    let rest = skip_to qs (sub16 start q.len) in if leb q.len start then rest else (q ∷ qs, start)

-- The loop that compares, with `todo` rounds left.
unfoldable pub cmp_loop : List Pbuf → (start : ℕ) → (s2 : List ℕ) → (todo i : ℕ) → ℕ
cmp_loop q start s2 zero i = 0
cmp_loop q start s2 (suc todo) i =
    let a = pbuf_get_at q (add16 start i) in
    let b = get_or s2 i 0 in
    let rest = cmp_loop q start s2 todo (add16 i 1) in if a == b then rest else add16 i 1

unfoldable pub compare_from : List Pbuf × ℕ → (s2 : List ℕ) → (n : ℕ) → ℕ
compare_from ([], start) s2 n = 0xffff
compare_from (q ∷ qs, start) s2 n = cmp_loop (q ∷ qs) start s2 n 0

unfoldable pub pbuf_memcmp : List Pbuf → (offset : ℕ) → (s2 : List ℕ) → (n : ℕ) → ℕ
pbuf_memcmp p offset s2 n = compare_from (skip_to p offset) s2 n

-- The loop of pbuf_memfind; `none` is a loop that runs out of fuel.
unfoldable pub find_loop : ℕ → List Pbuf → (mem : List ℕ) → (mem_len max i : ℕ) → Option ℕ
find_loop zero p mem mem_len max i = none
find_loop (suc fuel) p mem mem_len max i =
    let plus = pbuf_memcmp p i mem mem_len in
    let rest = find_loop fuel p mem mem_len max (add16 i plus) in
    if leb i max then (if plus == 0 then some i else rest) else some 0xffff

-- A u16_t has u16_mod values, so this is more fuel than `i` can have values.
unfoldable pub pbuf_memfind : List Pbuf → (mem : List ℕ) → (mem_len start_offset : ℕ) → Option ℕ
pbuf_memfind p mem mem_len start_offset =
    let max = sub16 (chain_len p) mem_len in
    if leb (mem_len + start_offset) (chain_len p)
    then find_loop u16_mod p mem mem_len max start_offset
    else some 0xffff

-- `strlen`, for a text that ends with a 0 or with its memory.
unfoldable pub strlen : List ℕ → ℕ
strlen [] = 0
strlen (c ∷ cs) = let rest = strlen cs in if c == 0 then 0 else suc rest

unfoldable pub pbuf_strstr : List Pbuf → List ℕ → Option ℕ
pbuf_strstr p substr =
    if get_or substr 0 0 == 0 || chain_len p == 0xffff
    then some 0xffff
    else if leb 0xffff (strlen substr)
    then some 0xffff
    else pbuf_memfind p substr (strlen substr) 0
