-- ===== src/Chksum.antt =====
-- lwip-1.4.1/src/core/ipv4/inet_chksum.c, and the macros of include/ipv4/lwip/inet_chksum.h.
-- Memory is the list of its bytes and the parity of its address; a pbuf chain is the list of its
-- segments.
pub mod Spec
pub mod Standard
pub mod Chain
pub mod Pseudo
pub mod Verify
mod Tests
use my_lwip_poc.Base.{
  ℕ, zero, suc, ◌+◌, ◌-◌, ◌*◌, ◌/◌, ◌%◌, Bool, true, false, not, ◌&&◌, List, [], ◌∷◌, if◌then◌else◌,
  ltb, leb, ◌==◌, length, take, Option, some, none,
}
use mathlib.Core.Option
use my_lwip_poc.Base.Word.{add32, sub16, u16_mod}
use my_lwip_poc.Def.{lwip_htons}

-- FOLD_U32T
unfoldable pub fold_u32 : ℕ → ℕ
fold_u32 u = add32 (u / 65536) (u % 65536)

-- SWAP_BYTES_IN_WORD
unfoldable pub swap_bytes : ℕ → ℕ
swap_bytes w = w % 256 * 256 + w / 256 % 256

-- The loop over 16-bit words: the sum, and the byte that is left over, if any.
unfoldable pub sum_words : ℕ → List ℕ → ℕ × List ℕ
sum_words sum [] = (sum, [])
sum_words sum (b ∷ []) = (sum, b ∷ [])
sum_words sum (b ∷ c ∷ r) = sum_words (add32 sum (b + 256 * c)) r

-- `((u8_t *)&t)[0] = b`
abbrev pub set_low : ℕ → ℕ → ℕ
set_low t b = t / 256 * 256 + b

-- The bytes of `t` that the left-over byte fills.
abbrev pub tail_word : ℕ → List ℕ → ℕ
tail_word t [] = t
tail_word t (b ∷ _) = set_low t b

-- From the aligned address on, with the end bytes' word `t`.
unfoldable pub aligned_chksum : ℕ → List ℕ → ℕ
unfolding sum_words fold_u32
aligned_chksum t bytes =
    let (sum, rest) = sum_words 0 bytes in fold_u32 (fold_u32 (add32 sum (tail_word t rest)))

-- lwip_standard_chksum, version #2, which LWIP_CHKSUM_ALGORITHM selects.
unfoldable pub standard_chksum : Bool → List ℕ → ℕ
unfolding swap_bytes
standard_chksum odd [] =
    let sum = aligned_chksum 0 [] in (if odd then swap_bytes sum else sum) % u16_mod
standard_chksum true (b ∷ bytes) = swap_bytes (aligned_chksum (b * 256) bytes) % u16_mod
standard_chksum false (b ∷ bytes) = aligned_chksum 0 (b ∷ bytes) % u16_mod

abbrev pub complement16 : ℕ → ℕ
complement16 n = 65535 - n

-- The buffer may be longer than `len`.
unfoldable pub inet_chksum : Bool → List ℕ → ℕ → ℕ
inet_chksum odd dataptr len = complement16 (standard_chksum odd (take len dataptr) % u16_mod)

-- A pbuf of a chain: the parity of its payload's address, and the `len` bytes there.
pub record Segment : Type 0 where
  pub odd : Bool
  pub payload : List ℕ

-- The loop body over one pbuf: `acc` and `swapped` with its checksum `chk` and its `len`.
unfoldable pub chksum_step : ℕ × Bool → ℕ → ℕ → ℕ × Bool
chksum_step (acc, swapped) chk len =
    let acc' = fold_u32 (add32 acc chk) in
    if len % 2 == 0 then (acc', swapped) else (swap_bytes acc', not swapped)

unfoldable pub chksum_chain : ℕ × Bool → List Segment → ℕ × Bool
chksum_chain s [] = s
chksum_chain s (q ∷ qs) =
    chksum_chain (chksum_step s (standard_chksum q.odd q.payload) (length q.payload)) qs

-- `if (swapped) acc = SWAP_BYTES_IN_WORD(acc)`
unfoldable pub unswap : ℕ × Bool → ℕ
unswap (acc, swapped) = if swapped then swap_bytes acc else acc

unfoldable pub inet_chksum_pbuf : List Segment → ℕ
inet_chksum_pbuf p = complement16 (unswap (chksum_chain (0, false) p) % u16_mod)

-- The end of both pseudo-header checksums; the addresses are in network byte order.
unfoldable pub add_pseudo : ℕ → ℕ → ℕ → ℕ → ℕ → ℕ
add_pseudo acc src dest proto proto_len =
    let a = add32 (add32 acc (src % 65536)) (src / 65536 % 65536) in
    let b = add32 (add32 a (dest % 65536)) (dest / 65536 % 65536) in
    add32 (add32 b (lwip_htons proto)) (lwip_htons proto_len)

-- The final folds and the inversion.
unfoldable pub finish : ℕ → ℕ
finish acc = complement16 (fold_u32 (fold_u32 acc) % 65536)

unfoldable pub inet_chksum_pseudo : List Segment → (src dest proto proto_len : ℕ) → ℕ
inet_chksum_pseudo p src dest proto proto_len =
    finish (add_pseudo (unswap (chksum_chain (0, false) p)) src dest proto proto_len)

-- The loop of the partial checksum; `chksum_len` counts the bytes that are still to be summed.
-- `none` is the abort of `LWIP_ASSERT("delete me", chksum_len < 0x7fff)`.
unfoldable pub chksum_partial : ℕ × Bool → ℕ → List Segment → Option (ℕ × Bool)
chksum_partial s chksum_len [] = some s
chksum_partial s chksum_len (q ∷ qs) =
    let len = length q.payload in
    let chklen = if ltb chksum_len len then chksum_len else len in
    let s' = chksum_step s (standard_chksum q.odd (take chklen q.payload)) len in
    let left = sub16 chksum_len chklen in
    let rest = if ltb left 0x7fff then chksum_partial s' left qs else none in
    if ltb 0 chksum_len then rest else some s

unfoldable pub inet_chksum_pseudo_partial :
    List Segment → (src dest proto proto_len chksum_len : ℕ) → Option ℕ
inet_chksum_pseudo_partial p src dest proto proto_len chksum_len =
    Option.map (λ s. finish (add_pseudo (unswap s) src dest proto proto_len))
      (chksum_partial (0, false) chksum_len p)
