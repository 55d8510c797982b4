-- ===== src/Def.antt =====
-- lwip-1.4.1/src/core/def.c: byte order conversion, little-endian host. A mask `x & 0xff00` is
-- written by `/` and `%`, and an `|` of fields that share no bit as a sum.
pub mod Swap
use my_lwip_poc.Base.{ℕ, ◌+◌, ◌*◌, ◌/◌, ◌%◌}

unfoldable pub lwip_htons : ℕ → ℕ
lwip_htons n = n % 256 * 256 + n / 256 % 256

unfoldable pub lwip_ntohs : ℕ → ℕ
unfolding lwip_htons
lwip_ntohs n = lwip_htons n

unfoldable pub lwip_htonl : ℕ → ℕ
lwip_htonl n =
    n % 256 * 16777216 + n / 256 % 256 * 65536 + n / 65536 % 256 * 256 + n / 16777216 % 256

unfoldable pub lwip_ntohl : ℕ → ℕ
unfolding lwip_htonl
lwip_ntohl n = lwip_htonl n
