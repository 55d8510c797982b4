-- ===== src/Def/Swap.antt =====
-- Byte order conversions are inverse to each other and stay in range.
use my_lwip_poc.Base.{ℕ, ◌<◌, ◌≡◌, arith}
use my_lwip_poc.Base.Word.{u16_mod, u32_mod}
use my_lwip_poc.Def.{lwip_htons, lwip_ntohs, lwip_htonl, lwip_ntohl}

pub htons-lt : (n : ℕ) → lwip_htons n < u16_mod
unfolding lwip_htons
htons-lt n = omega arith

pub ntohs-htons : (n : ℕ) → n < u16_mod → lwip_ntohs (lwip_htons n) ≡ n
unfolding lwip_ntohs
ntohs-htons n h = omega arith

pub htonl-lt : (n : ℕ) → lwip_htonl n < u32_mod
unfolding lwip_htonl
htonl-lt n = omega arith

pub ntohl-htonl : (n : ℕ) → n < u32_mod → lwip_ntohl (lwip_htonl n) ≡ n
unfolding lwip_ntohl
ntohl-htonl n h = omega arith
