-- ===== src/IpAddr.antt =====
-- lwip-1.4.1/src/core/ipv4/ip_addr.c: addresses as text, ipaddr_aton and ipaddr_ntoa_r. A text is the
-- list of its characters up to the 0 that ends it. An address is the u32_t in network order.
pub mod Bits
pub mod Decimal
pub mod Text
mod Tests
use Prim.Native.Nat.{bit_or}
use mathlib.Core.Option
use my_lwip_poc.Base.{
  ℕ, zero, suc, ◌+◌, ◌-◌, ◌*◌, ◌/◌, ◌%◌, Bool, true, false, not, ◌&&◌, ◌||◌, List, [], ◌∷◌, ◌++◌,
  Option, none, some, if◌then◌else◌, ltb, leb, ◌==◌,
}
use my_lwip_poc.Base.Word.{u32_mod}
use my_lwip_poc.Def.{lwip_htonl}

abbrev pub in_range : (c lo up : ℕ) → Bool
in_range c lo up = leb lo c && leb c up

abbrev pub isdigit : ℕ → Bool
isdigit c = in_range c 48 57

abbrev pub isxdigit : ℕ → Bool
isxdigit c = isdigit c || in_range c 97 102 || in_range c 65 70

abbrev pub islower : ℕ → Bool
islower c = in_range c 97 122

-- A space, \t, \n, \v, \f or \r.
abbrev pub isspace : ℕ → Bool
isspace c = c == 32 || in_range c 9 13

-- One digit more, in u32_t.
abbrev pub add_digit : (base val c : ℕ) → ℕ
add_digit base val c =
    if isdigit c
    then (val * base + (c - 48)) % u32_mod
    else bit_or (val * 16 % u32_mod) (c + 10 - (if islower c then 97 else 65))

-- The inner loop: the number, and the text behind it.
unfoldable pub num_loop : (base val : ℕ) → List ℕ → ℕ × List ℕ
num_loop base val [] = (val, [])
num_loop base val (c ∷ cp) =
    let next = num_loop base (add_digit base val c) cp in
    if isdigit c || (base == 16 && isxdigit c) then next else (val, c ∷ cp)

-- Behind a leading 0: 0x is hexadecimal, else the number is octal.
unfoldable pub after_zero : List ℕ → ℕ × List ℕ
after_zero [] = num_loop 8 0 []
after_zero (c ∷ cp) = if c == 120 || c == 88 then num_loop 16 0 cp else num_loop 8 0 (c ∷ cp)

unfoldable pub parse_number : List ℕ → Option (ℕ × List ℕ)
parse_number [] = none
parse_number (c ∷ cp) =
    if not (isdigit c)
    then none
    else if c == 48
    then some (after_zero cp)
    else some (num_loop 10 0 (c ∷ cp))

-- `val |= parts...` and the bounds on the last part; `a << n` is cut to a u32_t.
unfoldable pub concoct : (parts : List ℕ) (val : ℕ) → Option ℕ
concoct [] val = some val
concoct (a ∷ []) val = if ltb 0xffffff val then none else some (bit_or val (a * 16777216 % u32_mod))
concoct (a ∷ b ∷ []) val =
    if ltb 0xffff val
    then none
    else some (bit_or val (bit_or (a * 16777216 % u32_mod) (b * 65536 % u32_mod)))
concoct (a ∷ b ∷ c ∷ []) val =
    if ltb 0xff val
    then none
    else some (
        bit_or val
          (bit_or (bit_or (a * 16777216 % u32_mod) (b * 65536 % u32_mod)) (c * 256 % u32_mod)))
concoct (a ∷ b ∷ c ∷ d ∷ parts) val = none

-- Behind the last number: what may trail, and the address.
unfoldable pub aton_end : (parts : List ℕ) (val : ℕ) → List ℕ → Option ℕ
aton_end parts val [] = Option.map lwip_htonl (concoct parts val)
aton_end parts val (c ∷ cp) =
    if not (c == 0) && not (isspace c) then none else Option.map lwip_htonl (concoct parts val)

-- Behind a number: a dot and the next number, which `more` reads if there is room for another part, or
-- the end.
unfoldable pub aton_next :
    (more : Option (List ℕ → List ℕ → Option ℕ)) (parts : List ℕ) → ℕ × List ℕ → Option ℕ
aton_next more parts (val, []) = aton_end parts val []
aton_next none parts (val, c ∷ cp) = if c == 46 then none else aton_end parts val (c ∷ cp)
aton_next (some more) parts (val, c ∷ cp) =
    if c == 46 then more (parts ++ val ∷ []) cp else aton_end parts val (c ∷ cp)

-- The outer loop; `room` is how many parts fit in front of the last one.
unfoldable pub aton_loop : (room : ℕ) (parts : List ℕ) → List ℕ → Option ℕ
aton_loop zero parts cp = elim (parse_number cp) [ none ↦ none | some r ↦ aton_next none parts r ]
aton_loop (suc room) parts cp = elim (parse_number cp) [
  | none ↦ none
  | some r ↦ aton_next (some (aton_loop room)) parts r
]

unfoldable pub ipaddr_aton : List ℕ → Option ℕ
ipaddr_aton cp = aton_loop 3 [] cp

-- `inv`: the digits of a byte, the last one first. It has room for three.
unfoldable pub inv_loop : (room n : ℕ) → List ℕ
inv_loop zero n = []
inv_loop (suc room) n =
    let more = inv_loop room (n / 10) in (48 + n % 10) ∷ (if n / 10 == 0 then [] else more)

-- `while(i--)` and the dot: the characters of one byte, put behind one another.
abbrev pub put_back : List ℕ → List ℕ → List ℕ
put_back [] s = s
put_back (c ∷ inv) s = put_back inv (c ∷ s)

unfoldable pub octet : ℕ → List ℕ
octet n = put_back (inv_loop 3 n) []

-- `len++ >= buflen` at each character of a stretch: how many are written behind it, or NULL.
unfoldable pub count_chars : (buflen len : ℕ) → List ℕ → Option ℕ
count_chars buflen len [] = some len
count_chars buflen len (c ∷ cs) =
    let rest = count_chars buflen (len + 1) cs in if leb buflen len then none else rest

-- The loop over the bytes of the address: what is written to `buf`.
unfoldable pub ntoa_loop : (buflen len : ℕ) → List ℕ → Option (List ℕ)
ntoa_loop buflen len [] = some []
ntoa_loop buflen len (b ∷ ap) = elim (count_chars buflen len (octet b ++ 46 ∷ [])) [
  | none ↦ none
  | some len' ↦ Option.map (λ rest. octet b ++ 46 ∷ rest) (ntoa_loop buflen len' ap)
]

-- `*--rp = 0`
abbrev pub without_last : List ℕ → List ℕ
without_last [] = []
without_last (c ∷ []) = []
without_last (c ∷ d ∷ cs) = c ∷ without_last (d ∷ cs)

-- The bytes of the address as they lie in memory.
abbrev pub octets : ℕ → List ℕ
octets addr =
    (addr % 256) ∷ (addr / 256 % 256) ∷ (addr / 65536 % 256) ∷ (addr / 16777216 % 256) ∷ []

unfoldable pub ipaddr_ntoa_r : (addr buflen : ℕ) → Option (List ℕ)
ipaddr_ntoa_r addr buflen = Option.map without_last (ntoa_loop buflen 0 (octets addr))

unfoldable pub ipaddr_addr : List ℕ → ℕ
ipaddr_addr cp = elim (ipaddr_aton cp) [ none ↦ 0xffffffff | some val ↦ val ]
