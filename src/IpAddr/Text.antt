-- ===== src/IpAddr/Text.antt =====
-- The round trip of an address through its text.
use mathlib.Core.Option
use my_lwip_poc.Base.{
  ℕ, suc, ◌+◌, ◌*◌, ◌/◌, ◌%◌, ◌≤◌, ◌<◌, ◌≡◌, refl, List, [], ◌∷◌, ◌++◌, some, arith, ap, sym, ◌∙◌,
  length, length-append, le→ltb, lt→leb, append-nil, append_assoc,
}
use my_lwip_poc.Base.Word.{u32_mod}
use my_lwip_poc.Def.{lwip_htonl}
use my_lwip_poc.IpAddr.{
  parse_number, concoct, aton_end, aton_next, aton_loop, ipaddr_aton, octet, count_chars, ntoa_loop,
  without_last, ipaddr_ntoa_r,
}
use my_lwip_poc.IpAddr.Bits.{bit_or_bytes}
use my_lwip_poc.IpAddr.Decimal.{nothing, dot, parse_number-octet, length-octet}

aton_step :
    (room : ℕ) (parts : List ℕ) (b : ℕ) (r : List ℕ)
    → b < 256
    → aton_loop (suc room) parts (octet b ++ 46 ∷ r) ≡ aton_loop room (parts ++ b ∷ []) r
unfolding aton_loop aton_next
aton_step room parts b r lt =
    rw (parse_number-octet b (46 ∷ r) lt (dot (46 ∷ r) r refl), aton_loop) refl

aton_last : (parts : List ℕ) (b : ℕ) → b < 256 → aton_loop 0 parts (octet b) ≡ aton_end parts b []
unfolding aton_loop aton_next
aton_last parts b lt =
    let e : parse_number (octet b) ≡ some (b, []) =
      ap parse_number (sym (append-nil (octet b))) ∙ parse_number-octet b [] lt (nothing [] refl) in
    rw (e, aton_loop) refl

concoct-bytes :
    (a b c d : ℕ)
    → a < 256
    → b < 256
    → c < 256
    → d < 256
    → concoct (a ∷ b ∷ c ∷ []) d ≡ some (a * 16777216 + b * 65536 + c * 256 + d)
unfolding concoct
concoct-bytes a b c d p q r s =
    let ea : a * 16777216 % u32_mod ≡ a * 16777216 = omega arith in
    let eb : b * 65536 % u32_mod ≡ b * 65536 = omega arith in
    let ec : c * 256 % u32_mod ≡ c * 256 = omega arith in
    rw (le→ltb 0xff d (omega arith), ea, eb, ec) (ap some (bit_or_bytes a b c d p q r s))

-- The text of four bytes.
abbrev dotted : (a b c d : ℕ) → List ℕ
dotted a b c d = octet a ++ 46 ∷ (octet b ++ 46 ∷ (octet c ++ 46 ∷ octet d))

aton-dotted :
    (a b c d : ℕ)
    → a < 256
    → b < 256
    → c < 256
    → d < 256
    → ipaddr_aton (dotted a b c d) ≡ some (lwip_htonl (a * 16777216 + b * 65536 + c * 256 + d))
unfolding ipaddr_aton aton_end
aton-dotted a b c d p q r s =
    aton_step 2 [] a (octet b ++ 46 ∷ (octet c ++ 46 ∷ octet d)) p
    ∙ aton_step 1 (a ∷ []) b (octet c ++ 46 ∷ octet d) q
    ∙ aton_step 0 (a ∷ b ∷ []) c (octet d) r
    ∙ aton_last (a ∷ b ∷ c ∷ []) d s
    ∙ ap (Option.map lwip_htonl) (concoct-bytes a b c d p q r s)

count_chars-fits :
    (buflen len : ℕ) (cs : List ℕ)
    → len + length cs ≤ buflen
    → count_chars buflen len cs ≡ some (len + length cs)
unfolding count_chars
count_chars-fits buflen len [] h = ap some (omega arith)
count_chars-fits buflen len (c ∷ cs) h =
    rw (lt→leb buflen len (omega arith), count_chars-fits buflen (len + 1) cs (omega arith))
      (ap some (omega arith))

ntoa_step :
    (buflen len b : ℕ) (bs rest : List ℕ)
    → b < 256
    → len + 4 ≤ buflen
    → ((k : ℕ) → k ≤ len + 4 → ntoa_loop buflen k bs ≡ some rest)
    → ntoa_loop buflen len (b ∷ bs) ≡ some (octet b ++ 46 ∷ rest)
unfolding ntoa_loop
ntoa_step buflen len b bs rest lt h ih =
    let short = length-octet b lt in
    let e = length-append (octet b) (46 ∷ []) in
    rw
      (
        count_chars-fits buflen len (octet b ++ 46 ∷ []) (omega (arith, short, e)),
        ih (len + length (octet b ++ 46 ∷ [])) (omega (arith, short, e)),
        ntoa_loop,
      )
      refl

ntoa_end : (buflen len : ℕ) → ntoa_loop buflen len [] ≡ some []
unfolding ntoa_loop
ntoa_end buflen len = refl

ntoa-dotted :
    (buflen a b c d : ℕ)
    → 16 ≤ buflen
    → a < 256
    → b < 256
    → c < 256
    → d < 256
    → ntoa_loop buflen 0 (a ∷ b ∷ c ∷ d ∷ []) ≡ some (dotted a b c d ++ 46 ∷ [])
ntoa-dotted buflen a b c d h p q r s =
    ntoa_step buflen 0 a (b ∷ c ∷ d ∷ []) _ p (omega arith) (λ k l.
      ntoa_step buflen k b (c ∷ d ∷ []) _ q (omega arith) (λ k' l'.
        ntoa_step buflen k' c (d ∷ []) _ r (omega arith)
          (λ j m. ntoa_step buflen j d [] _ s (omega arith) (λ j' m'. ntoa_end buflen j'))))
    ∙ ap some (sym together)
  where
    together :
        dotted a b c d ++ 46 ∷ []
        ≡ octet a ++ 46 ∷ (octet b ++ 46 ∷ (octet c ++ 46 ∷ (octet d ++ 46 ∷ [])))
    together =
        append_assoc (octet a) (46 ∷ (octet b ++ 46 ∷ (octet c ++ 46 ∷ octet d))) (46 ∷ [])
        ∙ ap (λ zs. octet a ++ 46 ∷ zs)
            (append_assoc (octet b) (46 ∷ (octet c ++ 46 ∷ octet d)) (46 ∷ [])
              ∙ ap (λ zs. octet b ++ 46 ∷ zs) (append_assoc (octet c) (46 ∷ octet d) (46 ∷ [])))

without_last-snoc : (xs : List ℕ) (y : ℕ) → without_last (xs ++ y ∷ []) ≡ xs
without_last-snoc [] y = refl
without_last-snoc (x ∷ []) y = refl
without_last-snoc (x ∷ z ∷ xs) y = ap (◌∷◌ x) (without_last-snoc (z ∷ xs) y)

htonl-octets :
    (addr : ℕ)
    → addr < u32_mod
    → lwip_htonl (
        addr % 256 * 16777216
        + addr / 256 % 256 * 65536
        + addr / 65536 % 256 * 256
        + addr / 16777216 % 256)
      ≡ addr
unfolding lwip_htonl
htonl-octets addr lt = omega arith

-- With a buffer of 16 characters or more, ipaddr_ntoa_r does not return NULL, and ipaddr_aton reads
-- the address back from the text that it writes.
pub ipaddr_aton-ipaddr_ntoa_r :
    (addr buflen : ℕ)
    → addr < u32_mod
    → 16 ≤ buflen
    → (s : List ℕ) × (ipaddr_ntoa_r addr buflen ≡ some s) × (ipaddr_aton s ≡ some addr)
unfolding ipaddr_ntoa_r
ipaddr_aton-ipaddr_ntoa_r addr buflen lt h =
    let a = addr % 256 in
    let b = addr / 256 % 256 in
    let c = addr / 65536 % 256 in
    let d = addr / 16777216 % 256 in
    (
      dotted a b c d,
      ap (Option.map without_last)
            (ntoa-dotted buflen a b c d h (omega arith) (omega arith) (omega arith) (omega arith))
          ∙ ap some (without_last-snoc (dotted a b c d) 46),
      aton-dotted a b c d (omega arith) (omega arith) (omega arith) (omega arith)
          ∙ ap some (htonl-octets addr lt),
    )
