-- ===== src/IpAddr/Tests.antt =====
-- Addresses as text, on concrete calls.
use my_lwip_poc.Base.{ℕ, ◌≡◌, refl, List, [], ◌∷◌, arith, some, none}
use my_lwip_poc.IpAddr.{
  ipaddr_aton, ipaddr_ntoa_r, aton_loop, aton_next, aton_end, parse_number, num_loop, after_zero,
  concoct,
}
use my_lwip_poc.IpAddr.Text.{ipaddr_aton-ipaddr_ntoa_r}
use my_lwip_poc.Def.{lwip_htonl}

-- "127.1" is 127.0.0.1.
aton_two_parts : ipaddr_aton (49 ∷ 50 ∷ 55 ∷ 46 ∷ 49 ∷ []) ≡ some 16777343
unfolding ipaddr_aton aton_loop aton_next aton_end parse_number num_loop after_zero concoct
    lwip_htonl
aton_two_parts = refl

-- "1..1" is refused.
aton_empty_part : ipaddr_aton (49 ∷ 46 ∷ 46 ∷ 49 ∷ []) ≡ none
unfolding ipaddr_aton aton_loop aton_next aton_end parse_number num_loop after_zero concoct
    lwip_htonl
aton_empty_part = refl

-- "256.1.1.1" is read as 0.1.1.1.
aton_wraps :
    ipaddr_aton (50 ∷ 53 ∷ 54 ∷ 46 ∷ 49 ∷ 46 ∷ 49 ∷ 46 ∷ 49 ∷ [])
    ≡ ipaddr_aton (48 ∷ 46 ∷ 49 ∷ 46 ∷ 49 ∷ 46 ∷ 49 ∷ [])
unfolding ipaddr_aton aton_loop aton_next aton_end parse_number num_loop after_zero concoct
    lwip_htonl
aton_wraps = refl

ipaddr_aton-ipaddr_ntoa_r_example :
    (s : List ℕ) × (ipaddr_ntoa_r 16777343 16 ≡ some s) × (ipaddr_aton s ≡ some 16777343)
ipaddr_aton-ipaddr_ntoa_r_example =
    ipaddr_aton-ipaddr_ntoa_r 16777343 16 (omega arith) (omega arith)
