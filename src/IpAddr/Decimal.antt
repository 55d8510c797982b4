-- ===== src/IpAddr/Decimal.antt =====
-- The decimal form of a byte, as ipaddr_ntoa_r writes it and ipaddr_aton reads it.
use my_lwip_poc.Base.{
  ℕ, zero, suc, ◌+◌, ◌-◌, ◌*◌, ◌%◌, ◌≤◌, ◌<◌, ◌≡◌, refl, Bool, true, false, not, ◌&&◌, ◌||◌, List,
  [], ◌∷◌, ◌++◌, some, leb, ◌==◌, arith, ap, ◌∙◌, length, leb→le, ==_iff, ==→ne, Bool-cases, inl,
  inr,
}
use my_lwip_poc.Base.Word.{u32_mod}
use my_lwip_poc.IpAddr.{isdigit, add_digit, num_loop, after_zero, parse_number, inv_loop, octet}

and-left : (a b : Bool) → (a && b) ≡ true → (a ≡ true) × (b ≡ true)
and-left true b h = (refl, h)
and-left false b h = cc

-- A test that all numbers below a bound pass.
holds_below : (ℕ → Bool) → ℕ → Bool
holds_below p zero = true
holds_below p (suc n) = holds_below p n && p n

holds_at : (p : ℕ → Bool) (n b : ℕ) → b < n → holds_below p n ≡ true → p b ≡ true
unfolding holds_below
holds_at p zero b lt h = absurd (omega arith)
holds_at p (suc n) b lt h =
    let both = and-left (holds_below p n) (p n) h in
    elim (Bool-cases (b == n)) [
      | inl e ↦ ap p ((==_iff b n).0 e) ∙ both.1
      | inr e ↦ holds_at p n b (omega (arith, ==→ne b n e)) both.0
    ]

abbrev all_digits : List ℕ → Bool
all_digits [] = true
all_digits (c ∷ cs) = isdigit c && all_digits cs

abbrev value : ℕ → List ℕ → ℕ
value v [] = v
value v (c ∷ cs) = value (add_digit 10 v c) cs

-- No leading zero.
abbrev plain : List ℕ → Bool
plain [] = false
plain (c ∷ cs) = not (c == 48)

abbrev good : ℕ → Bool
good b =
    all_digits (octet b)
    && ((value 0 (octet b) == b) && (leb (length (octet b)) 3 && (b == 0 || plain (octet b))))

octet_table : holds_below good 256 ≡ true
unfolding holds_below octet inv_loop
octet_table = refl

-- The decimal form of a byte has only digits, its value is the byte, and it is short.
octet_facts :
    (b : ℕ)
    → b < 256
    → (all_digits (octet b) ≡ true)
      × (value 0 (octet b) ≡ b)
      × (length (octet b) ≤ 3)
      × ((b == 0 || plain (octet b)) ≡ true)
octet_facts b lt =
    let g = holds_at good 256 b lt octet_table in
    let p = and-left (all_digits (octet b)) _ g in
    let q = and-left (value 0 (octet b) == b) _ p.1 in
    let r = and-left (leb (length (octet b)) 3) _ q.1 in
    (p.0, (==_iff (value 0 (octet b)) b).0 q.0, leb→le (length (octet b)) 3 r.0, r.1)

num_loop-digits :
    (v : ℕ) (ds t : List ℕ)
    → all_digits ds ≡ true
    → num_loop 10 v (ds ++ t) ≡ num_loop 10 (value v ds) t
unfolding num_loop
num_loop-digits v [] t h = refl
num_loop-digits v (c ∷ cs) t h =
    let p = and-left (isdigit c) (all_digits cs) h in
    rw p.0 (num_loop-digits ((v * 10 + (c - 48)) % u32_mod) cs t p.1)

-- What may stand behind a number: nothing, or a dot.
pub data Ends : List ℕ → Type 0 where
  nothing : (t : List ℕ) → t ≡ [] → Ends t
  dot : (t r : List ℕ) → t ≡ 46 ∷ r → Ends t

num_loop-Ends : (v : ℕ) (t : List ℕ) → Ends t → num_loop 10 v t ≡ (v, t)
unfolding num_loop
num_loop-Ends v t (nothing _ e) = rw e refl
num_loop-Ends v t (dot _ r e) = rw e refl

after_zero-Ends : (t : List ℕ) → Ends t → after_zero t ≡ (0, t)
unfolding after_zero num_loop
after_zero-Ends t (nothing _ e) = rw e refl
after_zero-Ends t (dot _ r e) = rw e refl

not-true : (x : Bool) → not x ≡ true → x ≡ false
not-true true h = cc
not-true false h = refl

or-false : (x y : Bool) → x ≡ false → (x || y) ≡ true → y ≡ true
or-false true y e h = cc
or-false false y e h = h

parse-plain :
    (ds t : List ℕ)
    → all_digits ds ≡ true
    → plain ds ≡ true
    → parse_number (ds ++ t) ≡ some (num_loop 10 0 (ds ++ t))
unfolding parse_number
parse-plain [] t h p = cc
parse-plain (c ∷ cs) t h p =
    let d = and-left (isdigit c) (all_digits cs) h in rw (d.0, not-true (c == 48) p) refl

parse-zero : (t : List ℕ) → Ends t → parse_number (octet 0 ++ t) ≡ some (0, t)
unfolding parse_number octet inv_loop
parse-zero t e = ap some (after_zero-Ends t e)

-- The decimal form of a byte is read back.
pub parse_number-octet :
    (b : ℕ) (t : List ℕ) → b < 256 → Ends t → parse_number (octet b ++ t) ≡ some (b, t)
parse_number-octet b t lt e = elim (Bool-cases (b == 0)) [
  | inl z ↦ let zero_ : b ≡ 0 = (==_iff b 0).0 z in rw zero_ (parse-zero t e)
  | inr z ↦
      let f = octet_facts b lt in
      parse-plain (octet b) t f.0 (or-false (b == 0) (plain (octet b)) z f.3)
      ∙ ap some (
          num_loop-digits 0 (octet b) t f.0
          ∙ num_loop-Ends (value 0 (octet b)) t e
          ∙ ap (λ k. (k, t)) f.1)
]

pub length-octet : (b : ℕ) → b < 256 → length (octet b) ≤ 3
length-octet b lt = (octet_facts b lt).2
