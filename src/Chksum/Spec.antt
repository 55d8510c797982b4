-- ===== src/Chksum/Spec.antt =====
-- The ones' complement sum that the checksum code promises (RFC 1071), and its arithmetic.
use my_lwip_poc.Base.{
  ℕ, ◌+◌, ◌-◌, ◌*◌, ◌/◌, ◌%◌, ◌≤◌, ◌<◌, ◌≡◌, List, [], ◌∷◌, ◌++◌, arith, ◌==◌, if◌then◌else◌, All,
  length,
}
use my_lwip_poc.Base.Word.{add32, u32_mod, u16_mod}
use my_lwip_poc.Chksum.{fold_u32, swap_bytes}

-- The sum of the little-endian 16-bit words, the last byte padded by zero.
abbrev pub le_sum : List ℕ → ℕ
le_sum [] = 0
le_sum (b ∷ []) = b
le_sum (b ∷ c ∷ r) = b + 256 * c + le_sum r

-- The ones' complement normal form: a number below 2^16 that is the given one modulo 2^16 - 1,
-- and zero only for zero.
abbrev pub ones : ℕ → ℕ
ones n = if n == 0 then 0 else (n - 1) % 65535 + 1

abbrev pub AreBytes : List ℕ → Type 0
AreBytes = All (λ b. b < 256)

pub fold-fold : (n : ℕ) → n < u32_mod → fold_u32 (fold_u32 n) ≡ ones n
unfolding fold_u32
fold-fold n h = ground arith

pub ones-lt : (n : ℕ) → ones n < u16_mod
ones-lt n = ground arith

pub ones-mod_u16 : (m n : ℕ) → m ≡ n → ones m % u16_mod ≡ ones n
ones-mod_u16 m n e = ground arith

pub swap_bytes-lt : (w : ℕ) → swap_bytes w < u16_mod
unfolding swap_bytes
swap_bytes-lt w = omega arith

-- Numbers that agree modulo 2^16 - 1, and are zero together, have one normal form.
pub ones-mod : (m n k : ℕ) → m ≡ n + 65535 * k → (n ≡ 0 → m ≡ 0) → ones m ≡ ones n
ones-mod m n k e z = ground arith

pub ones-congruent :
    (m n j k : ℕ)
    → m + 65535 * j ≡ n + 65535 * k
    → (n ≡ 0 → m ≡ 0)
    → (m ≡ 0 → n ≡ 0)
    → ones m ≡ ones n
ones-congruent m n j k e z z' = ground arith

-- Swapping the bytes is multiplication by 256 there.
pub swap_bytes-ones :
    (m n k : ℕ) → 256 * m ≡ n + 65535 * k → (n ≡ 0 → m ≡ 0) → swap_bytes (ones m) ≡ ones n
unfolding swap_bytes
swap_bytes-ones m n k e z = ground arith

pub ones-add : (m n : ℕ) → ones (ones m + n) ≡ ones (m + n)
ones-add m n = ground arith

-- A byte in front moves every other byte to the other half of its word.
pub le_sum-cons :
    (b : ℕ) (bytes : List ℕ)
    → (k : ℕ) × (b + k ≤ le_sum (b ∷ bytes))
      × (b + 256 * le_sum bytes ≡ le_sum (b ∷ bytes) + 65535 * k)
le_sum-cons b [] = (0, omega arith, omega arith)
le_sum-cons b (c ∷ []) = (0, omega arith, omega arith)
le_sum-cons b (c ∷ d ∷ r) = let (k, le, e) = le_sum-cons d r in (d + k, omega arith, omega arith)

pub le_sum-le : (bytes : List ℕ) → AreBytes bytes → le_sum bytes ≤ 65535 * ((length bytes + 1) / 2)
le_sum-le [] h = omega arith
le_sum-le (b ∷ []) h = omega arith
le_sum-le (b ∷ c ∷ r) h = omega (arith, le_sum-le r h.1.1)

-- Behind an even number of bytes the words stay as they are.
pub le_sum-append_even :
    (xs ys : List ℕ) → length xs % 2 ≡ 0 → le_sum (xs ++ ys) ≡ le_sum xs + le_sum ys
le_sum-append_even [] ys e = omega arith
le_sum-append_even (x ∷ []) ys e = absurd (omega arith)
le_sum-append_even (x ∷ y ∷ r) ys e = omega (arith, le_sum-append_even r ys (omega arith))

-- Behind an odd number of bytes each byte moves to the other half of its word.
pub le_sum-append_odd :
    (xs ys : List ℕ)
    → length xs % 2 ≡ 1
    → (k : ℕ) × (k ≤ le_sum (xs ++ ys))
      × (le_sum xs + 256 * le_sum ys ≡ le_sum (xs ++ ys) + 65535 * k)
le_sum-append_odd [] ys e = absurd (omega arith)
le_sum-append_odd (x ∷ []) ys e = let (k, le, q) = le_sum-cons x ys in (k, omega arith, omega arith)
le_sum-append_odd (x ∷ y ∷ r) ys e =
    let (k, le, q) = le_sum-append_odd r ys (omega arith) in (k, omega arith, omega arith)

pub swap_bytes-ones_mul : (m : ℕ) → swap_bytes (ones m) ≡ ones (256 * m)
swap_bytes-ones_mul m = swap_bytes-ones m (256 * m) 0 (omega arith) (λ z. omega arith)

pub fold_u32-ones : (m n : ℕ) → fold_u32 (add32 (ones m) (ones n)) ≡ ones (m + n)
unfolding fold_u32
fold_u32-ones m n = ground arith

pub swap_bytes-swap_bytes : (w : ℕ) → w < u16_mod → swap_bytes (swap_bytes w) ≡ w
unfolding swap_bytes
swap_bytes-swap_bytes w h = omega arith
