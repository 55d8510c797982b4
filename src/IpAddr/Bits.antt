-- ===== src/IpAddr/Bits.antt =====
-- `|` of numbers with no bit in common is their sum.
use Prim.Native.Nat.{bit_or, bit_or-bitwise, digits, max}
use my_lwip_poc.Base.{ℕ, zero, suc, ◌+◌, ◌*◌, ◌/◌, ◌≤◌, ◌<◌, ◌≡◌, refl, arith, ap, ◌∙◌}

-- A number doubled k times.
abbrev doubled : ℕ → ℕ → ℕ
doubled zero x = x
doubled (suc k) x = 2 * doubled k x

-- The definition behind `bit_or`, with a bound on the digits of the first number.
abbrev either : (bound low high : ℕ) → ℕ
either bound low high = digits (λ high'. high') max bound low high

either-low :
    (k bound x y : ℕ) → y ≤ bound → y < doubled k 1 → either bound y (doubled k x) ≡ doubled k x + y
either-low k zero x zero le lt = omega arith
either-low k zero x (suc y) le lt = absurd (omega arith)
either-low k (suc bound) x zero le lt = omega arith
either-low zero (suc bound) x (suc y) le lt = absurd (omega arith)
either-low (suc k) (suc bound) x (suc y) le lt =
    let half : 2 * doubled k x / 2 ≡ doubled k x = omega arith in
    omega (
      arith,
      ap (either bound (suc y / 2)) half,
      either-low k bound x (suc y / 2) (omega arith) (omega arith),
    )

either-high :
    (k bound x y high : ℕ)
    → high ≡ doubled k x
    → high ≤ bound
    → y < doubled k 1
    → either bound high y ≡ high + y
either-high k zero x y zero e le lt = omega arith
either-high k zero x y (suc high) e le lt = absurd (omega arith)
either-high k (suc bound) x y zero e le lt = omega arith
either-high zero (suc bound) x y (suc high) e le lt = omega (
  arith,
  either-high zero bound (suc high / 2) (y / 2) (suc high / 2) refl (omega arith) (omega arith),
)
either-high (suc k) (suc bound) x y (suc high) e le lt =
    omega (
      arith,
      either-high k bound x (y / 2) (suc high / 2) (omega arith) (omega arith) (omega arith),
    )

bit_or_low : (k x y : ℕ) → y < doubled k 1 → bit_or y (doubled k x) ≡ doubled k x + y
bit_or_low k x y lt = bit_or-bitwise y (doubled k x) ∙ either-low k y x y (omega arith) lt

bit_or_high : (k x y : ℕ) → y < doubled k 1 → bit_or (doubled k x) y ≡ doubled k x + y
bit_or_high k x y lt =
    bit_or-bitwise (doubled k x) y
    ∙ either-high k (doubled k x) x y (doubled k x) refl (omega arith) lt

doubled_8 : (x : ℕ) → doubled 8 x ≡ 256 * x
doubled_8 x = omega arith

doubled_16 : (x : ℕ) → doubled 16 x ≡ 65536 * x
doubled_16 x = omega arith

doubled_24 : (x : ℕ) → doubled 24 x ≡ 16777216 * x
doubled_24 x = omega arith

-- Four bytes put together.
pub bit_or_bytes :
    (a b c d : ℕ)
    → a < 256
    → b < 256
    → c < 256
    → d < 256
    → bit_or d (bit_or (bit_or (a * 16777216) (b * 65536)) (c * 256))
      ≡ a * 16777216 + b * 65536 + c * 256 + d
bit_or_bytes a b c d p q r s =
    let ab : bit_or (a * 16777216) (b * 65536) ≡ a * 16777216 + b * 65536 =
      ap (λ k. bit_or k (b * 65536)) (omega (arith, doubled_24 a))
      ∙ bit_or_high 24 a (b * 65536) (omega (arith, doubled_24 1))
      ∙ omega (arith, doubled_24 a) in
    let abc : bit_or (a * 16777216 + b * 65536) (c * 256) ≡ a * 16777216 + b * 65536 + c * 256 =
      ap (λ k. bit_or k (c * 256)) (omega (arith, doubled_16 (a * 256 + b)))
      ∙ bit_or_high 16 (a * 256 + b) (c * 256) (omega (arith, doubled_16 1))
      ∙ omega (arith, doubled_16 (a * 256 + b)) in
    let abcd : bit_or d (a * 16777216 + b * 65536 + c * 256)
        ≡ a * 16777216 + b * 65536 + c * 256 + d =
      ap (bit_or d) (omega (arith, doubled_8 (a * 65536 + b * 256 + c)))
      ∙ bit_or_low 8 (a * 65536 + b * 256 + c) d (omega (arith, doubled_8 1))
      ∙ omega (arith, doubled_8 (a * 65536 + b * 256 + c)) in
    ap (λ k. bit_or d (bit_or k (c * 256))) ab ∙ ap (bit_or d) abc ∙ abcd
