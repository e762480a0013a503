-- ===== src/Prelude/Bits.antt =====
-- Laws of the bit operations on numbers of any size: the lowest digit of `&` and `|`, masks, and
-- `|` of numbers that have no digit in common.
use Prim.Native.Nat.{min, max, bit_and, bit_or, digits, bitwise, bit_and-bitwise, bit_or-bitwise}
use native.Mathlib.Nat.{pow-suc}
use volga.Prelude.{ℕ, zero, suc, ◌+◌, ◌*◌, ◌/◌, ◌%◌, ◌^◌, ◌≤◌, ◌<◌, ◌≡◌, refl, ap, ◌∙◌, arith}

-- Fuel above the first number changes nothing.
module _ (z : ℕ → ℕ) (f : ℕ → ℕ → ℕ) where
  digits-enough : (n m a b : ℕ) → a ≤ n → a ≤ m → digits z f n a b ≡ digits z f m a b
  digits-enough n m zero b p q = elim n as (λ k. digits z f k 0 b ≡ digits z f m 0 b) [
    | zero ↦ elim m as (λ k. z b ≡ digits z f k 0 b) [ zero ↦ refl | suc k ↦ refl ]
    | suc j ↦ elim m as (λ k. z b ≡ digits z f k 0 b) [ zero ↦ refl | suc k ↦ refl ]
  ]
  digits-enough zero m (suc a) b p q = absurd (omega arith)
  digits-enough (suc n) zero (suc a) b p q = absurd (omega arith)
  digits-enough (suc n) (suc m) (suc a) b p q =
      let half = digits-enough n m (suc a / 2) (b / 2) (omega arith) (omega arith) in
      ap (λ (d : ℕ). d * 2 + f (suc a % 2) (b % 2)) half

  bitwise-split :
      (a b : ℕ)
      → bitwise z f (suc a) b ≡ bitwise z f (suc a / 2) (b / 2) * 2 + f (suc a % 2) (b % 2)
  bitwise-split a b =
      let half = digits-enough a (suc a / 2) (suc a / 2) (b / 2) (omega arith) (omega arith) in
      ap (λ (d : ℕ). d * 2 + f (suc a % 2) (b % 2)) half

zero-bit_and : (b : ℕ) → bit_and 0 b ≡ 0
zero-bit_and b = bit_and-bitwise 0 b

zero-bit_or : (b : ℕ) → bit_or 0 b ≡ b
zero-bit_or b = bit_or-bitwise 0 b

pub bit_and-low : (a b : ℕ) → bit_and a b ≡ bit_and (a / 2) (b / 2) * 2 + min (a % 2) (b % 2)
bit_and-low zero b = omega (arith, zero-bit_and b, zero-bit_and (b / 2))
bit_and-low (suc a) b = omega (
  arith,
  bit_and-bitwise (suc a) b,
  bit_and-bitwise (suc a / 2) (b / 2),
  bitwise-split (λ y. 0) min a b,
)

bit_or-low : (a b : ℕ) → bit_or a b ≡ bit_or (a / 2) (b / 2) * 2 + max (a % 2) (b % 2)
bit_or-low zero b = omega (arith, zero-bit_or b, zero-bit_or (b / 2))
bit_or-low (suc a) b = omega (
  arith,
  bit_or-bitwise (suc a) b,
  bit_or-bitwise (suc a / 2) (b / 2),
  bitwise-split (λ y. y) max a b,
)

bit_and-empty : (n a : ℕ) → a ≤ n → bit_and a 0 ≡ 0
bit_and-empty n zero h = zero-bit_and 0
bit_and-empty zero (suc a) h = absurd (omega arith)
bit_and-empty (suc n) (suc a) h =
    omega (arith, bit_and-low (suc a) 0, bit_and-empty n (suc a / 2) (omega arith))

-- `a & 0x7f`
pub bit_and-seven_bits : (a : ℕ) → bit_and a 127 ≡ a % 128
bit_and-seven_bits a = omega (
  arith,
  bit_and-low a 127,
  bit_and-low (a / 2) 63,
  bit_and-low (a / 2 / 2) 31,
  bit_and-low (a / 2 / 2 / 2) 15,
  bit_and-low (a / 2 / 2 / 2 / 2) 7,
  bit_and-low (a / 2 / 2 / 2 / 2 / 2) 3,
  bit_and-low (a / 2 / 2 / 2 / 2 / 2 / 2) 1,
  bit_and-empty (a / 2 / 2 / 2 / 2 / 2 / 2 / 2) (a / 2 / 2 / 2 / 2 / 2 / 2 / 2) (omega arith),
)

bit_and-even : (a b : ℕ) → b % 2 ≡ 0 → bit_and a b ≡ bit_and (a / 2) (b / 2) * 2
bit_and-even a b even = omega (arith, bit_and-low a b)

bit_and-one : (a : ℕ) → bit_and a 1 ≡ a % 2
bit_and-one a = omega (arith, bit_and-low a 1, bit_and-empty (a / 2) (a / 2) (omega arith))

-- `a & 0x80`
pub bit_and-top_bit : (a : ℕ) → bit_and a 128 ≡ a / 128 % 2 * 128
bit_and-top_bit a = omega (
  arith,
  bit_and-even a 128 refl,
  bit_and-even (a / 2) 64 refl,
  bit_and-even (a / 2 / 2) 32 refl,
  bit_and-even (a / 2 / 2 / 2) 16 refl,
  bit_and-even (a / 2 / 2 / 2 / 2) 8 refl,
  bit_and-even (a / 2 / 2 / 2 / 2 / 2) 4 refl,
  bit_and-even (a / 2 / 2 / 2 / 2 / 2 / 2) 2 refl,
  bit_and-one (a / 2 / 2 / 2 / 2 / 2 / 2 / 2),
)

pow_two-suc : (s : ℕ) → 2 ^ suc s ≡ 2 * 2 ^ s
pow_two-suc s = simp pow-suc (omega arith)

-- Numbers without a common digit: `|` is `+`.
pub bit_or_disjoint : (s r g : ℕ) → r < 2 ^ s → bit_or r (g * 2 ^ s) ≡ r + g * 2 ^ s
bit_or_disjoint zero r g h =
    let empty : r ≡ 0 = omega arith in rw empty (zero-bit_or (g * 2 ^ 0) ∙ omega arith)
bit_or_disjoint (suc s) r g h =
    let twice : g * 2 ^ suc s ≡ 2 * (g * 2 ^ s) =
      omega (arith, ap (λ (t : ℕ). g * t) (pow_two-suc s)) in
    let halved : g * 2 ^ suc s / 2 ≡ g * 2 ^ s = omega (arith, twice) in
    omega (
      arith,
      twice,
      bit_or-low r (g * 2 ^ suc s),
      ap (bit_or (r / 2)) halved,
      bit_or_disjoint s (r / 2) g (omega (arith, pow_two-suc s)),
    )
