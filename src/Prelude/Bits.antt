-- ===== src/Prelude/Bits.antt =====
-- The bit operations as arithmetic, at every width: `hi << k | lo` is a sum, a mask of low bits
-- is a remainder, and a second exclusive or with the same value undoes the first.
use Prim.Native.Nat.{
  ℕ, zero, suc, ◌+◌, ◌-◌, ◌*◌, ◌/◌, ◌%◌, ◌^◌, ◌≤◌, ◌<◌, min, max, bit_and, bit_or, bit_xor, digits,
  differ, bit_and-bitwise, bit_or-bitwise, bit_xor-bitwise,
}
use mathlib.Core.Path.{◌≡◌, refl, ap}
use native.Mathlib.Omega.{arith}
use native.Mathlib.Nat.{pow-suc, one-le-pow, div-div-eq-div-mul}
use mathlib.Core.Logic.{◌⊎◌}

-- The digit recursion does not depend on its fuel, once there is enough of it.
module _ (z : ℕ → ℕ) (f : ℕ → ℕ → ℕ) where
  fuel_irrelevant : (n m a b : ℕ) → a ≤ n → a ≤ m → digits z f n a b ≡ digits z f m a b
  fuel_irrelevant zero zero a b p q = refl
  fuel_irrelevant zero (suc m) zero b p q = refl
  fuel_irrelevant zero (suc m) (suc a) b p q = absurd (omega arith)
  fuel_irrelevant (suc n) zero zero b p q = refl
  fuel_irrelevant (suc n) zero (suc a) b p q = absurd (omega arith)
  fuel_irrelevant (suc n) (suc m) zero b p q = refl
  fuel_irrelevant (suc n) (suc m) (suc a) b p q =
      omega (arith, fuel_irrelevant n m (suc a / 2) (b / 2) (omega arith) (omega arith))

pub bit_or_step : (a b : ℕ) → bit_or a b ≡ bit_or (a / 2) (b / 2) * 2 + max (a % 2) (b % 2)
bit_or_step zero b = omega (arith, bit_or-bitwise 0 b, bit_or-bitwise 0 (b / 2))
bit_or_step (suc a) b = omega (
  arith,
  bit_or-bitwise (suc a) b,
  bit_or-bitwise (suc a / 2) (b / 2),
  fuel_irrelevant (λ y. y) max a (suc a / 2) (suc a / 2) (b / 2) (omega arith) (omega arith),
)

pub bit_and_step : (a b : ℕ) → bit_and a b ≡ bit_and (a / 2) (b / 2) * 2 + min (a % 2) (b % 2)
bit_and_step zero b = omega (arith, bit_and-bitwise 0 b, bit_and-bitwise 0 (b / 2))
bit_and_step (suc a) b = omega (
  arith,
  bit_and-bitwise (suc a) b,
  bit_and-bitwise (suc a / 2) (b / 2),
  fuel_irrelevant (λ y. 0) min a (suc a / 2) (suc a / 2) (b / 2) (omega arith) (omega arith),
)

pub bit_xor_step : (a b : ℕ) → bit_xor a b ≡ bit_xor (a / 2) (b / 2) * 2 + differ (a % 2) (b % 2)
bit_xor_step zero b = omega (arith, bit_xor-bitwise 0 b, bit_xor-bitwise 0 (b / 2))
bit_xor_step (suc a) b = omega (
  arith,
  bit_xor-bitwise (suc a) b,
  bit_xor-bitwise (suc a / 2) (b / 2),
  fuel_irrelevant (λ y. y) differ a (suc a / 2) (suc a / 2) (b / 2) (omega arith) (omega arith),
)

or_zero_fuel : (n a : ℕ) → a ≤ n → bit_or a 0 ≡ a
or_zero_fuel n zero h = refl
or_zero_fuel zero (suc a) h = absurd (omega arith)
or_zero_fuel (suc n) (suc a) h =
    omega (arith, bit_or_step (suc a) 0, or_zero_fuel n (suc a / 2) (omega arith))

pub bit_or-zero : (a : ℕ) → bit_or a 0 ≡ a
bit_or-zero a = or_zero_fuel a a (omega arith)

and_zero_fuel : (n a : ℕ) → a ≤ n → bit_and a 0 ≡ 0
and_zero_fuel n zero h = refl
and_zero_fuel zero (suc a) h = absurd (omega arith)
and_zero_fuel (suc n) (suc a) h =
    omega (arith, bit_and_step (suc a) 0, and_zero_fuel n (suc a / 2) (omega arith))

pub bit_and-zero : (a : ℕ) → bit_and a 0 ≡ 0
bit_and-zero a = and_zero_fuel a a (omega arith)

double_shift : (q k : ℕ) → q * 2 ^ suc k ≡ 2 * (q * 2 ^ k)
double_shift q k = omega (arith, ap (λ (t : ℕ). q * t) (pow-suc 2 k))

-- `hi << k | lo` where `lo` fits `k` bits.
pub bit_or_disjoint : (k hi lo : ℕ) → lo < 2 ^ k → bit_or (hi * 2 ^ k) lo ≡ hi * 2 ^ k + lo
bit_or_disjoint zero hi lo fits = ground (arith, bit_or-zero hi)
bit_or_disjoint (suc k) hi lo fits = ground (
  arith,
  bit_or_step (hi * 2 ^ suc k) lo,
  double_shift hi k,
  pow-suc 2 k,
  bit_or_disjoint k hi (lo / 2) (omega (arith, pow-suc 2 k)),
)

-- A mask of `k` ones.
bit_and_ones : (k q r : ℕ) → r < 2 ^ k → bit_and (q * 2 ^ k + r) (2 ^ k - 1) ≡ r
bit_and_ones zero q r fits = ground (arith, bit_and-zero (q * 2 ^ 0 + r))
bit_and_ones (suc k) q r fits = ground (
  arith,
  bit_and_step (q * 2 ^ suc k + r) (2 ^ suc k - 1),
  double_shift q k,
  pow-suc 2 k,
  bit_and_ones k q (r / 2) (omega (arith, pow-suc 2 k)),
)

pub bit_and_mask : (k a : ℕ) → bit_and a (2 ^ k - 1) ≡ a % 2 ^ k
bit_and_mask k a = ground (arith, one-le-pow k 2, bit_and_ones k (a / 2 ^ k) (a % 2 ^ k))

or_comm_fuel : (n a b : ℕ) → a ≤ n → b ≤ n → bit_or a b ≡ bit_or b a
or_comm_fuel zero a b p q = ground (arith, bit_or_step a b)
or_comm_fuel (suc n) a b p q = omega (
  arith,
  bit_or_step a b,
  bit_or_step b a,
  or_comm_fuel n (a / 2) (b / 2) (omega arith) (omega arith),
)

pub bit_or_comm : (a b : ℕ) → bit_or a b ≡ bit_or b a
bit_or_comm a b = or_comm_fuel (a + b) a b (omega arith) (omega arith)

-- Exclusive or on one digit.
differ_digit : (a b : ℕ) → differ (a % 2) (b % 2) ≡ (a + b) % 2
differ_digit a b = ground (arith, parity a, parity b)
  where
    parity : (n : ℕ) → (n % 2 ≡ 0) ⊎ (n % 2 ≡ 1)
    parity n = omega arith

pub bit_xor_digit : (a b : ℕ) → bit_xor a b ≡ bit_xor (a / 2) (b / 2) * 2 + (a + b) % 2
bit_xor_digit a b = omega (arith, bit_xor_step a b, differ_digit a b)

xor_twice_fuel : (n a b : ℕ) → a ≤ n → b ≤ n → bit_xor (bit_xor a b) b ≡ a
xor_twice_fuel zero zero zero p q = refl
xor_twice_fuel zero zero (suc b) p q = absurd (omega arith)
xor_twice_fuel zero (suc a) b p q = absurd (omega arith)
xor_twice_fuel (suc n) a b p q =
    let half : bit_xor a b / 2 ≡ bit_xor (a / 2) (b / 2) = omega (arith, bit_xor_digit a b) in
    let inner = xor_twice_fuel n (a / 2) (b / 2) (omega arith) (omega arith) in
    let outer = rw half at (bit_xor_digit (bit_xor a b) b) in omega (arith, bit_xor_digit a b)

-- Exclusive or with one value, twice, changes nothing.
pub bit_xor_twice : (a b : ℕ) → bit_xor (bit_xor a b) b ≡ a
bit_xor_twice a b = xor_twice_fuel (a + b) a b (omega arith) (omega arith)

-- The result has no more digits than the operands.
pub bit_xor-lt : (k a b : ℕ) → a < 2 ^ k → b < 2 ^ k → bit_xor a b < 2 ^ k
bit_xor-lt zero a b p q = ground (arith, bit_xor_digit a b)
bit_xor-lt (suc k) a b p q =
    let ih =
      bit_xor-lt k (a / 2) (b / 2) (omega (arith, pow-suc 2 k)) (omega (arith, pow-suc 2 k)) in
    omega (arith, bit_xor_digit a b, pow-suc 2 k)

pub bit_or-lt : (k a b : ℕ) → a < 2 ^ k → b < 2 ^ k → bit_or a b < 2 ^ k
bit_or-lt zero a b p q = ground (arith, bit_or_step a b)
bit_or-lt (suc k) a b p q =
    let ih =
      bit_or-lt k (a / 2) (b / 2) (omega (arith, pow-suc 2 k)) (omega (arith, pow-suc 2 k)) in
    omega (arith, bit_or_step a b, pow-suc 2 k)

-- The masks and fields that the protocols use.
pub bit_and_byte : (a : ℕ) → bit_and a 0xff ≡ a % 256
bit_and_byte a = bit_and_mask 8 a

pub bit_and_word : (a : ℕ) → bit_and a 0xffff ≡ a % 65536
bit_and_word a = bit_and_mask 16 a

pub bit_and_seven_bits : (a : ℕ) → bit_and a 0x7f ≡ a % 128
bit_and_seven_bits a = bit_and_mask 7 a

pub bit_or_bytes : (hi lo : ℕ) → lo < 256 → bit_or (hi * 256) lo ≡ hi * 256 + lo
bit_or_bytes hi lo fits = bit_or_disjoint 8 hi lo fits

pub bit_or_words : (hi lo : ℕ) → lo < 65536 → bit_or (hi * 65536) lo ≡ hi * 65536 + lo
bit_or_words hi lo fits = bit_or_disjoint 16 hi lo fits

-- Setting the top bit of a byte that has it clear.
pub bit_or_top_bit : (b : ℕ) → b < 128 → bit_or b 0x80 ≡ b + 128
bit_or_top_bit b h = omega (arith, bit_or_comm b 0x80, bit_or_disjoint 7 1 b h)

-- A mask whose `k` low bits are clear.
pub bit_and_high : (k m a : ℕ) → bit_and a (m * 2 ^ k) ≡ bit_and (a / 2 ^ k) m * 2 ^ k
bit_and_high zero m a = ground arith
bit_and_high (suc k) m a = ground (
  arith,
  bit_and_step a (m * 2 ^ suc k),
  double_shift m k,
  double_shift (bit_and (a / 2 ^ suc k) m) k,
  bit_and_high k m (a / 2),
  div-div-eq-div-mul a 2 (2 ^ k),
  pow-suc 2 k,
)

-- Testing the top bit of a byte, and the upper half of one.
pub bit_and_top_bit : (b : ℕ) → b < 256 → bit_and b 0x80 ≡ b / 128 * 128
bit_and_top_bit b h = omega (arith, bit_and_high 7 1 b, bit_and_mask 1 (b / 2 ^ 7))

pub bit_and_high_nibble : (b : ℕ) → b < 256 → bit_and b 0xf0 ≡ b / 16 * 16
bit_and_high_nibble b h = omega (arith, bit_and_high 4 15 b, bit_and_mask 4 (b / 2 ^ 4))

pub bit_and_low_nibble : (b : ℕ) → bit_and b 0x0f ≡ b % 16
bit_and_low_nibble b = bit_and_mask 4 b

-- An `or` works on the upper and the lower part of its operands apart.
pub bit_or_fields :
    (k x y a b : ℕ)
    → a < 2 ^ k
    → b < 2 ^ k
    → bit_or (x * 2 ^ k + a) (y * 2 ^ k + b) ≡ bit_or x y * 2 ^ k + bit_or a b
bit_or_fields zero x y zero zero p q = ground arith
bit_or_fields zero x y zero (suc b) p q = absurd (omega arith)
bit_or_fields zero x y (suc a) b p q = absurd (omega arith)
bit_or_fields (suc k) x y a b p q = ground (
  arith,
  bit_or_step (x * 2 ^ suc k + a) (y * 2 ^ suc k + b),
  bit_or_step a b,
  double_shift x k,
  double_shift y k,
  double_shift (bit_or x y) k,
  pow-suc 2 k,
  bit_or_fields k x y (a / 2) (b / 2) (omega (arith, pow-suc 2 k)) (omega (arith, pow-suc 2 k)),
)

-- All ones absorb.
pub bit_or_ones : (k a : ℕ) → a < 2 ^ k → bit_or a (2 ^ k - 1) ≡ 2 ^ k - 1
bit_or_ones zero zero h = refl
bit_or_ones zero (suc a) h = absurd (omega arith)
bit_or_ones (suc k) a h = ground (
  arith,
  bit_or_step a (2 ^ suc k - 1),
  pow-suc 2 k,
  one-le-pow k 2,
  bit_or_ones k (a / 2) (omega (arith, pow-suc 2 k)),
)
