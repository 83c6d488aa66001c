-- ===== src/Prelude/Bits.antt =====
-- Laws of the bit operations at variables, from the digit recursion that they stand for.
use Prim.Native.Nat.{
  ℕ, zero, suc, ◌+◌, ◌*◌, ◌/◌, ◌%◌, ◌^◌, ◌≤◌, ◌<◌, min, max, bit_and, bit_or, digits,
  bit_and-bitwise, bit_or-bitwise,
}
use mathlib.Core.Path.{◌≡◌, refl, ap}
use native.Mathlib.Nat.{pow-suc}
use native.Mathlib.Omega.{arith}

-- Fuel beyond the number's size changes nothing.
module _ (base : ℕ → ℕ) (f : ℕ → ℕ → ℕ) where
  abbrev walk : ℕ → ℕ → ℕ → ℕ
  walk n a b = digits base f n a b

  walk_fuel : (n m a b : ℕ) → a ≤ n → a ≤ m → walk n a b ≡ walk m a b
  walk_fuel zero zero a b p q = refl
  walk_fuel zero (suc m) zero b p q = refl
  walk_fuel (suc n) zero zero b p q = refl
  walk_fuel (suc n) (suc m) zero b p q = refl
  walk_fuel zero _ (suc a) b p q = absurd (omega arith)
  walk_fuel (suc n) zero (suc a) b p q = absurd (omega arith)
  walk_fuel (suc n) (suc m) (suc a) b p q =
      omega (arith, walk_fuel n m (suc a / 2) (b / 2) (omega arith) (omega arith))

zero-bit_and : (b : ℕ) → bit_and 0 b ≡ 0
zero-bit_and b = bit_and-bitwise 0 b

zero-bit_or : (b : ℕ) → bit_or 0 b ≡ b
zero-bit_or b = bit_or-bitwise 0 b

and_digit : (a b : ℕ) → bit_and a b ≡ bit_and (a / 2) (b / 2) * 2 + min (a % 2) (b % 2)
and_digit zero b = omega (arith, zero-bit_and b, zero-bit_and (b / 2))
and_digit (suc a) b = omega (
  arith,
  bit_and-bitwise (suc a) b,
  bit_and-bitwise (suc a / 2) (b / 2),
  walk_fuel (λ _. zero) min a (suc a / 2) (suc a / 2) (b / 2) (omega arith) (omega arith),
)

or_digit : (a b : ℕ) → bit_or a b ≡ bit_or (a / 2) (b / 2) * 2 + max (a % 2) (b % 2)
or_digit zero b = omega (arith, zero-bit_or b, zero-bit_or (b / 2))
or_digit (suc a) b = omega (
  arith,
  bit_or-bitwise (suc a) b,
  bit_or-bitwise (suc a / 2) (b / 2),
  walk_fuel (λ y. y) max a (suc a / 2) (suc a / 2) (b / 2) (omega arith) (omega arith),
)

and_zero_below : (n a : ℕ) → a ≤ n → bit_and a 0 ≡ 0
and_zero_below n zero h = refl
and_zero_below zero (suc a) h = absurd (omega arith)
and_zero_below (suc n) (suc a) h =
    omega (arith, and_digit (suc a) 0, and_zero_below n (suc a / 2) (omega arith))

and_none : (a : ℕ) → bit_and a 0 ≡ 0
and_none a = and_zero_below a a (omega arith)

-- `x & 1`, `x & 3` and so on up to `x & 0x7f`, one digit at a time.
and_1 : (a : ℕ) → bit_and a 1 ≡ a % 2
and_1 a = omega (arith, and_digit a 1, and_none (a / 2))

and_3 : (a : ℕ) → bit_and a 3 ≡ a % 4
and_3 a = omega (arith, and_digit a 3, and_1 (a / 2))

pub and_7 : (a : ℕ) → bit_and a 7 ≡ a % 8
and_7 a = omega (arith, and_digit a 7, and_3 (a / 2))

and_15 : (a : ℕ) → bit_and a 15 ≡ a % 16
and_15 a = omega (arith, and_digit a 15, and_7 (a / 2))

and_31 : (a : ℕ) → bit_and a 31 ≡ a % 32
and_31 a = omega (arith, and_digit a 31, and_15 (a / 2))

and_63 : (a : ℕ) → bit_and a 63 ≡ a % 64
and_63 a = omega (arith, and_digit a 63, and_31 (a / 2))

pub and_127 : (a : ℕ) → bit_and a 0x7f ≡ a % 128
and_127 a = omega (arith, and_digit a 127, and_63 (a / 2))

pub and_255 : (a : ℕ) → bit_and a 255 ≡ a % 256
and_255 a = omega (arith, and_digit a 255, and_127 (a / 2))

and_2 : (a : ℕ) → bit_and a 2 ≡ a / 2 % 2 * 2
and_2 a = omega (arith, and_digit a 2, and_1 (a / 2))

and_4 : (a : ℕ) → bit_and a 4 ≡ a / 4 % 2 * 4
and_4 a = omega (arith, and_digit a 4, and_2 (a / 2))

and_8 : (a : ℕ) → bit_and a 8 ≡ a / 8 % 2 * 8
and_8 a = omega (arith, and_digit a 8, and_4 (a / 2))

and_16 : (a : ℕ) → bit_and a 16 ≡ a / 16 % 2 * 16
and_16 a = omega (arith, and_digit a 16, and_8 (a / 2))

and_32 : (a : ℕ) → bit_and a 32 ≡ a / 32 % 2 * 32
and_32 a = omega (arith, and_digit a 32, and_16 (a / 2))

and_64 : (a : ℕ) → bit_and a 64 ≡ a / 64 % 2 * 64
and_64 a = omega (arith, and_digit a 64, and_32 (a / 2))

-- `x & 0x80` is the digit of weight 128.
pub and_128 : (a : ℕ) → bit_and a 0x80 ≡ a / 128 % 2 * 128
and_128 a = omega (arith, and_digit a 128, and_64 (a / 2))

-- `r | (q << k)` is a sum where `r` fits `k` bits.
pub or_shifted : (k r q : ℕ) → r < 2 ^ k → bit_or r (q * 2 ^ k) ≡ r + q * 2 ^ k
or_shifted zero zero q h = omega (arith, zero-bit_or (q * 2 ^ 0))
or_shifted zero (suc r) q h = absurd (omega arith)
or_shifted (suc k) r q h = omega (
  arith,
  or_digit r (q * 2 ^ suc k),
  doubled,
  pow-suc 2 k,
  ap (λ (t : ℕ). bit_or (r / 2) t) halved,
  or_shifted k (r / 2) q (omega (arith, pow-suc 2 k)),
)
  where
    doubled : q * 2 ^ suc k ≡ 2 * (q * 2 ^ k)
    doubled = omega (arith, ap (λ (t : ℕ). q * t) (pow-suc 2 k))

    halved : q * 2 ^ suc k / 2 ≡ q * 2 ^ k
    halved = omega (arith, doubled)

-- `r | 0x80` where `r` fits seven bits.
pub or_128 : (r : ℕ) → r < 128 → bit_or r 0x80 ≡ r + 128
or_128 r h = or_shifted 7 r 1 (omega arith)

-- A union of words of `k` bits has `k` bits.
pub or-lt : (k a b : ℕ) → a < 2 ^ k → b < 2 ^ k → bit_or a b < 2 ^ k
or-lt zero zero zero p q = omega (arith, zero-bit_or 0)
or-lt zero (suc a) b p q = absurd (omega arith)
or-lt zero zero (suc b) p q = absurd (omega arith)
or-lt (suc k) a b p q = omega (
  arith,
  or_digit a b,
  pow-suc 2 k,
  or-lt k (a / 2) (b / 2) (omega (arith, pow-suc 2 k)) (omega (arith, pow-suc 2 k)),
)

or_comm_below : (n a b : ℕ) → a + b ≤ n → bit_or a b ≡ bit_or b a
or_comm_below zero zero zero h = refl
or_comm_below zero (suc a) b h = absurd (omega arith)
or_comm_below zero zero (suc b) h = absurd (omega arith)
or_comm_below (suc n) a b h =
    omega (arith, or_digit a b, or_digit b a, or_comm_below n (a / 2) (b / 2) (omega arith))

-- `(q << k) | r` is a sum where `r` fits `k` bits.
pub shifted_or : (k r q : ℕ) → r < 2 ^ k → bit_or (q * 2 ^ k) r ≡ q * 2 ^ k + r
shifted_or k r q h =
    omega (arith, or_comm_below (q * 2 ^ k + r) (q * 2 ^ k) r (omega arith), or_shifted k r q h)
