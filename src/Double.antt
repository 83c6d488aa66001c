-- ===== src/Double.antt =====
-- The C type `double` as its bit pattern, an IEEE 754 binary64 word below 2 ^ 64, and the tests that
-- the source makes of it. On the targets a pattern lies in memory with its lowest byte first.
pub mod Order
use smartcity.Prelude.{
  ℕ, ◌+◌, ◌*◌, ◌/◌, ◌%◌, ◌^◌, ◌<◌, ◌≡◌, Bool, true, false, not, ◌&&◌, ◌||◌, [], ◌∷◌, Bytes, ltb,
  leb, ◌==◌, if◌then◌else◌, arith,
}

abbrev pub Double : Type 0
Double = ℕ

abbrev pub IsDouble : Double → Type 0
IsDouble x = x < 2 ^ 64

-- `x == 0.0`, which both zeros pass.
unfoldable pub is_zero : Double → Bool
is_zero x = x % 2 ^ 63 == 0

unfoldable pub is_nan : Double → Bool
is_nan x = ltb 0x7ff0_0000_0000_0000 (x % 2 ^ 63)

unfoldable pub is_negative : Double → Bool
is_negative x = leb (2 ^ 63) x

-- `a < b`: false where one is no number, and by sign and magnitude elsewhere.
unfoldable pub lt_double : Double → Double → Bool
unfolding is_zero is_nan is_negative
lt_double a b =
    if is_nan a || is_nan b
    then false
    else if is_zero a && is_zero b
    then false
    else if is_negative a
    then (if is_negative b then ltb b a else true)
    else (if is_negative b then false else ltb a b)

-- The eight bytes that `memcpy` takes out of a `double`, and the value that they spell.
unfoldable pub double_bytes : Double → Bytes
double_bytes x =
    x % 256
    ∷ x / 2 ^ 8 % 256
    ∷ x / 2 ^ 16 % 256
    ∷ x / 2 ^ 24 % 256
    ∷ x / 2 ^ 32 % 256
    ∷ x / 2 ^ 40 % 256
    ∷ x / 2 ^ 48 % 256
    ∷ x / 2 ^ 56 % 256
    ∷ []

unfoldable pub double_of_bytes : Bytes → Double
double_of_bytes [] = 0
double_of_bytes (b ∷ bs) = b + 256 * double_of_bytes bs

pub double_of_bytes-double_bytes : (x : Double) → IsDouble x → double_of_bytes (double_bytes x) ≡ x
unfolding double_of_bytes double_bytes
double_of_bytes-double_bytes x h = omega arith

-- `a <= b`
unfoldable pub le_double : Double → Double → Bool
unfolding lt_double
le_double a b = not (is_nan a || is_nan b) && not (lt_double b a)

abbrev pub double_2 : Double
double_2 = 0x4000_0000_0000_0000

abbrev pub double_3 : Double
double_3 = 0x4008_0000_0000_0000

abbrev pub double_10 : Double
double_10 = 0x4024_0000_0000_0000

abbrev pub double_70 : Double
double_70 = 0x4051_8000_0000_0000

abbrev pub double_100 : Double
double_100 = 0x4059_0000_0000_0000

abbrev pub double_900 : Double
double_900 = 0x408c_2000_0000_0000

-- The arithmetic of the processor and the C library on `double`, which the model takes as given.
pub record Arithmetic : Type 0 where
  pub add : Double → Double → Double
  pub sub : Double → Double → Double
  pub mul : Double → Double → Double
  pub div : Double → Double → Double
  pub of_count : ℕ → Double
  -- `(double)(int)x`
  pub truncate : Double → Double
  -- `%.15g` and `%.0f`
  pub format_g15 : Double → Bytes
  pub format_f0 : Double → Bytes
