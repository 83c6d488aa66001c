-- ===== src/Encode/Sizes.antt =====
-- How long the fields are that the writers of 2_c/smartcity_common.c make.
use smartcity.Prelude.{
  ℕ, zero, suc, ◌+◌, ◌/◌, ◌≤◌, Bool, true, false, some, none, [], ◌∷◌, ◌++◌, Bytes, length,
  length-append, arith,
}
use smartcity.Double.{Double, double_bytes}
use smartcity.Encode.{CString}
use smartcity.CString.{or_empty}
use smartcity.Encode.Shape.{
  groups, varint_bytes, string_bytes, varint_field_bytes, double_field_bytes, only, key_of,
}

length-groups : (k value : ℕ) → length (groups k value) ≤ suc k
unfolding groups
length-groups zero value = omega arith
length-groups (suc k) value = ground (arith, length-groups k (value / 128))

length-varint_bytes : (value : ℕ) → length (varint_bytes value) ≤ 10
unfolding varint_bytes
length-varint_bytes value = length-groups 9 value

pub length-varint_field_bytes : (n value : ℕ) → length (varint_field_bytes n value) ≤ 20
unfolding varint_field_bytes
length-varint_field_bytes n value =
    rw (length-append (varint_bytes (key_of n 0)) (varint_bytes value))
      (omega (arith, length-varint_bytes (key_of n 0), length-varint_bytes value))

pub length-double_field_bytes : (n : ℕ) (x : Double) → length (double_field_bytes n x) ≤ 18
unfolding double_field_bytes double_bytes
length-double_field_bytes n x =
    rw (length-append (varint_bytes (key_of n 1)) (double_bytes x))
      (omega (arith, length-varint_bytes (key_of n 1)))

pub length-string_bytes :
    (n : ℕ) (c : CString) → length (or_empty c) ≤ 255 → length (string_bytes n c) ≤ 275
unfolding string_bytes
length-string_bytes n none h = omega arith
length-string_bytes n (some []) h = omega arith
length-string_bytes n (some (c ∷ s)) h =
    rw
      (
        length-append (varint_bytes (key_of n 2)) (varint_bytes (length (c ∷ s)) ++ (c ∷ s)),
        length-append (varint_bytes (length (c ∷ s))) (c ∷ s),
      )
      (omega (arith, length-varint_bytes (key_of n 2), length-varint_bytes (length (c ∷ s))))

pub length-only : (b : Bool) (bytes : Bytes) (n : ℕ) → length bytes ≤ n → length (only b bytes) ≤ n
length-only true bytes n h = h
length-only false bytes n h = omega arith

pub append-short :
    (xs ys : Bytes) (m n : ℕ) → length xs ≤ m → length ys ≤ n → length (xs ++ ys) ≤ m + n
append-short xs ys m n h k = rw (length-append xs ys) (omega arith)
