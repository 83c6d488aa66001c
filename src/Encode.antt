-- ===== src/Encode.antt =====
-- Writing of protobuf fields, as in 2_c/smartcity_common.c: buffer_append_varint,
-- buffer_append_key and the three kinds of field.
pub mod Shape
pub mod Sizes
use smartcity.Prelude.{
  ℕ, zero, suc, ◌+◌, ◌*◌, ◌/◌, ◌%◌, ◌^◌, bit_and, bit_or, Bool, true, false, Option, none, some, [],
  ◌∷◌, ◌++◌, Bytes, length, ltb, leb, if◌then◌else◌,
}
use smartcity.Outcome.{Outcome, ok, stuck, ◌>>=◌}
use smartcity.Buffer.{Buffer, buffer_append, buffer_append_byte, size_mod}
use smartcity.Double.{Double, double_bytes}

-- A `char *`: NULL, or the bytes before the NUL that ends the text.
abbrev pub CString : Type 0
CString = Option Bytes

-- A `uint64_t` has at most ten groups of seven bits.
abbrev pub varint_rounds : ℕ
varint_rounds = 10

-- `if (test && !w(…)) return false;`
abbrev pub when : Bool → (Buffer → Outcome Buffer) → Buffer → Outcome Buffer
when true w b = w b
when false w b = ok b

module _ (alloc : ℕ → Bool) where
  -- `while (value >= 0x80)`, for at most `rounds` passes.
  unfoldable pub append_varint_loop : ℕ → Buffer → ℕ → Outcome Buffer
  append_varint_loop zero b value = stuck
  append_varint_loop (suc rounds) b value =
      let byte = bit_or (bit_and value 0x7f) 0x80 % 256 in
      let more =
        buffer_append_byte alloc b byte >>= λ b'. append_varint_loop rounds b' (value / 2 ^ 7) in
      if leb 0x80 value then more else buffer_append_byte alloc b (value % 256)

  unfoldable pub buffer_append_varint : Buffer → ℕ → Outcome Buffer
  unfolding append_varint_loop
  buffer_append_varint b value = append_varint_loop varint_rounds b value

  unfoldable pub buffer_append_key : Buffer → ℕ → ℕ → Outcome Buffer
  buffer_append_key b field_number wire_type =
      buffer_append_varint b (bit_or (field_number * 2 ^ 3 % size_mod) wire_type)

  unfoldable pub buffer_append_string_field : Buffer → ℕ → CString → Outcome Buffer
  buffer_append_string_field b field_number none = ok b
  buffer_append_string_field b field_number (some []) = ok b
  buffer_append_string_field b field_number (some (c ∷ s)) = do
    b₁ ← buffer_append_key b field_number 2
    b₂ ← buffer_append_varint b₁ (length (c ∷ s))
    buffer_append alloc b₂ (c ∷ s)

  unfoldable pub buffer_append_double_field : Buffer → ℕ → Double → Outcome Buffer
  buffer_append_double_field b field_number value = do
    b₁ ← buffer_append_key b field_number 1
    buffer_append alloc b₁ (double_bytes value)

  unfoldable pub buffer_append_varint_field : Buffer → ℕ → ℕ → Outcome Buffer
  buffer_append_varint_field b field_number value = do
    b₁ ← buffer_append_key b field_number 0
    buffer_append_varint b₁ value
