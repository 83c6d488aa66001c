-- ===== src/Encode/Shape.antt =====
-- The bytes that each writer of `Encode` appends, as functions of the value alone, and the proof
-- that the writers append these.
use smartcity.Prelude.{
  ℕ, zero, suc, ◌+◌, ◌*◌, ◌/◌, ◌%◌, ◌^◌, ◌≤◌, ◌<◌, ◌≡◌, bit_and, bit_or, Bool, true, false, none,
  some, [], ◌∷◌, ◌++◌, Bytes, length, length-append, leb, if◌then◌else◌, arith, Bool-cases, inl,
  inr,
}
use smartcity.Prelude.Bits.{and_127, or_128}
use smartcity.Outcome.{Outcome, ◌>>=◌}
use smartcity.Buffer.{Buffer, buffer_append_byte, size_mod}
use smartcity.Buffer.Append.{Writes, Writes-then, Writes-nil, buffer_append-Writes}
use smartcity.Double.{Double, double_bytes}
use smartcity.Encode.{
  CString, when, append_varint_loop, buffer_append_varint, buffer_append_key,
  buffer_append_string_field, buffer_append_double_field, buffer_append_varint_field,
}
use native.Mathlib.Nat.{pow-suc}

-- The groups of seven bits of a number with at most `k + 1` of them.
unfoldable pub groups : ℕ → ℕ → Bytes
groups zero value = value ∷ []
groups (suc k) value =
    let rest = groups k (value / 128) in
    if leb 128 value then (value % 128 + 128) ∷ rest else value ∷ []

unfoldable pub varint_bytes : ℕ → Bytes
unfolding groups
varint_bytes value = groups 9 value

abbrev pub key_of : ℕ → ℕ → ℕ
key_of field_number wire_type = bit_or (field_number * 2 ^ 3 % size_mod) wire_type

unfoldable pub string_bytes : ℕ → CString → Bytes
string_bytes field_number none = []
string_bytes field_number (some []) = []
string_bytes field_number (some (c ∷ s)) =
    varint_bytes (key_of field_number 2) ++ (varint_bytes (length (c ∷ s)) ++ (c ∷ s))

unfoldable pub double_field_bytes : ℕ → Double → Bytes
double_field_bytes field_number value = varint_bytes (key_of field_number 1) ++ double_bytes value

unfoldable pub varint_field_bytes : ℕ → ℕ → Bytes
varint_field_bytes field_number value = varint_bytes (key_of field_number 0) ++ varint_bytes value

abbrev pub only : Bool → Bytes → Bytes
only true bytes = bytes
only false bytes = []

module _ (alloc : ℕ → Bool) where
  byte-Writes : (byte : ℕ) → Writes alloc (λ b. buffer_append_byte alloc b byte) (byte ∷ [])
  unfolding buffer_append_byte
  byte-Writes byte = buffer_append-Writes alloc (byte ∷ [])

  last_pass :
      (k : ℕ) (b : Buffer) (value : ℕ)
      → value < 128
      → append_varint_loop alloc (suc k) b value ≡ buffer_append_byte alloc b value
  unfolding append_varint_loop
  last_pass k b value h =
      let low : value % 256 ≡ value = omega arith in
      let test : leb 128 value ≡ false = ground arith in rw (test, low)

  inner_pass :
      (k : ℕ) (b : Buffer) (value : ℕ)
      → 128 ≤ value
      → append_varint_loop alloc (suc k) b value ≡ (
          buffer_append_byte alloc b (value % 128 + 128) >>= λ b'.
          append_varint_loop alloc k b' (value / 128))
  unfolding append_varint_loop
  inner_pass k b value h =
      let test : leb 128 value ≡ true = ground arith in
      let group : bit_or (bit_and value 0x7f) 0x80 % 256 ≡ value % 128 + 128 =
        rw and_127 (rw (or_128 (value % 128) (omega arith)) (omega arith)) in
      rw (test, group)

  loop-Writes :
      (k value : ℕ)
      → value < 128 ^ suc k
      → Writes alloc (λ b. append_varint_loop alloc (suc k) b value) (groups k value)
  unfolding groups
  loop-Writes zero value h = λ b. rw (last_pass zero b value (omega arith)) (byte-Writes value b)
  loop-Writes (suc k) value h = elim (Bool-cases (leb 128 value)) [
    | inl more ↦ rw more λ b. rw (inner_pass (suc k) b value (ground arith)) (
        Writes-then alloc (byte-Writes (value % 128 + 128))
          (loop-Writes k (value / 128) (omega (arith, pow-suc 128 (suc k)))) b)
    | inr last ↦ rw last λ b. rw (last_pass (suc k) b value (ground arith)) (byte-Writes value b)
  ]

  pub varint-Writes :
      (value : ℕ)
      → value < 2 ^ 64
      → Writes alloc (λ b. buffer_append_varint alloc b value) (varint_bytes value)
  unfolding buffer_append_varint varint_bytes
  varint-Writes value h = loop-Writes 9 value (omega arith)

  pub string-Writes :
      (field_number : ℕ) (value : CString)
      → key_of field_number 2 < 2 ^ 64
      → Writes alloc
          (λ b. buffer_append_string_field alloc b field_number value)
          (string_bytes field_number value)
  unfolding buffer_append_string_field string_bytes buffer_append_key
  string-Writes field_number none h = Writes-nil alloc
  string-Writes field_number (some []) h = Writes-nil alloc
  string-Writes field_number (some (c ∷ s)) h = λ b within fits.
      Writes-then alloc (varint-Writes (key_of field_number 2) h)
        (λ b' within' fits'.
          Writes-then alloc
            (varint-Writes (length (c ∷ s))
              (omega (arith, length-append (varint_bytes (length (c ∷ s))) (c ∷ s))))
            (buffer_append-Writes alloc (c ∷ s)) b' within' fits')
        b within fits

  pub double-Writes :
      (field_number : ℕ) (value : Double)
      → key_of field_number 1 < 2 ^ 64
      → Writes alloc
          (λ b. buffer_append_double_field alloc b field_number value)
          (double_field_bytes field_number value)
  unfolding buffer_append_double_field double_field_bytes buffer_append_key
  double-Writes field_number value h =
      Writes-then alloc (varint-Writes (key_of field_number 1) h)
        (buffer_append-Writes alloc (double_bytes value))

  pub varint_field-Writes :
      (field_number value : ℕ)
      → key_of field_number 0 < 2 ^ 64
      → value < 2 ^ 64
      → Writes alloc
          (λ b. buffer_append_varint_field alloc b field_number value)
          (varint_field_bytes field_number value)
  unfolding buffer_append_varint_field varint_field_bytes buffer_append_key
  varint_field-Writes field_number value h hv =
      Writes-then alloc (varint-Writes (key_of field_number 0) h) (varint-Writes value hv)

  pub when-Writes :
      (test : Bool) {w : Buffer → Outcome Buffer} {bytes : Bytes}
      → Writes alloc w bytes
      → Writes alloc (when test w) (only test bytes)
  when-Writes true h = h
  when-Writes false h = Writes-nil alloc
