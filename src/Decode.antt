-- ===== src/Decode.antt =====
-- Reading of protobuf fields, as in 2_c/smartcity_common.c: read_varint, read_key,
-- read_length_delimited, read_fixed64_double, skip_field, and the loop over the fields of a message.
-- `mem` holds the bytes of the object from the pointer `data` on, `len` is the length that the
-- caller claims, and `pos` the cursor; a read behind the end of `mem` is a `fault`.
pub mod Varint
pub mod Fields
pub mod Stores
pub mod Diverge
pub mod Safety
use smartcity.Prelude.{
  ℕ, zero, suc, ◌+◌, ◌-◌, ◌*◌, ◌/◌, ◌%◌, ◌^◌, bit_and, bit_or, Bool, true, false, not, ◌&&◌, ◌||◌,
  some, [], ◌∷◌, Bytes, length, take, drop, ltb, leb, ◌==◌, if◌then◌else◌,
}
use smartcity.Outcome.{Outcome, ok, rejected, fault, stuck, ◌>>=◌}
use smartcity.Buffer.{size_mod}
use smartcity.Double.{Double, double_of_bytes}
use smartcity.Encode.{CString}

-- A cast to `uint32_t`, or to an `enum` of the source, which the compilers give that width.
abbrev pub to_u32 : ℕ → ℕ
to_u32 x = x % 2 ^ 32

-- The bytes from the cursor on are walked together with the cursor.
unfoldable pub scan : Bytes → ℕ → ℕ → ℕ → ℕ → Outcome (ℕ × ℕ)
scan [] len pos result shift = if ltb pos len && ltb shift 64 then fault else rejected
scan (byte ∷ rest) len pos result shift =
    let result' = bit_or result (bit_and byte 0x7f * 2 ^ shift % size_mod) in
    let more = scan rest len (suc pos) result' (shift + 7) in
    let here = if bit_and byte 0x80 == 0 then ok (result', suc pos) else more in
    if ltb pos len && ltb shift 64 then here else rejected

unfoldable pub read_varint : Bytes → ℕ → ℕ → Outcome (ℕ × ℕ)
unfolding scan
read_varint mem len pos = scan (drop pos mem) len pos 0 0

unfoldable pub read_key : Bytes → ℕ → ℕ → Outcome (ℕ × ℕ × ℕ)
unfolding read_varint
read_key mem len pos = do
  (key, pos') ← read_varint mem len pos
  ok (to_u32 (key / 2 ^ 3), to_u32 (bit_and key 0x07), pos')

-- The start and the length of the slice, and the cursor behind it. `*pos + field_len` wraps.
unfoldable pub read_length_delimited : Bytes → ℕ → ℕ → Outcome (ℕ × ℕ × ℕ)
unfolding read_varint
read_length_delimited mem len pos = do
  (field_len, pos') ← read_varint mem len pos
  let beyond = (pos' + field_len) % size_mod
  if ltb (size_mod - 1) field_len || ltb len beyond then rejected else ok (pos', field_len, beyond)

unfoldable pub read_fixed64_double : Bytes → ℕ → ℕ → Outcome (Double × ℕ)
read_fixed64_double mem len pos =
    let eight = take 8 (drop pos mem) in
    if ltb len ((pos + 8) % size_mod)
    then rejected
    else if length eight == 8
    then ok (double_of_bytes eight, (pos + 8) % size_mod)
    else fault

unfoldable pub skip_field : Bytes → ℕ → ℕ → ℕ → Outcome ℕ
unfolding read_varint read_length_delimited
skip_field mem len pos wire_type =
    let varint = read_varint mem len pos >>= λ (_, pos'). ok pos' in
    let slice = read_length_delimited mem len pos >>= λ (_, _, pos'). ok pos' in
    let fixed = λ (width : ℕ).
      if ltb len ((pos + width) % size_mod) then rejected else ok ((pos + width) % size_mod) in
    if wire_type == 0
    then varint
    else if wire_type == 1
    then fixed 8
    else if wire_type == 2
    then slice
    else if wire_type == 5
    then fixed 4
    else rejected

-- The text before the first NUL of the copied bytes.
unfoldable pub before_nul : Bytes → Bytes
before_nul [] = []
before_nul (c ∷ s) = let rest = c ∷ before_nul s in if c == 0 then [] else rest

-- smart_dup_slice: NULL, which its callers turn into `return false`, where the allocator refuses.
unfoldable pub smart_dup_slice : (ℕ → Bool) → Bytes → ℕ → ℕ → Outcome CString
unfolding before_nul
smart_dup_slice alloc mem start n =
    if not (alloc ((n + 1) % size_mod))
    then rejected
    else if ltb (length (drop start mem)) n
    then fault
    else ok (some (before_nul (take n (drop start mem))))

-- A switch: field number, wire type, object, claimed length, cursor and the message so far.
abbrev pub Switch {ℓ} : Type ℓ → Type ℓ
Switch S = ℕ → ℕ → Bytes → ℕ → ℕ → S → Outcome (S × ℕ)

-- The three kinds of `case` in the switches: the wire type is checked, the value read and stored.
module _ {ℓ} {S : Type ℓ} where
  unfoldable pub string_case : (ℕ → Bool) → (CString → S) → ℕ → Bytes → ℕ → ℕ → Outcome (S × ℕ)
  unfolding smart_dup_slice read_length_delimited
  string_case alloc store wire_type mem len pos =
      let read : Outcome (S × ℕ) = do
        (start, n, pos') ← read_length_delimited mem len pos
        text ← smart_dup_slice alloc mem start n
        ok (store text, pos')
      in if wire_type == 2 then read else rejected

  unfoldable pub varint_case : (ℕ → S) → ℕ → Bytes → ℕ → ℕ → Outcome (S × ℕ)
  unfolding read_varint
  varint_case store wire_type mem len pos =
      let read : Outcome (S × ℕ) = read_varint mem len pos >>= λ (v, pos'). ok (store v, pos') in
      if wire_type == 0 then read else rejected

  unfoldable pub double_case : (Double → S) → ℕ → Bytes → ℕ → ℕ → Outcome (S × ℕ)
  unfolding read_fixed64_double
  double_case store wire_type mem len pos =
      let read : Outcome (S × ℕ) =
        read_fixed64_double mem len pos >>= λ (v, pos'). ok (store v, pos') in
      if wire_type == 1 then read else rejected

  -- `default: if (!skip_field(…)) return false;`
  unfoldable pub unknown_case : S → ℕ → Bytes → ℕ → ℕ → Outcome (S × ℕ)
  unfolding skip_field
  unknown_case state wire_type mem len pos =
      skip_field mem len pos wire_type >>= λ pos'. ok (state, pos')

  -- `while (pos < len) { read_key; switch }`, for at most `rounds` passes.
  unfoldable pub field_loop : Switch S → ℕ → Bytes → ℕ → ℕ → S → Outcome S
  unfolding read_key
  field_loop switch zero mem len pos state = if ltb pos len then stuck else ok state
  field_loop switch (suc rounds) mem len pos state =
      let pass = do
        (field_number, wire_type, pos₁) ← read_key mem len pos
        (state', pos₂) ← switch field_number wire_type mem len pos₁ state
        field_loop switch rounds mem len pos₂ state'
      in if ltb pos len then pass else ok state
