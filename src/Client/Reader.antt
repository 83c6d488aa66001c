-- ===== src/Client/Reader.antt =====
-- The readers of fields in 2_c/client.c: read_varint, read_key, read_length_delimited,
-- read_fixed64_double, skip_field and dup_slice, and the cases of its switches. As in Decode, `mem`
-- holds the bytes of the object, `len` is the claimed length and `pos` the cursor.
use smartcity.Prelude.{
  ℕ, zero, suc, ◌+◌, ◌-◌, ◌*◌, ◌/◌, ◌%◌, ◌^◌, bit_and, bit_or, Bool, not, ◌&&◌, ◌||◌, some, [], ◌∷◌,
  Bytes, length, take, drop, ltb, ◌==◌, if◌then◌else◌,
}
use smartcity.Outcome.{Outcome, ok, rejected, fault, stuck, ◌>>=◌}
use smartcity.Buffer.{size_mod}
use smartcity.Double.{Double, double_of_bytes}
use smartcity.Encode.{CString}
use smartcity.Decode.{Switch, to_u32, before_nul}

-- The loop of `read_varint`, on the bytes from the cursor on.
unfoldable pub varint_loop : Bytes → ℕ → ℕ → ℕ → ℕ → Outcome (ℕ × ℕ)
varint_loop [] len pos shift result = if ltb pos len && ltb shift 64 then fault else rejected
varint_loop (byte ∷ rest) len pos shift result =
    let result' = bit_or result (bit_and byte 0x7f * 2 ^ shift % size_mod) in
    let next = varint_loop rest len (suc pos) (shift + 7) result' in
    let pass = if bit_and byte 0x80 == 0 then ok (result', suc pos) else next in
    if ltb pos len && ltb shift 64 then pass else rejected

unfoldable pub read_varint : Bytes → ℕ → ℕ → Outcome (ℕ × ℕ)
unfolding varint_loop
read_varint mem len pos = varint_loop (drop pos mem) len pos 0 0

-- The field number, the wire type and the cursor behind the key.
unfoldable pub read_key : Bytes → ℕ → ℕ → Outcome (ℕ × ℕ × ℕ)
unfolding read_varint
read_key mem len pos = read_varint mem len pos >>= λ (key, pos').
    ok (to_u32 (key / 2 ^ 3), to_u32 (bit_and key 0x07), pos')

-- The start and the length of the slice, and the cursor behind it.
unfoldable pub read_length_delimited : Bytes → ℕ → ℕ → Outcome (ℕ × ℕ × ℕ)
unfolding read_varint
read_length_delimited mem len pos = read_varint mem len pos >>= λ (field_len, pos').
    if ltb (size_mod - 1) field_len || ltb len ((pos' + field_len) % size_mod)
    then rejected
    else ok (pos', field_len, (pos' + field_len) % size_mod)

unfoldable pub read_fixed64_double : Bytes → ℕ → ℕ → Outcome (Double × ℕ)
read_fixed64_double mem len pos =
    let copied = take 8 (drop pos mem) in
    if ltb len ((pos + 8) % size_mod)
    then rejected
    else if length copied == 8
    then ok (double_of_bytes copied, (pos + 8) % size_mod)
    else fault

unfoldable pub skip_field : Bytes → ℕ → ℕ → ℕ → Outcome ℕ
unfolding read_varint read_length_delimited
skip_field mem len pos wire_type =
    let over = λ (width : ℕ).
      if ltb len ((pos + width) % size_mod) then rejected else ok ((pos + width) % size_mod) in
    let varint = read_varint mem len pos >>= λ (_, pos'). ok pos' in
    let slice = read_length_delimited mem len pos >>= λ (_, _, pos'). ok pos' in
    if wire_type == 0
    then varint
    else if wire_type == 1
    then over 8
    else if wire_type == 2
    then slice
    else if wire_type == 5
    then over 4
    else rejected

unfoldable pub dup_slice : (ℕ → Bool) → Bytes → ℕ → ℕ → Outcome CString
unfolding before_nul
dup_slice alloc mem start n =
    if not (alloc ((n + 1) % size_mod))
    then rejected
    else if ltb (length (drop start mem)) n
    then fault
    else ok (some (before_nul (take n (drop start mem))))

-- The cases of the switches: the wire type is tested, the value read and stored in the message.
module _ {ℓ} {S : Type ℓ} where
  unfoldable pub text_case : (ℕ → Bool) → (CString → S) → ℕ → Bytes → ℕ → ℕ → Outcome (S × ℕ)
  unfolding dup_slice read_length_delimited
  text_case alloc store wire_type mem len pos =
      let read : Outcome (S × ℕ) = read_length_delimited mem len pos >>= λ (start, n, pos').
      dup_slice alloc mem start n >>= λ text. ok (store text, pos') in
      if wire_type == 2 then read else rejected

  unfoldable pub number_case : (ℕ → S) → ℕ → Bytes → ℕ → ℕ → Outcome (S × ℕ)
  unfolding read_varint
  number_case store wire_type mem len pos =
      let read : Outcome (S × ℕ) = read_varint mem len pos >>= λ (v, pos'). ok (store v, pos') in
      if wire_type == 0 then read else rejected

  unfoldable pub double_case : (Double → S) → ℕ → Bytes → ℕ → ℕ → Outcome (S × ℕ)
  unfolding read_fixed64_double
  double_case store wire_type mem len pos =
      let read : Outcome (S × ℕ) =
        read_fixed64_double mem len pos >>= λ (v, pos'). ok (store v, pos') in
      if wire_type == 1 then read else rejected

  unfoldable pub other_case : S → ℕ → Bytes → ℕ → ℕ → Outcome (S × ℕ)
  unfolding skip_field
  other_case state wire_type mem len pos =
      skip_field mem len pos wire_type >>= λ pos'. ok (state, pos')

  -- `while (pos < len) { read_key; switch }`, for at most `rounds` passes.
  unfoldable pub parse_loop : Switch S → ℕ → Bytes → ℕ → ℕ → S → Outcome S
  unfolding read_key
  parse_loop switch zero mem len pos state = if ltb pos len then stuck else ok state
  parse_loop switch (suc rounds) mem len pos state =
      let pass = read_key mem len pos >>= λ (field_number, wire_type, pos₁).
      switch field_number wire_type mem len pos₁ state >>= λ (state', pos₂).
      parse_loop switch rounds mem len pos₂ state' in
      if ltb pos len then pass else ok state
