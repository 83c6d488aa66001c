-- ===== src/Client/Writer.antt =====
-- The growing buffer and the writers of fields in 2_c/client.c: buffer_init, buffer_reserve,
-- buffer_append to buffer_append_varint_field, and encode_client_request. As in Buffer, `alloc n` says
-- whether a request for `n` bytes is granted.
pub mod Equal
use smartcity.Prelude.{
  ℕ, zero, suc, ◌+◌, ◌*◌, ◌/◌, ◌%◌, ◌^◌, bit_and, bit_or, Bool, not, none, some, [], ◌∷◌, ◌++◌,
  Bytes, length, ltb, leb, ◌==◌, if◌then◌else◌,
}
use smartcity.Outcome.{Outcome, ok, rejected, stuck, ◌>>=◌}
use smartcity.Buffer.{Buffer, size_mod}
use smartcity.Double.{Double, double_bytes, is_zero}
use smartcity.Encode.{CString, when}
use smartcity.Message.{ClientRequest}

unfoldable pub buffer_init : Buffer
buffer_init = record { contents = []; cap = 0 }

-- `while (new_cap < buf->len + extra)`, for at most `rounds` doublings.
unfoldable pub capacity_loop : ℕ → ℕ → ℕ → Outcome ℕ
capacity_loop zero needed new_cap = if ltb new_cap needed then stuck else ok new_cap
capacity_loop (suc rounds) needed new_cap =
    let next = capacity_loop rounds needed (new_cap * 2 % size_mod) in
    if ltb new_cap needed then next else ok new_cap

module _ (alloc : ℕ → Bool) where
  -- 64 doublings are enough.
  unfoldable pub buffer_reserve : Buffer → ℕ → Outcome Buffer
  unfolding capacity_loop
  buffer_reserve buf extra =
      let needed = (length buf.contents + extra) % size_mod in
      let grown : Outcome Buffer =
        capacity_loop 64 needed (if buf.cap == 0 then 128 else buf.cap) >>= λ new_cap.
        (if alloc new_cap then ok (record buf { cap = new_cap }) else rejected) in
      if leb needed buf.cap then ok buf else grown

  unfoldable pub buffer_append : Buffer → Bytes → Outcome Buffer
  unfolding buffer_reserve
  buffer_append buf bytes =
      buffer_reserve buf (length bytes) >>= λ b. ok (record b { contents = b.contents ++ bytes })

  unfoldable pub buffer_append_byte : Buffer → ℕ → Outcome Buffer
  unfolding buffer_append
  buffer_append_byte buf byte = buffer_append buf (byte ∷ [])

  -- `while (value >= 0x80)`, for at most `rounds` passes.
  unfoldable pub groups_loop : ℕ → Buffer → ℕ → Outcome Buffer
  groups_loop zero buf value = stuck
  groups_loop (suc rounds) buf value =
      let next = buffer_append_byte buf (bit_or (bit_and value 0x7f) 0x80 % 256) >>= λ b.
      groups_loop rounds b (value / 2 ^ 7) in
      if leb 0x80 value then next else buffer_append_byte buf (value % 256)

  unfoldable pub buffer_append_varint : Buffer → ℕ → Outcome Buffer
  unfolding groups_loop
  buffer_append_varint buf value = groups_loop 10 buf value

  unfoldable pub buffer_append_key : Buffer → ℕ → ℕ → Outcome Buffer
  unfolding buffer_append_varint
  buffer_append_key buf field_number wire_type =
      buffer_append_varint buf (bit_or (field_number * 2 ^ 3 % size_mod) wire_type)

  unfoldable pub buffer_append_string_field : Buffer → ℕ → CString → Outcome Buffer
  unfolding buffer_append buffer_append_varint buffer_append_key
  buffer_append_string_field buf field_number none = ok buf
  buffer_append_string_field buf field_number (some []) = ok buf
  buffer_append_string_field buf field_number (some (c ∷ s)) = do
    b₁ ← buffer_append_key buf field_number 2
    b₂ ← buffer_append_varint b₁ (length (c ∷ s))
    buffer_append b₂ (c ∷ s)

  unfoldable pub buffer_append_double_field : Buffer → ℕ → Double → Outcome Buffer
  unfolding buffer_append buffer_append_key
  buffer_append_double_field buf field_number value =
      buffer_append_key buf field_number 1 >>= λ b. buffer_append b (double_bytes value)

  unfoldable pub buffer_append_varint_field : Buffer → ℕ → ℕ → Outcome Buffer
  unfolding buffer_append_varint buffer_append_key
  buffer_append_varint_field buf field_number value =
      buffer_append_key buf field_number 0 >>= λ b. buffer_append_varint b value

  -- The request type is written also where it is 0.
  unfoldable pub encode_client_request : ClientRequest → Outcome Buffer
  unfolding buffer_init buffer_append_string_field buffer_append_double_field
      buffer_append_varint_field
  encode_client_request req = do
    b₁ ← buffer_append_varint_field buffer_init 1 req.request_type
    b₂ ← buffer_append_string_field b₁ 2 req.target_sensor_id
    b₃ ← when (not (is_zero req.value)) (λ b. buffer_append_double_field b 3 req.value) b₂
    b₄ ←
        when (not (req.command_type == 0)) (λ b. buffer_append_varint_field b 4 req.command_type) b₃
    buffer_append_string_field b₄ 5 req.text_value
