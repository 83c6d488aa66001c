-- ===== src/Codec/ClientResponse.antt =====
-- ClientResponse on the wire, with the messages that are nested in it: smart_encode_client_response
-- and smart_parse_client_response of 2_c/smartcity_common.c, with append_sensor_info and
-- append_reading. A nested message is read with a round for each byte that it claims.
pub mod Nested
pub mod RoundTrip
use smartcity.Prelude.{
  ℕ, suc, ◌+◌, ◌*◌, ◌%◌, ◌^◌, Bool, not, List, [], ◌∷◌, ◌++◌, Bytes, length, drop, ◌==◌,
  if◌then◌else◌,
}
use smartcity.Outcome.{Outcome, ok, rejected, ◌>>=◌}
use smartcity.Buffer.{Buffer, smart_buffer_init, buffer_append, size_mod}
use smartcity.Double.{is_zero}
use smartcity.Encode.{
  when, buffer_append_key, buffer_append_varint, buffer_append_string_field,
  buffer_append_varint_field, buffer_append_double_field,
}
use smartcity.Decode.{
  Switch, read_length_delimited, string_case, varint_case, double_case, unknown_case, field_loop,
  to_u32,
}
use smartcity.Message.{SensorInfo, SensorReading, ClientResponse, zero_client_response}
use smartcity.Codec.SensorInfo.{encode_sensor_info, parse_sensor_info}
use smartcity.Codec.SensorReading.{encode_sensor_reading_internal, parse_sensor_reading_internal}

-- `sizeof(SensorInfo)` and `sizeof(SensorReading)` on the 64-bit targets.
abbrev pub item_size : ℕ
item_size = 64

module _ (alloc : ℕ → Bool) where
  -- The body of both loops: the nested message in a buffer of its own, then the key, its length and
  -- its bytes.
  pub append_nested : ℕ → (Buffer → Outcome Buffer) → Buffer → Outcome Buffer
  unfolding smart_buffer_init
  append_nested field_number encode b₀ = do
    nested ← encode smart_buffer_init
    b₁ ← buffer_append_key alloc b₀ field_number 2
    b₂ ← buffer_append_varint alloc b₁ (length nested.contents)
    buffer_append alloc b₂ nested.contents

  pub encode_sensors : List SensorInfo → Buffer → Outcome Buffer
  encode_sensors [] b = ok b
  encode_sensors (s ∷ rest) b =
      append_nested 3 (encode_sensor_info alloc s) b >>= λ b'. encode_sensors rest b'

  pub encode_readings : List SensorReading → Buffer → Outcome Buffer
  encode_readings [] b = ok b
  encode_readings (r ∷ rest) b =
      append_nested 5 (encode_sensor_reading_internal alloc r) b >>= λ b'. encode_readings rest b'

  pub client_response_fields : ClientResponse → Buffer → Outcome Buffer
  client_response_fields m b₀ = do
    b₁ ← when (not (m.status == 0)) (λ b. buffer_append_varint_field alloc b 1 m.status) b₀
    b₂ ← buffer_append_string_field alloc b₁ 2 m.message
    b₃ ← encode_sensors m.sensors b₂
    b₄ ←
        when (not (is_zero m.metric_value))
          (λ b. buffer_append_double_field alloc b 4 m.metric_value) b₃
    encode_readings m.readings b₄

  unfoldable pub smart_encode_client_response : ClientResponse → Outcome Buffer
  unfolding client_response_fields append_nested encode_sensors encode_readings
  smart_encode_client_response m = client_response_fields m smart_buffer_init

  -- append_sensor_info and append_reading: the array is reallocated for one more item.
  unfoldable pub append_item {ℓ} : {A : Type ℓ} → List A → A → Outcome (List A)
  append_item items x =
      if alloc ((length items + 1) * item_size % size_mod) then ok (items ++ (x ∷ [])) else rejected

  -- A case of the switch that parses a nested message and appends it.
  unfoldable pub nested_case {ℓ κ} :
      {S : Type ℓ} {A : Type κ}
      → (Bytes → ℕ → Outcome A)
      → (A → Outcome S)
      → ℕ
      → Bytes
      → ℕ
      → ℕ
      → Outcome (S × ℕ)
  unfolding read_length_delimited
  nested_case {S = S} parse store wire_type mem len pos =
      let read : Outcome (S × ℕ) = do
        (start, n, pos') ← read_length_delimited mem len pos
        x ← parse (drop start mem) n
        state ← store x
        ok (state, pos')
      in if wire_type == 2 then read else rejected

  -- The body of the loop of `smart_parse_client_response`.
  unfoldable pub client_response_switch : Switch ClientResponse
  unfolding string_case varint_case double_case unknown_case nested_case append_item
  client_response_switch field_number wire_type mem len pos m =
      if field_number == 1
      then varint_case (λ v. record m { status = to_u32 v }) wire_type mem len pos
      else if field_number == 2
      then string_case alloc (λ v. record m { message = v }) wire_type mem len pos
      else if field_number == 3
      then nested_case (λ mem' n. parse_sensor_info alloc n mem' n)
          (λ x. append_item m.sensors x >>= λ xs. ok (record m { sensors = xs })) wire_type mem len
          pos
      else if field_number == 4
      then double_case (λ v. record m { metric_value = v }) wire_type mem len pos
      else if field_number == 5
      then nested_case (λ mem' n. parse_sensor_reading_internal alloc n mem' n)
          (λ x. append_item m.readings x >>= λ xs. ok (record m { readings = xs })) wire_type mem
          len pos
      else unknown_case m wire_type mem len pos

  unfoldable pub smart_parse_client_response : ℕ → Bytes → ℕ → Outcome ClientResponse
  unfolding field_loop client_response_switch
  smart_parse_client_response rounds mem len =
      field_loop client_response_switch rounds mem len 0 zero_client_response
