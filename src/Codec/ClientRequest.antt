-- ===== src/Codec/ClientRequest.antt =====
-- ClientRequest on the wire: the writer and the reader of 2_c/smartcity_common.c.
pub mod RoundTrip
use smartcity.Prelude.{ℕ, Bool, not, Bytes, ◌==◌, if◌then◌else◌, ◌%◌, ◌^◌}
use smartcity.Outcome.{Outcome, ◌>>=◌}
use smartcity.Buffer.{Buffer, smart_buffer_init}
use smartcity.Double.{is_zero}
use smartcity.Encode.{
  when, buffer_append_string_field, buffer_append_varint_field, buffer_append_double_field,
}
use smartcity.Decode.{
  Switch, string_case, varint_case, double_case, unknown_case, field_loop, to_u32,
}
use smartcity.Message.{ClientRequest, zero_client_request}

module _ (alloc : ℕ → Bool) where
  unfoldable pub client_request_fields : ClientRequest → Buffer → Outcome Buffer
  client_request_fields m b₀ = do
    b₁ ←
        when (not (m.request_type == 0)) (λ b. buffer_append_varint_field alloc b 1 m.request_type)
          b₀
    b₂ ← buffer_append_string_field alloc b₁ 2 m.target_sensor_id
    b₃ ← when (not (is_zero m.value)) (λ b. buffer_append_double_field alloc b 3 m.value) b₂
    b₄ ←
        when (not (m.command_type == 0)) (λ b. buffer_append_varint_field alloc b 4 m.command_type)
          b₃
    buffer_append_string_field alloc b₄ 5 m.text_value

  unfoldable pub smart_encode_client_request : ClientRequest → Outcome Buffer
  unfolding client_request_fields
  smart_encode_client_request m = client_request_fields m smart_buffer_init

  -- The body of the loop of `smart_parse_client_request`.
  unfoldable pub client_request_switch : Switch ClientRequest
  unfolding string_case varint_case double_case unknown_case
  client_request_switch field_number wire_type mem len pos m =
      if field_number == 1
      then varint_case (λ v. record m { request_type = to_u32 v }) wire_type mem len pos
      else if field_number == 2
      then string_case alloc (λ v. record m { target_sensor_id = v }) wire_type mem len pos
      else if field_number == 3
      then double_case (λ v. record m { value = v }) wire_type mem len pos
      else if field_number == 4
      then varint_case (λ v. record m { command_type = to_u32 v }) wire_type mem len pos
      else if field_number == 5
      then string_case alloc (λ v. record m { text_value = v }) wire_type mem len pos
      else unknown_case m wire_type mem len pos

  unfoldable pub smart_parse_client_request : ℕ → Bytes → ℕ → Outcome ClientRequest
  unfolding field_loop client_request_switch
  smart_parse_client_request rounds mem len =
      field_loop client_request_switch rounds mem len 0 zero_client_request
