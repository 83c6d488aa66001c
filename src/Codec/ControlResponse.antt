-- ===== src/Codec/ControlResponse.antt =====
-- ControlResponse on the wire: the writer and the reader of 2_c/smartcity_common.c.
pub mod RoundTrip
use smartcity.Prelude.{ℕ, Bool, not, Bytes, ◌==◌, if◌then◌else◌, ◌%◌, ◌^◌}
use smartcity.Outcome.{Outcome, ◌>>=◌}
use smartcity.Buffer.{Buffer, smart_buffer_init}
use smartcity.Double.{is_zero}
use smartcity.Encode.{
  when, buffer_append_string_field, buffer_append_varint_field, buffer_append_double_field,
}
use smartcity.Decode.{
  Switch, string_case, varint_case, double_case, unknown_case, field_loop, to_u32,
}
use smartcity.Message.{ControlResponse, zero_control_response}

module _ (alloc : ℕ → Bool) where
  unfoldable pub encode_control_response_internal : ControlResponse → Buffer → Outcome Buffer
  encode_control_response_internal m b₀ = do
    b₁ ← when (not (m.status == 0)) (λ b. buffer_append_varint_field alloc b 1 m.status) b₀
    b₂ ← buffer_append_string_field alloc b₁ 2 m.message
    b₃ ← buffer_append_string_field alloc b₂ 3 m.sensor_id
    b₄ ← when m.is_active (λ b. buffer_append_varint_field alloc b 4 1) b₃
    b₅ ←
        when (not (is_zero m.frequency_seconds))
          (λ b. buffer_append_double_field alloc b 5 m.frequency_seconds) b₄
    b₆ ← when (not (is_zero m.threshold)) (λ b. buffer_append_double_field alloc b 6 m.threshold) b₅
    buffer_append_string_field alloc b₆ 7 m.state_text

  unfoldable pub smart_encode_control_response : ControlResponse → Outcome Buffer
  unfolding encode_control_response_internal
  smart_encode_control_response m = encode_control_response_internal m smart_buffer_init

  -- The body of the loop of `smart_parse_control_response`.
  unfoldable pub control_response_switch : Switch ControlResponse
  unfolding string_case varint_case double_case unknown_case
  control_response_switch field_number wire_type mem len pos m =
      if field_number == 1
      then varint_case (λ v. record m { status = to_u32 v }) wire_type mem len pos
      else if field_number == 2
      then string_case alloc (λ v. record m { message = v }) wire_type mem len pos
      else if field_number == 3
      then string_case alloc (λ v. record m { sensor_id = v }) wire_type mem len pos
      else if field_number == 4
      then varint_case (λ v. record m { is_active = not (v == 0) }) wire_type mem len pos
      else if field_number == 5
      then double_case (λ v. record m { frequency_seconds = v }) wire_type mem len pos
      else if field_number == 6
      then double_case (λ v. record m { threshold = v }) wire_type mem len pos
      else if field_number == 7
      then string_case alloc (λ v. record m { state_text = v }) wire_type mem len pos
      else unknown_case m wire_type mem len pos

  unfoldable pub smart_parse_control_response : ℕ → Bytes → ℕ → Outcome ControlResponse
  unfolding field_loop control_response_switch
  smart_parse_control_response rounds mem len =
      field_loop control_response_switch rounds mem len 0 zero_control_response
