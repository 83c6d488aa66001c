-- ===== src/Codec/SensorInfo.antt =====
-- SensorInfo, which is also DiscoveryResponse on the wire: the writer and the reader of 2_c/smartcity_common.c.
pub mod RoundTrip
use smartcity.Prelude.{ℕ, Bool, not, Bytes, ◌==◌, if◌then◌else◌, ◌%◌, ◌^◌}
use smartcity.Outcome.{Outcome, ◌>>=◌}
use smartcity.Buffer.{Buffer, smart_buffer_init}
use smartcity.Double.{is_zero}
use smartcity.Encode.{
  when, buffer_append_string_field, buffer_append_varint_field, buffer_append_double_field,
}
use smartcity.Decode.{
  Switch, string_case, varint_case, double_case, unknown_case, field_loop, to_u32,
}
use smartcity.Message.{SensorInfo, zero_sensor_info}

module _ (alloc : ℕ → Bool) where
  unfoldable pub encode_sensor_info : SensorInfo → Buffer → Outcome Buffer
  encode_sensor_info m b₀ = do
    b₁ ← buffer_append_string_field alloc b₀ 1 m.sensor_id
    b₂ ←
        when (not (m.sensor_type == 0)) (λ b. buffer_append_varint_field alloc b 2 m.sensor_type) b₁
    b₃ ← buffer_append_string_field alloc b₂ 3 m.sensor_ip
    b₄ ←
        when (not (m.control_tcp_port == 0))
          (λ b. buffer_append_varint_field alloc b 4 m.control_tcp_port) b₃
    b₅ ← when m.is_active (λ b. buffer_append_varint_field alloc b 5 1) b₄
    b₆ ←
        when (not (is_zero m.frequency_seconds))
          (λ b. buffer_append_double_field alloc b 6 m.frequency_seconds) b₅
    b₇ ← when (not (is_zero m.threshold)) (λ b. buffer_append_double_field alloc b 7 m.threshold) b₆
    b₈ ←
        when (not (m.device_kind == 0)) (λ b. buffer_append_varint_field alloc b 8 m.device_kind) b₇
    buffer_append_string_field alloc b₈ 9 m.state_text

  unfoldable pub smart_encode_discovery_response : SensorInfo → Outcome Buffer
  unfolding encode_sensor_info
  smart_encode_discovery_response m = encode_sensor_info m smart_buffer_init

  -- The body of the loop of `parse_sensor_info`.
  unfoldable pub sensor_info_switch : Switch SensorInfo
  unfolding string_case varint_case double_case unknown_case
  sensor_info_switch field_number wire_type mem len pos m =
      if field_number == 1
      then string_case alloc (λ v. record m { sensor_id = v }) wire_type mem len pos
      else if field_number == 2
      then varint_case (λ v. record m { sensor_type = to_u32 v }) wire_type mem len pos
      else if field_number == 3
      then string_case alloc (λ v. record m { sensor_ip = v }) wire_type mem len pos
      else if field_number == 4
      then varint_case (λ v. record m { control_tcp_port = to_u32 v }) wire_type mem len pos
      else if field_number == 5
      then varint_case (λ v. record m { is_active = not (v == 0) }) wire_type mem len pos
      else if field_number == 6
      then double_case (λ v. record m { frequency_seconds = v }) wire_type mem len pos
      else if field_number == 7
      then double_case (λ v. record m { threshold = v }) wire_type mem len pos
      else if field_number == 8
      then varint_case (λ v. record m { device_kind = to_u32 v }) wire_type mem len pos
      else if field_number == 9
      then string_case alloc (λ v. record m { state_text = v }) wire_type mem len pos
      else unknown_case m wire_type mem len pos

  unfoldable pub parse_sensor_info : ℕ → Bytes → ℕ → Outcome SensorInfo
  unfolding field_loop sensor_info_switch
  parse_sensor_info rounds mem len = field_loop sensor_info_switch rounds mem len 0 zero_sensor_info

  unfoldable pub smart_parse_discovery_response : ℕ → Bytes → ℕ → Outcome SensorInfo
  unfolding parse_sensor_info
  smart_parse_discovery_response rounds mem len = parse_sensor_info rounds mem len
