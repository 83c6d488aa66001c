-- ===== src/Codec/SensorReading.antt =====
-- SensorReading on the wire: the writer and the reader of 2_c/smartcity_common.c.
pub mod RoundTrip
pub mod Diverge
pub mod Overrun
use smartcity.Prelude.{ℕ, Bool, not, Bytes, ◌==◌, if◌then◌else◌, ◌%◌, ◌^◌}
use smartcity.Outcome.{Outcome, ◌>>=◌}
use smartcity.Buffer.{Buffer, smart_buffer_init}
use smartcity.Double.{is_zero}
use smartcity.Encode.{
  when, buffer_append_string_field, buffer_append_varint_field, buffer_append_double_field,
}
use smartcity.Decode.{
  Switch, string_case, varint_case, double_case, unknown_case, field_loop, to_u32,
}
use smartcity.Message.{SensorReading, zero_sensor_reading}

module _ (alloc : ℕ → Bool) where
  unfoldable pub encode_sensor_reading_internal : SensorReading → Buffer → Outcome Buffer
  encode_sensor_reading_internal m b₀ = do
    b₁ ← buffer_append_string_field alloc b₀ 1 m.sensor_id
    b₂ ←
        when (not (m.sensor_type == 0)) (λ b. buffer_append_varint_field alloc b 2 m.sensor_type) b₁
    b₃ ← buffer_append_double_field alloc b₂ 3 m.value
    b₄ ← buffer_append_string_field alloc b₃ 4 m.unit
    b₅ ←
        when (not (m.timestamp_unix_ms == 0))
          (λ b. buffer_append_varint_field alloc b 5 m.timestamp_unix_ms) b₄
    b₆ ← when m.alert (λ b. buffer_append_varint_field alloc b 6 1) b₅
    b₇ ← buffer_append_string_field alloc b₆ 7 m.alert_message
    buffer_append_string_field alloc b₇ 8 m.metric

  unfoldable pub smart_encode_sensor_reading : SensorReading → Outcome Buffer
  unfolding encode_sensor_reading_internal
  smart_encode_sensor_reading m = encode_sensor_reading_internal m smart_buffer_init

  -- The body of the loop of `parse_sensor_reading_internal`.
  unfoldable pub sensor_reading_switch : Switch SensorReading
  unfolding string_case varint_case double_case unknown_case
  sensor_reading_switch field_number wire_type mem len pos m =
      if field_number == 1
      then string_case alloc (λ v. record m { sensor_id = v }) wire_type mem len pos
      else if field_number == 2
      then varint_case (λ v. record m { sensor_type = to_u32 v }) wire_type mem len pos
      else if field_number == 3
      then double_case (λ v. record m { value = v }) wire_type mem len pos
      else if field_number == 4
      then string_case alloc (λ v. record m { unit = v }) wire_type mem len pos
      else if field_number == 5
      then varint_case (λ v. record m { timestamp_unix_ms = v }) wire_type mem len pos
      else if field_number == 6
      then varint_case (λ v. record m { alert = not (v == 0) }) wire_type mem len pos
      else if field_number == 7
      then string_case alloc (λ v. record m { alert_message = v }) wire_type mem len pos
      else if field_number == 8
      then string_case alloc (λ v. record m { metric = v }) wire_type mem len pos
      else unknown_case m wire_type mem len pos

  unfoldable pub parse_sensor_reading_internal : ℕ → Bytes → ℕ → Outcome SensorReading
  unfolding field_loop sensor_reading_switch
  parse_sensor_reading_internal rounds mem len =
      field_loop sensor_reading_switch rounds mem len 0 zero_sensor_reading

  unfoldable pub smart_parse_sensor_reading : ℕ → Bytes → ℕ → Outcome SensorReading
  unfolding parse_sensor_reading_internal
  smart_parse_sensor_reading rounds mem len = parse_sensor_reading_internal rounds mem len
