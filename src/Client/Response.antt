-- ===== src/Client/Response.antt =====
-- The parsers of 2_c/client.c: parse_sensor_info, parse_sensor_reading and parse_client_response, with
-- append_sensor_info and append_sensor_reading. A nested message is read with a round for each byte
-- that it claims.
pub mod Equal
use smartcity.Prelude.{
  ℕ, ◌+◌, ◌*◌, ◌%◌, ◌^◌, Bool, not, List, [], ◌∷◌, ◌++◌, Bytes, length, drop, ◌==◌, if◌then◌else◌,
}
use smartcity.Outcome.{Outcome, ok, rejected, ◌>>=◌}
use smartcity.Buffer.{size_mod}
use smartcity.Decode.{Switch, to_u32}
use smartcity.Message.{
  SensorInfo, SensorReading, ClientResponse, zero_sensor_info, zero_sensor_reading,
  zero_client_response,
}
use smartcity.Codec.ClientResponse.{item_size}
use smartcity.Client.Reader.{
  read_length_delimited, text_case, number_case, double_case, other_case, parse_loop,
}

module _ (alloc : ℕ → Bool) where
  -- The body of the loop of `parse_sensor_info`.
  unfoldable pub info_switch : Switch SensorInfo
  unfolding text_case number_case double_case other_case
  info_switch field_number wire_type mem len pos m =
      if field_number == 1
      then text_case alloc (λ v. record m { sensor_id = v }) wire_type mem len pos
      else if field_number == 2
      then number_case (λ v. record m { sensor_type = to_u32 v }) wire_type mem len pos
      else if field_number == 3
      then text_case alloc (λ v. record m { sensor_ip = v }) wire_type mem len pos
      else if field_number == 4
      then number_case (λ v. record m { control_tcp_port = to_u32 v }) wire_type mem len pos
      else if field_number == 5
      then number_case (λ v. record m { is_active = not (v == 0) }) wire_type mem len pos
      else if field_number == 6
      then double_case (λ v. record m { frequency_seconds = v }) wire_type mem len pos
      else if field_number == 7
      then double_case (λ v. record m { threshold = v }) wire_type mem len pos
      else if field_number == 8
      then number_case (λ v. record m { device_kind = to_u32 v }) wire_type mem len pos
      else if field_number == 9
      then text_case alloc (λ v. record m { state_text = v }) wire_type mem len pos
      else other_case m wire_type mem len pos

  unfoldable pub parse_sensor_info : ℕ → Bytes → ℕ → Outcome SensorInfo
  unfolding parse_loop info_switch
  parse_sensor_info rounds mem len = parse_loop info_switch rounds mem len 0 zero_sensor_info

  -- The body of the loop of `parse_sensor_reading`.
  unfoldable pub reading_switch : Switch SensorReading
  unfolding text_case number_case double_case other_case
  reading_switch field_number wire_type mem len pos m =
      if field_number == 1
      then text_case alloc (λ v. record m { sensor_id = v }) wire_type mem len pos
      else if field_number == 2
      then number_case (λ v. record m { sensor_type = to_u32 v }) wire_type mem len pos
      else if field_number == 3
      then double_case (λ v. record m { value = v }) wire_type mem len pos
      else if field_number == 4
      then text_case alloc (λ v. record m { unit = v }) wire_type mem len pos
      else if field_number == 5
      then number_case (λ v. record m { timestamp_unix_ms = v }) wire_type mem len pos
      else if field_number == 6
      then number_case (λ v. record m { alert = not (v == 0) }) wire_type mem len pos
      else if field_number == 7
      then text_case alloc (λ v. record m { alert_message = v }) wire_type mem len pos
      else if field_number == 8
      then text_case alloc (λ v. record m { metric = v }) wire_type mem len pos
      else other_case m wire_type mem len pos

  unfoldable pub parse_sensor_reading : ℕ → Bytes → ℕ → Outcome SensorReading
  unfolding parse_loop reading_switch
  parse_sensor_reading rounds mem len =
      parse_loop reading_switch rounds mem len 0 zero_sensor_reading

  unfoldable pub append_sensor_info : ClientResponse → SensorInfo → Outcome ClientResponse
  append_sensor_info resp info =
      if alloc ((length resp.sensors + 1) * item_size % size_mod)
      then ok (record resp { sensors = resp.sensors ++ (info ∷ []) })
      else rejected

  unfoldable pub append_sensor_reading : ClientResponse → SensorReading → Outcome ClientResponse
  append_sensor_reading resp reading =
      if alloc ((length resp.readings + 1) * item_size % size_mod)
      then ok (record resp { readings = resp.readings ++ (reading ∷ []) })
      else rejected

  -- A nested message in the case of a device.
  unfoldable pub info_case : ClientResponse → ℕ → Bytes → ℕ → ℕ → Outcome (ClientResponse × ℕ)
  unfolding read_length_delimited parse_sensor_info append_sensor_info
  info_case resp wire_type mem len pos =
      let read : Outcome (ClientResponse × ℕ) = do
        (start, n, pos') ← read_length_delimited mem len pos
        info ← parse_sensor_info n (drop start mem) n
        resp' ← append_sensor_info resp info
        ok (resp', pos')
      in if wire_type == 2 then read else rejected

  -- And in that of a reading.
  unfoldable pub reading_case : ClientResponse → ℕ → Bytes → ℕ → ℕ → Outcome (ClientResponse × ℕ)
  unfolding read_length_delimited parse_sensor_reading append_sensor_reading
  reading_case resp wire_type mem len pos =
      let read : Outcome (ClientResponse × ℕ) = do
        (start, n, pos') ← read_length_delimited mem len pos
        reading ← parse_sensor_reading n (drop start mem) n
        resp' ← append_sensor_reading resp reading
        ok (resp', pos')
      in if wire_type == 2 then read else rejected

  -- The body of the loop of `parse_client_response`.
  unfoldable pub response_switch : Switch ClientResponse
  unfolding text_case number_case double_case other_case info_case reading_case
  response_switch field_number wire_type mem len pos m =
      if field_number == 1
      then number_case (λ v. record m { status = to_u32 v }) wire_type mem len pos
      else if field_number == 2
      then text_case alloc (λ v. record m { message = v }) wire_type mem len pos
      else if field_number == 3
      then info_case m wire_type mem len pos
      else if field_number == 4
      then double_case (λ v. record m { metric_value = v }) wire_type mem len pos
      else if field_number == 5
      then reading_case m wire_type mem len pos
      else other_case m wire_type mem len pos

  unfoldable pub parse_client_response : ℕ → Bytes → ℕ → Outcome ClientResponse
  unfolding parse_loop response_switch
  parse_client_response rounds mem len =
      parse_loop response_switch rounds mem len 0 zero_client_response
