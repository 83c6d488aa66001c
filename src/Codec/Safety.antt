-- ===== src/Codec/Safety.antt =====
-- The parsers of the messages stay inside an object that holds what is claimed of it, whatever its
-- bytes are, and come to an end where no length wraps around: the loops of 2_c/smartcity_common.c.
use smartcity.Prelude.{ℕ, ◌≤◌, ◌≡◌, ◌≢◌, ◌⊎◌, inl, inr, ◌==◌, Bool, not, Bytes, arith}
use smartcity.Outcome.{ok, rejected, fault}
use smartcity.Decode.{Switch, to_u32, field_loop}
use smartcity.Decode.Safety.{
  Holds, Holds-if, Holds→no_fault, Holds→ends, Kept, IsForward, Limits, Holding,
}
use smartcity.Decode.Safety.Cases.{
  string_case-Holds, varint_case-Holds, double_case-Holds, unknown_case-Holds, field_loop-Holds,
}
use smartcity.Message.{
  SensorReading, SensorInfo, DiscoveryRequest, ClientRequest, ControlCommand, ControlResponse,
  zero_sensor_reading, zero_sensor_info, zero_discovery_request, zero_client_request,
  zero_control_command, zero_control_response,
}
use smartcity.Codec.SensorReading.{
  sensor_reading_switch, smart_parse_sensor_reading, parse_sensor_reading_internal,
}
use smartcity.Codec.SensorInfo.{
  sensor_info_switch, smart_parse_discovery_response, parse_sensor_info,
}
use smartcity.Codec.DiscoveryRequest.{discovery_request_switch, smart_parse_discovery_request}
use smartcity.Codec.ClientRequest.{client_request_switch, smart_parse_client_request}
use smartcity.Codec.ControlCommand.{control_command_switch, smart_parse_control_command}
use smartcity.Codec.ControlResponse.{control_response_switch, smart_parse_control_response}

module _ (alloc : ℕ → Bool) (limits : Limits alloc) (mem : Bytes) (len : ℕ)
    (h : Holding mem len) where
  sensor_reading_switch-Holds :
      (W : Type 0) (n w pos : ℕ) (m : SensorReading)
      → pos ≤ len
      → Holds W (Kept mem len w pos) (sensor_reading_switch alloc n w mem len pos m)
  unfolding sensor_reading_switch
  sensor_reading_switch-Holds W n w pos m inside =
      (Holds-if W (Kept mem len w pos) (n == 1) _ _
        (string_case-Holds W mem len h alloc (λ v. record m { sensor_id = v }) w pos limits)
        (Holds-if W (Kept mem len w pos) (n == 2) _ _
          (varint_case-Holds W mem len h (λ v. record m { sensor_type = to_u32 v }) w pos)
          (Holds-if W (Kept mem len w pos) (n == 3) _ _
            (double_case-Holds W mem len h (λ v. record m { value = v }) w pos inside)
            (Holds-if W (Kept mem len w pos) (n == 4) _ _
              (string_case-Holds W mem len h alloc (λ v. record m { unit = v }) w pos limits)
              (Holds-if W (Kept mem len w pos) (n == 5) _ _
                (varint_case-Holds W mem len h (λ v. record m { timestamp_unix_ms = v }) w pos)
                (Holds-if W (Kept mem len w pos) (n == 6) _ _
                  (varint_case-Holds W mem len h (λ v. record m { alert = not (v == 0) }) w pos)
                  (Holds-if W (Kept mem len w pos) (n == 7) _ _
                    (string_case-Holds W mem len h alloc (λ v. record m { alert_message = v }) w pos
                      limits)
                    (Holds-if W (Kept mem len w pos) (n == 8) _ _
                      (string_case-Holds W mem len h alloc (λ v. record m { metric = v }) w pos
                        limits)
                      (unknown_case-Holds W mem len h m w pos inside)))))))))

  sensor_info_switch-Holds :
      (W : Type 0) (n w pos : ℕ) (m : SensorInfo)
      → pos ≤ len
      → Holds W (Kept mem len w pos) (sensor_info_switch alloc n w mem len pos m)
  unfolding sensor_info_switch
  sensor_info_switch-Holds W n w pos m inside =
      (Holds-if W (Kept mem len w pos) (n == 1) _ _
        (string_case-Holds W mem len h alloc (λ v. record m { sensor_id = v }) w pos limits)
        (Holds-if W (Kept mem len w pos) (n == 2) _ _
          (varint_case-Holds W mem len h (λ v. record m { sensor_type = to_u32 v }) w pos)
          (Holds-if W (Kept mem len w pos) (n == 3) _ _
            (string_case-Holds W mem len h alloc (λ v. record m { sensor_ip = v }) w pos limits)
            (Holds-if W (Kept mem len w pos) (n == 4) _ _
              (varint_case-Holds W mem len h (λ v. record m { control_tcp_port = to_u32 v }) w pos)
              (Holds-if W (Kept mem len w pos) (n == 5) _ _
                (varint_case-Holds W mem len h (λ v. record m { is_active = not (v == 0) }) w pos)
                (Holds-if W (Kept mem len w pos) (n == 6) _ _
                  (double_case-Holds W mem len h (λ v. record m { frequency_seconds = v }) w pos
                    inside)
                  (Holds-if W (Kept mem len w pos) (n == 7) _ _
                    (double_case-Holds W mem len h (λ v. record m { threshold = v }) w pos inside)
                    (Holds-if W (Kept mem len w pos) (n == 8) _ _
                      (varint_case-Holds W mem len h (λ v. record m { device_kind = to_u32 v }) w
                        pos)
                      (Holds-if W (Kept mem len w pos) (n == 9) _ _
                        (string_case-Holds W mem len h alloc (λ v. record m { state_text = v }) w
                          pos limits)
                        (unknown_case-Holds W mem len h m w pos inside))))))))))

  discovery_request_switch-Holds :
      (W : Type 0) (n w pos : ℕ) (m : DiscoveryRequest)
      → pos ≤ len
      → Holds W (Kept mem len w pos) (discovery_request_switch alloc n w mem len pos m)
  unfolding discovery_request_switch
  discovery_request_switch-Holds W n w pos m inside =
      (Holds-if W (Kept mem len w pos) (n == 1) _ _
        (string_case-Holds W mem len h alloc (λ v. record m { gateway_id = v }) w pos limits)
        (Holds-if W (Kept mem len w pos) (n == 2) _ _
          (string_case-Holds W mem len h alloc (λ v. record m { request_timestamp = v }) w pos
            limits)
          (Holds-if W (Kept mem len w pos) (n == 3) _ _
            (varint_case-Holds W mem len h (λ v. record m { gateway_udp_port = to_u32 v }) w pos)
            (Holds-if W (Kept mem len w pos) (n == 4) _ _
              (varint_case-Holds W mem len h (λ v. record m { discovery_response_port = to_u32 v })
                w pos)
              (unknown_case-Holds W mem len h m w pos inside)))))

  client_request_switch-Holds :
      (W : Type 0) (n w pos : ℕ) (m : ClientRequest)
      → pos ≤ len
      → Holds W (Kept mem len w pos) (client_request_switch alloc n w mem len pos m)
  unfolding client_request_switch
  client_request_switch-Holds W n w pos m inside =
      (Holds-if W (Kept mem len w pos) (n == 1) _ _
        (varint_case-Holds W mem len h (λ v. record m { request_type = to_u32 v }) w pos)
        (Holds-if W (Kept mem len w pos) (n == 2) _ _
          (string_case-Holds W mem len h alloc (λ v. record m { target_sensor_id = v }) w pos
            limits)
          (Holds-if W (Kept mem len w pos) (n == 3) _ _
            (double_case-Holds W mem len h (λ v. record m { value = v }) w pos inside)
            (Holds-if W (Kept mem len w pos) (n == 4) _ _
              (varint_case-Holds W mem len h (λ v. record m { command_type = to_u32 v }) w pos)
              (Holds-if W (Kept mem len w pos) (n == 5) _ _
                (string_case-Holds W mem len h alloc (λ v. record m { text_value = v }) w pos
                  limits)
                (unknown_case-Holds W mem len h m w pos inside))))))

  control_command_switch-Holds :
      (W : Type 0) (n w pos : ℕ) (m : ControlCommand)
      → pos ≤ len
      → Holds W (Kept mem len w pos) (control_command_switch alloc n w mem len pos m)
  unfolding control_command_switch
  control_command_switch-Holds W n w pos m inside =
      (Holds-if W (Kept mem len w pos) (n == 1) _ _
        (varint_case-Holds W mem len h (λ v. record m { command_type = to_u32 v }) w pos)
        (Holds-if W (Kept mem len w pos) (n == 2) _ _
          (string_case-Holds W mem len h alloc (λ v. record m { sensor_id = v }) w pos limits)
          (Holds-if W (Kept mem len w pos) (n == 3) _ _
            (double_case-Holds W mem len h (λ v. record m { value = v }) w pos inside)
            (Holds-if W (Kept mem len w pos) (n == 4) _ _
              (string_case-Holds W mem len h alloc (λ v. record m { text_value = v }) w pos limits)
              (unknown_case-Holds W mem len h m w pos inside)))))

  control_response_switch-Holds :
      (W : Type 0) (n w pos : ℕ) (m : ControlResponse)
      → pos ≤ len
      → Holds W (Kept mem len w pos) (control_response_switch alloc n w mem len pos m)
  unfolding control_response_switch
  control_response_switch-Holds W n w pos m inside =
      (Holds-if W (Kept mem len w pos) (n == 1) _ _
        (varint_case-Holds W mem len h (λ v. record m { status = to_u32 v }) w pos)
        (Holds-if W (Kept mem len w pos) (n == 2) _ _
          (string_case-Holds W mem len h alloc (λ v. record m { message = v }) w pos limits)
          (Holds-if W (Kept mem len w pos) (n == 3) _ _
            (string_case-Holds W mem len h alloc (λ v. record m { sensor_id = v }) w pos limits)
            (Holds-if W (Kept mem len w pos) (n == 4) _ _
              (varint_case-Holds W mem len h (λ v. record m { is_active = not (v == 0) }) w pos)
              (Holds-if W (Kept mem len w pos) (n == 5) _ _
                (double_case-Holds W mem len h (λ v. record m { frequency_seconds = v }) w pos
                  inside)
                (Holds-if W (Kept mem len w pos) (n == 6) _ _
                  (double_case-Holds W mem len h (λ v. record m { threshold = v }) w pos inside)
                  (Holds-if W (Kept mem len w pos) (n == 7) _ _
                    (string_case-Holds W mem len h alloc (λ v. record m { state_text = v }) w pos
                      limits)
                    (unknown_case-Holds W mem len h m w pos inside))))))))

  -- On an object of as many bytes as are claimed, fewer than 2 ^ 62, and with an allocator that refuses
  -- requests for nothing and for 2 ^ 62 bytes or more: whatever the bytes are and whatever rounds are
  -- given, the parsers of readings, of discovery requests and answers, of the requests of clients, and
  -- of commands and their answers, make no access outside the object.
  pub parsers_stay_inside :
      (rounds : ℕ)
      → (smart_parse_sensor_reading alloc rounds mem len ≢ fault)
        × (smart_parse_discovery_response alloc rounds mem len ≢ fault)
        × (smart_parse_discovery_request alloc rounds mem len ≢ fault)
        × (smart_parse_client_request alloc rounds mem len ≢ fault)
        × (smart_parse_control_command alloc rounds mem len ≢ fault)
        × (smart_parse_control_response alloc rounds mem len ≢ fault)
  unfolding smart_parse_sensor_reading parse_sensor_reading_internal smart_parse_discovery_response
      parse_sensor_info smart_parse_discovery_request smart_parse_client_request
      smart_parse_control_command smart_parse_control_response
  parsers_stay_inside rounds = (
    stays (sensor_reading_switch alloc) (sensor_reading_switch-Holds (Unit {0})) zero_sensor_reading
        rounds,
    stays (sensor_info_switch alloc) (sensor_info_switch-Holds (Unit {0})) zero_sensor_info rounds,
    stays (discovery_request_switch alloc) (discovery_request_switch-Holds (Unit {0}))
        zero_discovery_request rounds,
    stays (client_request_switch alloc) (client_request_switch-Holds (Unit {0})) zero_client_request
        rounds,
    stays (control_command_switch alloc) (control_command_switch-Holds (Unit {0}))
        zero_control_command rounds,
    stays (control_response_switch alloc) (control_response_switch-Holds (Unit {0}))
        zero_control_response rounds,
  )
    where
      stays :
          {S : Type 0} (switch : Switch S)
          → ((n w pos : ℕ) (m : S)
              → pos ≤ len
              → Holds (Unit {0}) (Kept mem len w pos) (switch n w mem len pos m))
          → (m : S) (rounds : ℕ) → field_loop switch rounds mem len 0 m ≢ fault
      stays switch safe m rounds =
          Holds→no_fault (Unit {0}) (λ s. Unit {0}) (field_loop switch rounds mem len 0 m)
            (field_loop-Holds (Unit {0}) mem len h switch safe rounds 0 m (inl tt))

  -- On an object of as many bytes as are claimed, fewer than 2 ^ 62, with an allocator that refuses
  -- requests for nothing and for 2 ^ 62 bytes or more, and where no field, of those that skip_field
  -- goes through one after the other, moves the cursor back: with as many rounds as bytes are claimed,
  -- or more, each of these six parsers comes to an end, with an object or with `return false`.
  pub parsers_end :
      (rounds : ℕ)
      → IsForward mem len
      → len ≤ rounds
      → (((m : SensorReading) × (smart_parse_sensor_reading alloc rounds mem len ≡ ok m))
          ⊎ (smart_parse_sensor_reading alloc rounds mem len ≡ rejected))
        × (((m : SensorInfo) × (smart_parse_discovery_response alloc rounds mem len ≡ ok m))
            ⊎ (smart_parse_discovery_response alloc rounds mem len ≡ rejected))
        × (((m : DiscoveryRequest) × (smart_parse_discovery_request alloc rounds mem len ≡ ok m))
            ⊎ (smart_parse_discovery_request alloc rounds mem len ≡ rejected))
        × (((m : ClientRequest) × (smart_parse_client_request alloc rounds mem len ≡ ok m))
            ⊎ (smart_parse_client_request alloc rounds mem len ≡ rejected))
        × (((m : ControlCommand) × (smart_parse_control_command alloc rounds mem len ≡ ok m))
            ⊎ (smart_parse_control_command alloc rounds mem len ≡ rejected))
        × (((m : ControlResponse) × (smart_parse_control_response alloc rounds mem len ≡ ok m))
            ⊎ (smart_parse_control_response alloc rounds mem len ≡ rejected))
  unfolding smart_parse_sensor_reading parse_sensor_reading_internal smart_parse_discovery_response
      parse_sensor_info smart_parse_discovery_request smart_parse_client_request
      smart_parse_control_command smart_parse_control_response
  parsers_end rounds f enough = (
    ends (sensor_reading_switch alloc) (sensor_reading_switch-Holds ⊥) zero_sensor_reading,
    ends (sensor_info_switch alloc) (sensor_info_switch-Holds ⊥) zero_sensor_info,
    ends (discovery_request_switch alloc) (discovery_request_switch-Holds ⊥) zero_discovery_request,
    ends (client_request_switch alloc) (client_request_switch-Holds ⊥) zero_client_request,
    ends (control_command_switch alloc) (control_command_switch-Holds ⊥) zero_control_command,
    ends (control_response_switch alloc) (control_response_switch-Holds ⊥) zero_control_response,
  )
    where
      ends :
          {S : Type 0} (switch : Switch S)
          → ((n w pos : ℕ) (m : S)
              → pos ≤ len
              → Holds ⊥ (Kept mem len w pos) (switch n w mem len pos m))
          → (m : S)
          → ((m' : S) × (field_loop switch rounds mem len 0 m ≡ ok m'))
            ⊎ (field_loop switch rounds mem len 0 m ≡ rejected)
      ends switch safe m =
          Holds→ends (λ s. Unit {0}) (field_loop switch rounds mem len 0 m)
            (field_loop-Holds ⊥ mem len h switch safe rounds 0 m
              (inr (len, f, omega arith, enough)))
