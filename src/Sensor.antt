-- ===== src/Sensor.antt =====
-- What the two sensors share: the gateway that they remember, the answer to a discovery request, as
-- in the loop of `discovery_thread`, and the datagrams of `send_readings_loop`, in
-- 2_c/sensor_temperature.c and 2_c/sensor_air_quality.c. `gw_ip` is the copy of the sender's address,
-- and `local_ip` what smart_get_local_ip returned.
pub mod Temperature
pub mod AirQuality
pub mod Delivery
use smartcity.Prelude.{
  ℕ, ◌%◌, ◌^◌, Bool, true, not, ◌||◌, none, some, Option, List, [], ◌∷◌, Bytes, length, take, ◌==◌,
  if◌then◌else◌,
}
use smartcity.Outcome.{Outcome, ok, rejected, fault, stuck, ◌>>=◌}
use smartcity.Double.{Double, Arithmetic, le_double, double_2, double_100}
use smartcity.Encode.{CString}
use smartcity.CString.{smart_dup_cstring}
use smartcity.Message.{
  SensorReading, DiscoveryRequest, DiscoveryResponse, DeviceType, sensor, zero_sensor_info,
}
use smartcity.Codec.DiscoveryRequest.{smart_parse_discovery_request}
use smartcity.Codec.SensorInfo.{smart_encode_discovery_response}
use smartcity.Codec.SensorReading.{smart_encode_sensor_reading}
use smartcity.Actuator.{address_or_loopback, discovery_response_port_default}

-- TempState and AirState
pub record SensorState : Type 0 where
  pub gateway_ip : Bytes
  pub gateway_udp_port : ℕ

abbrev pub initial_sensor : SensorState
initial_sensor = record { gateway_ip = []; gateway_udp_port = 0 }

-- SMARTCITY_GATEWAY_UDP_PORT
abbrev pub gateway_udp_port_default : ℕ
gateway_udp_port_default = 9001

-- The critical section of `discovery_thread`; `strncpy` keeps 63 bytes.
unfoldable pub remember_gateway : CString → DiscoveryRequest → SensorState → SensorState
remember_gateway gw_ip req s = record {
  gateway_ip = elim gw_ip [ none ↦ s.gateway_ip | some ip ↦ take 63 ip ];
  gateway_udp_port =
      if req.gateway_udp_port == 0 then gateway_udp_port_default else req.gateway_udp_port;
}

abbrev pub double_half : Double
double_half = 0x3fe0_0000_0000_0000

abbrev pub double_minus_half : Double
double_minus_half = 0xbfe0_0000_0000_0000

-- Two decimals, away from zero at a tie.
unfoldable pub round2 : Arithmetic → Double → Double
round2 fp value =
    let half = if le_double 0 value then double_half else double_minus_half in
    fp.div (fp.truncate (fp.add (fp.mul value double_100) half)) double_100

module _ (alloc : ℕ → Bool) where
  unfoldable pub describe : Bytes → DeviceType → Double → Bytes → CString → DiscoveryResponse
  describe id type threshold state_text local_ip = record zero_sensor_info {
    sensor_id = smart_dup_cstring alloc (some id);
    sensor_type = type;
    sensor_ip = address_or_loopback alloc local_ip;
    is_active = true;
    frequency_seconds = double_2;
    threshold = threshold;
    device_kind = sensor;
    state_text = smart_dup_cstring alloc (some state_text);
  }

  -- One pass of `discovery_thread`: the new state, and the port and payload of the answer.
  unfoldable pub answer_discovery :
      DiscoveryResponse → CString → SensorState → Bytes → Outcome (SensorState × Option (ℕ × Bytes))
  unfolding remember_gateway
  answer_discovery resp gw_ip s raw =
      elim (smart_parse_discovery_request alloc (length raw) raw (length raw)) [
        | ok req ↦
            let s' = remember_gateway gw_ip req s in
            let port =
              if req.discovery_response_port == 0
              then discovery_response_port_default
              else req.discovery_response_port in
            elim (smart_encode_discovery_response alloc resp) [
              | ok payload ↦ ok (s', some (port % 2 ^ 16, payload.contents))
              | rejected ↦ ok (s', none)
              | fault ↦ fault
              | stuck ↦ stuck
            ]
        | rejected ↦ ok (s, none)
        | fault ↦ fault
        | stuck ↦ stuck
      ]

  -- The datagrams of one pass of `send_readings_loop`, in their order: a reading that cannot be
  -- encoded is left out.
  unfoldable pub payloads : List SensorReading → Outcome (List Bytes)
  payloads [] = ok []
  payloads (r ∷ rest) =
      let others = payloads rest in
      elim (smart_encode_sensor_reading alloc r) [
        | ok payload ↦ others >>= λ more. ok (payload.contents ∷ more)
        | rejected ↦ others
        | fault ↦ fault
        | stuck ↦ stuck
      ]

  -- Their address and port with them; none while no gateway is known.
  unfoldable pub send_readings :
      SensorState → List SensorReading → Outcome (Option (Bytes × ℕ × List Bytes))
  unfolding payloads
  send_readings s readings =
      let known =
        payloads readings >>= λ sent. ok (some (s.gateway_ip, s.gateway_udp_port % 2 ^ 16, sent)) in
      if length s.gateway_ip == 0 || s.gateway_udp_port == 0 then ok none else known
