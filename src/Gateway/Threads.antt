-- ===== src/Gateway/Threads.antt =====
-- The bodies of the loops of the gateway's UDP threads, from 2_c/gateway.c: udp_server_thread and
-- discovery_response_thread on a datagram that came in, and the request that discovery_loop_thread
-- sends. The sockets are given. A datagram is parsed with a round for each of its bytes.
pub mod Discovery
pub mod Announcing
pub mod Measuring
pub mod Datagrams
pub mod Clients
use smartcity.Prelude.{ℕ, Bool, some, none, Option, Bytes, length, codes}
use smartcity.Outcome.{Outcome, ok, rejected, fault, stuck}
use smartcity.Double.{Double, Arithmetic}
use smartcity.CString.{text}
use smartcity.Message.{DiscoveryRequest}
use smartcity.Codec.SensorReading.{smart_parse_sensor_reading}
use smartcity.Codec.SensorInfo.{smart_parse_discovery_response}
use smartcity.Codec.DiscoveryRequest.{smart_encode_discovery_request}
use smartcity.Gateway.{GatewayState, receive_reading, update_sensor}
use smartcity.Clock.{Tm, iso_timestamp}
use smartcity.Csv.Rows.{Files, persist_reading_csv}

-- SMARTCITY_GATEWAY_ID, SMARTCITY_GATEWAY_UDP_PORT and SMARTCITY_DISCOVERY_RESPONSE_PORT
abbrev pub gateway_id : Bytes
gateway_id = codes "gateway-1"

abbrev pub gateway_udp_port_default : ℕ
gateway_udp_port_default = 9001

abbrev pub discovery_response_port_default : ℕ
discovery_response_port_default = 10001

-- The request that discovery_loop_thread sends.
unfoldable pub discovery_request : Bytes → DiscoveryRequest
discovery_request timestamp = record {
  gateway_id = some gateway_id;
  request_timestamp = some timestamp;
  gateway_udp_port = gateway_udp_port_default;
  discovery_response_port = discovery_response_port_default;
}

module _ (alloc : ℕ → Bool) where
  -- The tables, and what is appended to which file.
  unfoldable pub receive_reading_datagram :
      Arithmetic
      → Files
      → Double
      → GatewayState
      → Bytes
      → Outcome (GatewayState × Option (Bytes × Bytes))
  unfolding receive_reading persist_reading_csv
  receive_reading_datagram fp files now state raw =
      elim (smart_parse_sensor_reading alloc (length raw) raw (length raw)) [
        | ok reading ↦
            ok (receive_reading alloc now state reading, persist_reading_csv alloc fp files reading)
        | rejected ↦ ok (state, none)
        | fault ↦ fault
        | stuck ↦ stuck
      ]

  unfoldable pub receive_discovery_datagram : Double → GatewayState → Bytes → Outcome GatewayState
  unfolding update_sensor
  receive_discovery_datagram now state raw =
      elim (smart_parse_discovery_response alloc (length raw) raw (length raw)) [
        | ok resp ↦ ok (update_sensor alloc now state resp)
        | rejected ↦ ok state
        | fault ↦ fault
        | stuck ↦ stuck
      ]

  -- One pass of `discovery_loop_thread`: the datagram, none where it cannot be encoded.
  unfoldable pub discovery_datagram : Bytes → Outcome (Option Bytes)
  unfolding discovery_request
  discovery_datagram timestamp =
      elim (smart_encode_discovery_request alloc (discovery_request timestamp)) [
        | ok payload ↦ ok (some payload.contents)
        | rejected ↦ ok none
        | fault ↦ fault
        | stuck ↦ stuck
      ]

  -- The pass with its timestamp: what `char timestamp[64]` holds is read, which is an access to nothing
  -- where iso_timestamp left it as it was.
  unfoldable pub discovery_pass : Option Tm → Outcome (Option Bytes)
  unfolding iso_timestamp discovery_datagram
  discovery_pass tm = elim (iso_timestamp tm 64) [
    | none ↦ fault
    | some timestamp ↦ discovery_datagram timestamp
  ]
