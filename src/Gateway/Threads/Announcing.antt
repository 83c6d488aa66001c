-- ===== src/Gateway/Threads/Announcing.antt =====
-- Discovery from the clock of the gateway on: a pass of discovery_loop_thread in 2_c/gateway.c.
use smartcity.Prelude.{ℕ, ◌^◌, ◌≤◌, ◌<◌, ◌≡◌, Bool, true, some, Option, ◌∷◌, Bytes, length, arith}
use smartcity.Outcome.{ok}
use smartcity.Double.{Double}
use smartcity.Encode.{CString}
use smartcity.Encode.Shape.{varint_field_bytes, string_bytes}
use smartcity.Encode.Sizes.{length-varint_field_bytes, length-string_bytes, append-short}
use smartcity.Message.{DiscoveryResponse}
use smartcity.Codec.DiscoveryRequest.RoundTrip.{discovery_request_bytes, received_discovery_request}
use smartcity.Codec.SensorInfo.RoundTrip.{IsSensorInfo, sensor_info_bytes, received_sensor_info}
use smartcity.Actuator
use smartcity.Sensor
use smartcity.Sensor.{SensorState, remember_gateway}
use smartcity.Clock.{Tm}
use smartcity.Clock.Timestamp.{iso_timestamp-IsPlain}
use smartcity.Gateway.{GatewayState, find_sensor}
use smartcity.Gateway.Threads.{
  gateway_id, discovery_request, receive_discovery_datagram, discovery_pass,
}
use smartcity.Gateway.Threads.Discovery.{discovery_handshake}

request_short :
    (timestamp : Bytes)
    → length timestamp < 64
    → length (discovery_request_bytes (discovery_request timestamp)) ≤ 590
unfolding discovery_request_bytes discovery_request
request_short timestamp h =
    append-short (string_bytes 1 (some gateway_id)) _ 275 315
      (length-string_bytes 1 (some gateway_id) (omega arith))
      (append-short (string_bytes 2 (some timestamp)) _ 275 40
        (length-string_bytes 2 (some timestamp) (omega arith))
        (append-short (varint_field_bytes 3 9001) (varint_field_bytes 4 10001) 20 20
          (length-varint_field_bytes 3 9001) (length-varint_field_bytes 4 10001)))

module _ (alloc : ℕ → Bool) (granted : (n : ℕ) → alloc n ≡ true) where
  -- With an allocator that refuses nothing, and a description of texts without NUL and numbers within
  -- their types, with an id that is not empty and less than 2 ^ 62 bytes on the wire: whatever the
  -- gateway's clock answers, a pass of its discovery loop sends a request; an actuator or a sensor
  -- with this description answers it to port 10001; the sensor remembers whom to send to, and by
  -- which port; and behind the answer a look-up of the id finds the description as it arrives with the
  -- present time.
  pub discovery_pass-answered :
      (tm : Option Tm) (resp : DiscoveryResponse)
      → IsSensorInfo resp
      → length (sensor_info_bytes resp) < 2 ^ 62
      → (ip : CString) (s : SensorState) (now : Double) (g : GatewayState) (c : ℕ) (id : Bytes)
      → resp.sensor_id ≡ some (c ∷ id)
      → (timestamp asked told : Bytes) × (after : GatewayState) × (discovery_pass alloc tm
          ≡ ok (some asked))
        × (Actuator.answer_discovery alloc resp asked ≡ ok (some (10001, told)))
        × (Sensor.answer_discovery alloc resp ip s asked
            ≡ ok (
              remember_gateway ip (received_discovery_request (discovery_request timestamp)) s,
              some (10001, told),
            ))
        × (receive_discovery_datagram alloc now g told ≡ ok after)
        × (find_sensor after resp.sensor_id
            ≡ some (record { info = received_sensor_info resp; last_seen = now }))
  discovery_pass-answered tm resp valid small ip s now g c id named =
      let (timestamp, written, plain, short) = iso_timestamp-IsPlain tm 64 (omega arith) in
      let (asked, told, after, sent, actuator, sensor, received, found) =
        discovery_handshake alloc granted timestamp plain
          (omega (arith, request_short timestamp short)) resp valid small ip s now g c id named in
      (
        timestamp,
        asked,
        told,
        after,
        unfold discovery_pass in rw (written, discovery_pass) sent,
        actuator,
        sensor,
        received,
        found,
      )
