-- ===== src/Gateway/Threads/Discovery.antt =====
-- Discovery from end to end: the gateway's request, the answers of actuators and sensors, and the
-- gateway's table.
use smartcity.Prelude.{
  ℕ, ◌^◌, ◌<◌, ◌≡◌, refl, sym, ap, ◌∙◌, Bool, true, some, [], ◌∷◌, append-nil, Bytes, All, length,
  str_eq_refl, arith,
}
use smartcity.Outcome.{ok}
use smartcity.Buffer.{Buffer, smart_buffer_init}
use smartcity.Buffer.Append.{Appended-total}
use smartcity.Double.{Double}
use smartcity.Encode.{CString}
use smartcity.CString.{is_text}
use smartcity.Message.{DiscoveryRequest, DiscoveryResponse}
use smartcity.Codec.DiscoveryRequest.{smart_encode_discovery_request, smart_parse_discovery_request}
use smartcity.Codec.DiscoveryRequest.RoundTrip.{
  IsDiscoveryRequest, discovery_request_bytes, received_discovery_request, discovery_request-Writes,
  smart_parse_discovery_request-bytes,
}
use smartcity.Codec.SensorInfo.{smart_parse_discovery_response}
use smartcity.Codec.SensorInfo.RoundTrip.{
  IsSensorInfo, sensor_info_bytes, received_sensor_info, smart_parse_discovery_response-bytes,
}
use smartcity.Actuator
use smartcity.Actuator.Conversation.{answer_discovery-bytes, description_sent}
use smartcity.Sensor
use smartcity.Sensor.{SensorState, remember_gateway}
use smartcity.Gateway.{GatewayState, find_sensor, update_sensor}
use smartcity.Gateway.Registry.{find_sensor-update_sensor}
use smartcity.Gateway.Threads.{discovery_request, discovery_datagram, receive_discovery_datagram}

module _ (alloc : ℕ → Bool) (granted : (n : ℕ) → alloc n ≡ true) (timestamp : Bytes)
    (plain : All (λ c. 0 < c) timestamp)
    (short : length (discovery_request_bytes (discovery_request timestamp)) < 2 ^ 62) where
  abbrev req : DiscoveryRequest
  req = discovery_request timestamp

  request_valid : IsDiscoveryRequest req
  unfolding discovery_request
  request_valid = record {
    gateway_id = omega arith;
    request_timestamp = plain;
    gateway_udp_port = omega arith;
    discovery_response_port = omega arith;
  }

  request_sent :
      (b : Buffer) × (smart_encode_discovery_request alloc req ≡ ok b)
      × (b.contents ≡ discovery_request_bytes req)
  unfolding smart_encode_discovery_request smart_buffer_init
  request_sent =
      Appended-total alloc (λ n _. granted n)
        (discovery_request-Writes alloc req request_valid smart_buffer_init (omega arith)
          (omega (arith, short)))

  datagram_sent : discovery_datagram alloc timestamp ≡ ok (some (discovery_request_bytes req))
  datagram_sent =
      let (b, e, c) = request_sent in unfold discovery_datagram in rw (e, discovery_datagram, c)

  request_received :
      smart_parse_discovery_request alloc
        (length (discovery_request_bytes req))
        (discovery_request_bytes req)
        (length (discovery_request_bytes req))
      ≡ ok (received_discovery_request req)
  request_received =
      sym (rw append-nil)
      ∙ smart_parse_discovery_request-bytes alloc req (length (discovery_request_bytes req)) []
          (λ n _. granted n) request_valid short (omega arith)

  module _ (resp : DiscoveryResponse) (valid : IsSensorInfo resp)
      (small : length (sensor_info_bytes resp) < 2 ^ 62) where
    sensor_answer :
        (ip : CString) (s : SensorState)
        → Sensor.answer_discovery alloc resp ip s (discovery_request_bytes req)
          ≡ ok (
            remember_gateway ip (received_discovery_request req) s,
            some (10001, sensor_info_bytes resp),
          )
    sensor_answer ip s =
        let (b, e, c) = description_sent alloc (λ n _. granted n) resp valid small in
        unfold Sensor.answer_discovery received_discovery_request discovery_request in
        rw (request_received, Sensor.answer_discovery, e, Sensor.answer_discovery, c)

    actuator_answer :
        Actuator.answer_discovery alloc resp (discovery_request_bytes req)
        ≡ ok (some (10001, sensor_info_bytes resp))
    actuator_answer =
        answer_discovery-bytes alloc (λ n _. granted n) resp req request_valid short valid small
        ∙ (unfold discovery_request in refl)

    answer_received :
        (now : Double) (g : GatewayState)
        → receive_discovery_datagram alloc now g (sensor_info_bytes resp)
          ≡ ok (update_sensor alloc now g (received_sensor_info resp))
    answer_received now g =
        let raw = sensor_info_bytes resp in
        let parsed : smart_parse_discovery_response alloc (length raw) raw (length raw)
            ≡ ok (received_sensor_info resp) =
          sym (rw append-nil)
          ∙ smart_parse_discovery_response-bytes alloc resp (length raw) [] (λ n _. granted n) valid
              small (omega arith) in
        unfold receive_discovery_datagram in rw (parsed, receive_discovery_datagram)

    device_found :
        (now : Double) (g : GatewayState) (c : ℕ) (id : Bytes)
        → resp.sensor_id ≡ some (c ∷ id)
        → find_sensor (update_sensor alloc now g (received_sensor_info resp)) resp.sensor_id
          ≡ some (record { info = received_sensor_info resp; last_seen = now })
    device_found now g c id named =
        let arrived : (received_sensor_info resp).sensor_id ≡ some (c ∷ id) =
          unfold received_sensor_info in rw named in
        let hit : is_text (received_sensor_info resp).sensor_id (c ∷ id) ≡ true =
          rw arrived (unfold is_text in str_eq_refl (c ∷ id)) in
        ap (find_sensor (update_sensor alloc now g (received_sensor_info resp))) named
        ∙ find_sensor-update_sensor alloc now g (received_sensor_info resp) (c ∷ id) granted
        ∙ rw hit

    -- With an allocator that refuses nothing, a timestamp without NUL, and a description of texts
    -- without NUL and numbers within their types, with an id that is not empty, both of less than
    -- 2 ^ 62 bytes on the wire: the gateway sends its request, an actuator or a sensor with this
    -- description answers it to port 10001, the sensor remembers whom to send to, and behind the
    -- answer a look-up of the id finds the description as it arrives with the present time.
    pub discovery_handshake :
        (ip : CString) (s : SensorState) (now : Double) (g : GatewayState) (c : ℕ) (id : Bytes)
        → resp.sensor_id ≡ some (c ∷ id)
        → (asked : Bytes) × (told : Bytes) × (after : GatewayState) × (discovery_datagram alloc
              timestamp
            ≡ ok (some asked))
          × (Actuator.answer_discovery alloc resp asked ≡ ok (some (10001, told)))
          × (Sensor.answer_discovery alloc resp ip s asked
              ≡ ok (remember_gateway ip (received_discovery_request req) s, some (10001, told)))
          × (receive_discovery_datagram alloc now g told ≡ ok after)
          × (find_sensor after resp.sensor_id
              ≡ some (record { info = received_sensor_info resp; last_seen = now }))
    discovery_handshake ip s now g c id named = (
      discovery_request_bytes req,
      sensor_info_bytes resp,
      update_sensor alloc now g (received_sensor_info resp),
      datagram_sent,
      actuator_answer,
      sensor_answer ip s,
      answer_received now g,
      device_found now g c id named,
    )
