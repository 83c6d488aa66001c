-- ===== src/Sensor/Delivery.antt =====
-- What a sensor measures reaches the gateway that asked for it.
use smartcity.Prelude.{
  ℕ, ◌<◌, ◌≡◌, refl, ap, ◌∙◌, Bool, true, false, some, none, List, [], ◌∷◌, ◌++◌, map, Bytes, All,
  length, take, take-all, ◌==◌, arith,
}
use smartcity.Outcome.{ok}
use smartcity.Buffer.{Buffer, smart_buffer_init}
use smartcity.Buffer.Append.{Appended-total}
use smartcity.Double.{Double, Arithmetic}
use smartcity.Message.{SensorReading}
use smartcity.Codec.SensorReading.{smart_encode_sensor_reading}
use smartcity.Codec.SensorReading.RoundTrip.{
  sensor_reading_bytes, received_sensor_reading, sensor_reading-Writes,
}
use smartcity.Gateway.{GatewayState}
use smartcity.Csv.Rows.{Files}
use smartcity.Gateway.Threads.{discovery_request}
use smartcity.Gateway.Threads.Measuring.{IsSendable, deliver, deliver-readings}
use smartcity.Sensor.{SensorState, initial_sensor, remember_gateway, payloads, send_readings}

module _ (alloc : ℕ → Bool) (granted : (n : ℕ) → alloc n ≡ true) where
  reading_sent :
      (r : SensorReading)
      → IsSendable r
      → (b : Buffer) × (smart_encode_sensor_reading alloc r ≡ ok b)
        × (b.contents ≡ sensor_reading_bytes r)
  unfolding smart_encode_sensor_reading smart_buffer_init
  reading_sent r h =
      Appended-total alloc (λ n _. granted n)
        (sensor_reading-Writes alloc r h.valid smart_buffer_init (omega arith)
          (omega (arith, h.small)))

  payloads_one :
      (r : SensorReading) (rest : List SensorReading) (b : Buffer) (more : List Bytes)
      → smart_encode_sensor_reading alloc r ≡ ok b
      → payloads alloc rest ≡ ok more
      → payloads alloc (r ∷ rest) ≡ ok (b.contents ∷ more)
  unfolding payloads
  payloads_one r rest b more e others = rw (e, payloads, others)

  payloads_sent :
      (rs : List SensorReading)
      → All IsSendable rs
      → payloads alloc rs ≡ ok (map sensor_reading_bytes rs)
  payloads_sent [] h = unfold payloads in refl
  payloads_sent (r ∷ rest) h =
      let (b, e, c) = reading_sent r h.0 in
      payloads_one r rest b _ e (payloads_sent rest h.1)
      ∙ ap (λ t. ok (t ∷ map sensor_reading_bytes rest)) c

  -- With an allocator that refuses nothing: a sensor that was asked by the gateway from an address of
  -- 1 to 63 bytes sends its readings, of texts without NUL, numbers within their types and less than
  -- 2 ^ 62 bytes, to that address and the port 9001, and once the gateway has received the datagrams
  -- in their order, it has the readings, as they arrive, behind those that it had.
  pub send_readings-delivered :
      (fp : Arithmetic) (files : Files) (now : Double) (timestamp ip : Bytes) (s : SensorState)
      (rs : List SensorReading) (g : GatewayState)
      → 0 < length ip
      → length ip < 64
      → All IsSendable rs
      → (sent : List Bytes) × (after : GatewayState) × (send_readings alloc
            (remember_gateway (some ip) (discovery_request timestamp) s)
            rs
          ≡ ok (some (ip, 9001, sent)))
        × (deliver alloc fp files now g sent ≡ ok after)
        × (after.readings ≡ g.readings ++ map received_sensor_reading rs)
  send_readings-delivered fp files now timestamp ip s rs g some_ip short h =
      let (after, e, k) = deliver-readings alloc fp files now granted rs g h in
      (map sensor_reading_bytes rs, after, sends, e, k)
    where
      kept : take 63 ip ≡ ip
      kept = take-all 63 ip (omega arith)

      named : (length ip == 0) ≡ false
      named = ground arith

      sends :
          send_readings alloc (remember_gateway (some ip) (discovery_request timestamp) s) rs
          ≡ ok (some (ip, 9001, map sensor_reading_bytes rs))
      sends =
          unfold send_readings remember_gateway discovery_request in
          rw (kept, named, payloads_sent rs h)

-- Until it has been asked, a sensor sends nothing, whatever it measures and the allocator answers.
pub send_readings-unasked :
    (alloc : ℕ → Bool) (rs : List SensorReading) → send_readings alloc initial_sensor rs ≡ ok none
unfolding send_readings
send_readings-unasked alloc rs = refl
