-- ===== src/Tests/Threads.antt =====
-- The theorems on the threads of the gateway and the sensors, and on connections.
use smartcity.Prelude.{
  ℕ, ◌^◌, ◌<◌, ◌≤◌, ◌≡◌, refl, some, none, Option, List, [], ◌∷◌, ◌++◌, Bytes, length, take, drop,
  map, codes, true, false, arith,
}
use smartcity.Outcome.{ok}
use smartcity.Double.{is_nan, is_zero, is_negative, lt_double, le_double}
use smartcity.CString.{text, lost, smart_dup_cstring}
use smartcity.Codec.DiscoveryRequest.RoundTrip.{received_discovery_request}
use smartcity.Codec.SensorInfo.RoundTrip.{received_sensor_info}
use smartcity.Codec.SensorReading.RoundTrip.{received_sensor_reading}
use smartcity.Codec.ClientRequest.RoundTrip.{received_client_request}
use smartcity.Gateway.{GatewayState, initial_state, find_sensor, copy_info, copy_failed}
use smartcity.Gateway.Queries.{
  build_sensor_list_response, sensor_list_loop, recently_seen, plain_response,
}
use smartcity.Gateway.Registry.Lookup.{Distinct}
use smartcity.Gateway.Command.{process_client_request}
use smartcity.Gateway.Events.{Event, announced, measured, commanded, run}
use smartcity.Gateway.Events.Refinement.{view, replay, run-replay, run-Distinct}
use smartcity.Gateway.Threads.{discovery_request, discovery_pass, receive_discovery_datagram}
use smartcity.Gateway.Threads.Announcing.{discovery_pass-answered}
use smartcity.Clock.{
  Tm, zeros, to_width, zero_padded, iso_text, smart_iso_utc_timestamp, iso_timestamp,
}
use smartcity.Gateway.Threads.Measuring.{IsSendable, deliver}
use smartcity.Csv.Rows.{Files, digits}
use smartcity.Actuator
use smartcity.Sensor
use smartcity.Sensor.{initial_sensor, remember_gateway, send_readings}
use smartcity.Sensor.Delivery.{send_readings-delivered}
use smartcity.Transport.{Socket, smart_send_msg, smart_recv_msg}
use smartcity.Transport.Stream.{IsStream}
use smartcity.Transport.Delivery.{smart_recv_msg-smart_send_msg}
use smartcity.Tests.{
  generous, toy, reading, reading_valid, device, device_valid, now_green, list_request, listed,
  lt_of_ltb,
}
use smartcity.Tests.Sizes.{reading_small, device_small}
use smartcity.Tests.Gateway.{known, light}

abbrev pub story : List Event
story = announced 3 device ∷ (measured 4 reading ∷ (commanded 5 (text "semaforo-1") now_green ∷ []))

run-replay_example : view (run generous story initial_state) ≡ replay story (view initial_state)
run-replay_example = run-replay generous (λ n. refl) story initial_state

run-Distinct_example : Distinct (run generous story known).sensors
run-Distinct_example = run-Distinct generous story known (tt, tt)

pub listed_then :
    process_client_request generous light 9
      (run generous [])
      toy
      known
      (received_client_request list_request)
    ≡ ok (listed, known)
unfolding process_client_request build_sensor_list_response sensor_list_loop copy_info copy_failed
    lost recently_seen le_double lt_double is_nan is_zero is_negative plain_response
    smart_dup_cstring received_client_request
listed_then = refl

abbrev noon : Bytes
noon = codes "2026-01-01T12:00:00Z"

abbrev noon_tm : Tm
noon_tm = record { tm_year = 126; tm_mon = 0; tm_mday = 1; tm_hour = 12; tm_min = 0; tm_sec = 0 }

noon_written : iso_timestamp (some noon_tm) 64 ≡ some noon
unfolding iso_timestamp smart_iso_utc_timestamp iso_text zero_padded to_width zeros digits
noon_written = refl

discovery_pass-answered_example :
    (timestamp asked told : Bytes) × (after : GatewayState) × (discovery_pass generous
        (some noon_tm)
      ≡ ok (some asked))
    × (Actuator.answer_discovery generous device asked ≡ ok (some (10001, told)))
    × (Sensor.answer_discovery generous device (text "10.0.0.1") initial_sensor asked
        ≡ ok (
          remember_gateway
              (text "10.0.0.1")
              (received_discovery_request (discovery_request timestamp))
              initial_sensor,
          some (10001, told),
        ))
    × (receive_discovery_datagram generous 9 known told ≡ ok after)
    × (find_sensor after device.sensor_id
        ≡ some (record { info = received_sensor_info device; last_seen = 9 }))
discovery_pass-answered_example =
    discovery_pass-answered generous (λ n. refl) (some noon_tm) device device_valid
      (omega (arith, device_small)) (text "10.0.0.1") initial_sensor 9 known 115 (codes "emaforo-1")
      refl

-- A disk on which no file can be opened.
abbrev read_only : Files
read_only = record { is_file = λ path. true; opens = λ path. false }

reading-IsSendable : IsSendable reading
reading-IsSendable = record { valid = reading_valid; small = omega (arith, reading_small) }

send_readings-delivered_example :
    (sent : List Bytes) × (after : GatewayState) × (send_readings generous
        (remember_gateway (some (codes "10.0.0.1")) (discovery_request noon) initial_sensor)
        (reading ∷ [])
      ≡ ok (some (codes "10.0.0.1", 9001, sent)))
    × (deliver generous toy read_only 9 known sent ≡ ok after)
    × (after.readings ≡ known.readings ++ map received_sensor_reading (reading ∷ []))
send_readings-delivered_example =
    send_readings-delivered generous (λ n. refl) toy read_only 9 noon (codes "10.0.0.1")
      initial_sensor (reading ∷ []) known (lt_of_ltb _ _ refl) (lt_of_ltb _ _ refl)
      (reading-IsSendable, tt)

-- A connection that takes and brings a byte at a time: what is to come, and what went out.
abbrev pub trickle_recv : Bytes × Bytes → ℕ → Option Bytes × (Bytes × Bytes)
trickle_recv ([], out) n = (none, ([], out))
trickle_recv (b ∷ rest, out) n = (some (b ∷ []), (rest, out))

abbrev pub trickle_send : Bytes × Bytes → Bytes → ℕ → Option ℕ × (Bytes × Bytes)
trickle_send (to_come, out) mem n = (some 1, (to_come, out ++ take 1 mem))

abbrev pub trickle : Socket (Bytes × Bytes)
trickle = record { send = trickle_send; recv = trickle_recv }

pub trickle_receives :
    (s : Bytes × Bytes) (n : ℕ)
    → 0 < n
    → n < 2 ^ 31
    → n ≤ length s.0
    → (chunk : Bytes) × (s' : Bytes × Bytes) × (trickle.recv s n ≡ (some chunk, s'))
      × (0 < length chunk)
      × (length chunk ≤ n)
      × (s.0 ≡ chunk ++ s'.0)
trickle_receives ([], out) n some_asked small there = absurd (omega arith)
trickle_receives (b ∷ rest, out) n some_asked small there =
    (b ∷ [], (rest, out), refl, omega arith, omega arith, refl)

pub trickle_sends :
    (s : Bytes × Bytes) (mem : Bytes) (n : ℕ)
    → 0 < n
    → n < 2 ^ 31
    → n ≤ length mem
    → (k : ℕ) × (s' : Bytes × Bytes) × (trickle.send s mem n ≡ (some k, s'))
      × (0 < k)
      × (k ≤ n)
      × (s'.1 ≡ s.1 ++ take k mem)
trickle_sends (to_come, out) mem n some_given small inside =
    (1, (to_come, out ++ take 1 mem), refl, omega arith, omega arith, refl)

abbrev pub trickle_stream : IsStream trickle
trickle_stream = record {
  incoming = λ s. s.0;
  outgoing = λ s. s.1;
  receives = trickle_receives;
  sends = trickle_sends;
}

smart_recv_msg-smart_send_msg_example :
    (s' : Bytes × Bytes) × (r' : Bytes × Bytes) × (smart_send_msg trickle
        ([], codes "ab")
        (codes "hello")
        5
      ≡ ok (true, s'))
    × (smart_recv_msg trickle generous (drop 2 s'.1 ++ codes "xy", [])
        ≡ ok (some (codes "hello"), r'))
    × (r'.0 ≡ codes "xy")
smart_recv_msg-smart_send_msg_example =
    smart_recv_msg-smart_send_msg trickle trickle trickle_stream trickle_stream generous
      (λ b. (b, [])) (λ b. refl) ([], codes "ab") (codes "hello") (codes "xy") (lt_of_ltb _ _ refl)
      refl
