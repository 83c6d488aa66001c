-- ===== src/Tests/Gateway.antt =====
-- The theorems on the gateway, each on a table with one device.
use mathlib.Core.Option
use mathlib.Core.List.{foldl}
use smartcity.Prelude.{
  ◌-◌, ◌^◌, ap, Option, ◌<◌, ◌≤◌, ◌≡◌, refl, sym, subst, ◌∙◌, true, false, some, [], ◌∷◌, ◌++◌,
  Bytes, length, drop, map, ltb, codes, if◌then◌else◌, arith,
}
use smartcity.Outcome.{Outcome, ok}
use smartcity.Double.{Double, is_nan, is_zero, double_bytes, double_70, double_100}
use smartcity.Double.Order.{IsNumber}
use smartcity.CString.{text, is_text, or_empty}
use smartcity.Message.{ControlResponse, SensorReading, ok_status}
use smartcity.Decode.Stores.{sent}
use smartcity.Codec.ControlCommand.RoundTrip.{control_command_bytes, received_control_command}
use smartcity.Codec.ControlResponse.RoundTrip.{IsControlResponse, control_response_bytes}
use smartcity.Actuator.{serve_command}
use smartcity.Actuator.TrafficLight
use smartcity.Actuator.TrafficLight.{TrafficState, initial_traffic}
use smartcity.Gateway.{GatewayState, find_sensor, update_sensor, receive_reading}
use smartcity.Gateway.Registry.{find_sensor-update_sensor}
use smartcity.Gateway.Readings.{
  seen, values_of, receive_reading_lem, build_history_response-last, compute_average_locked-values,
}
use smartcity.Gateway.Readings.Highest.{
  IsHighest, compute_max_locked-IsHighest, compute_max_locked-nan,
}
use smartcity.Gateway.Queries.{compute_average_locked, compute_max_locked, build_history_response}
use smartcity.Message.{ClientResponse}
use smartcity.Gateway.Control.{mirrored, Answers, send_control_command-actuator}
use smartcity.Gateway.Command.{Network, send_control_command}
use smartcity.Transport.{smart_send_msg, smart_send_all, send_loop, after_send, htonl}
use smartcity.Actuator.Conversation.{serve_command-bytes}
use smartcity.Encode.Shape.{
  string_bytes, varint_field_bytes, double_field_bytes, varint_bytes, groups,
}
use smartcity.Tests.Line.{line, line_stream, same_state}
use smartcity.Tests.{
  generous, toy, reading, device, to_green, now_green, to_green_valid, now_green_valid, lt_of_ltb,
}
use smartcity.Tests.Sizes.{to_green_small, now_green_small}
use smartcity.Tests.Actuator.{turned_green}

abbrev pub known : GatewayState
known = record { sensors = record { info = device; last_seen = 5 } ∷ []; readings = reading ∷ [] }

abbrev hot : SensorReading
hot = record reading { value = double_100 }

abbrev nan_reading : SensorReading
nan_reading = record reading { value = 0x7ff8_0000_0000_0000 }

announcement_example : find_sensor (update_sensor generous 9 known device) (text "semaforo-1") ≡ (
    if is_text device.sensor_id (codes "semaforo-1")
    then some (record { info = device; last_seen = 9 })
    else find_sensor known (text "semaforo-1"))
announcement_example =
    find_sensor-update_sensor generous 9 known device (codes "semaforo-1") (λ n. refl)

received_example :
    ((receive_reading generous 9 known reading).readings ≡ known.readings ++ (reading ∷ []))
    × (find_sensor (receive_reading generous 9 known reading) (text "t1") ≡ (
        if is_text reading.sensor_id (codes "t1")
        then Option.map (seen 9) (find_sensor known (text "t1"))
        else find_sensor known (text "t1")))
received_example = receive_reading_lem generous (λ n. refl) 9 known reading (codes "t1")

history_example :
    ((build_history_response generous known).status ≡ ok_status)
    × ((build_history_response generous known).readings
        ≡ drop (length known.readings - 200) known.readings)
    × (length (build_history_response generous known).readings ≤ 200)
history_example = build_history_response-last generous (λ n. refl) known

average_example :
    let values = values_of (codes "temperature") known.readings in
    compute_average_locked toy known (codes "temperature") ≡ (
      if ltb 0 (length values)
          then toy.div (foldl toy.add 0 values) (toy.of_count (length values))
          else 0,
      ltb 0 (length values),
    )
average_example = compute_average_locked-values toy known (codes "temperature")

number : (x : Double) → x < 2 ^ 64 → is_nan x ≡ false → IsNumber x
number x h k = record { word = h; number = k }

compute_max_locked-IsHighest_example :
    (m : SensorReading) × (compute_max_locked (record known { readings = reading ∷ hot ∷ [] })
      ≡ some m)
    × IsHighest m (reading ∷ hot ∷ [])
compute_max_locked-IsHighest_example =
    compute_max_locked-IsHighest (record known { readings = reading ∷ hot ∷ [] })
      (
        number double_70 (lt_of_ltb _ _ refl) (unfold is_nan in refl),
        (number double_100 (lt_of_ltb _ _ refl) (unfold is_nan in refl), tt),
      )
      (λ e. cc)

nan_example :
    compute_max_locked (record known { readings = nan_reading ∷ hot ∷ [] }) ≡ some nan_reading
nan_example =
    compute_max_locked-nan (record known { readings = nan_reading ∷ hot ∷ [] }) nan_reading
      (hot ∷ []) refl (unfold is_nan in refl)

abbrev green_raw : Bytes
green_raw = control_response_bytes now_green

abbrev green_reply : Bytes
green_reply = htonl (length green_raw) ++ green_raw

-- A network on which a traffic light answers that it turned green.
abbrev pub light : Network
light = record {
  socket = true;
  Link = Bytes × Bytes;
  link = line green_reply;
  connect = λ ip port. some ([], []);
}

abbrev command_bytes : Bytes
command_bytes = control_command_bytes to_green

command_gone :
    smart_send_msg (line green_reply) ([], []) command_bytes (length command_bytes)
    ≡ ok (true, (green_reply, htonl (length command_bytes) ++ command_bytes))
unfolding smart_send_msg smart_send_all send_loop after_send htonl control_command_bytes
    string_bytes varint_field_bytes double_field_bytes varint_bytes groups is_zero double_bytes
command_gone = refl

abbrev greened : ControlResponse
greened =
    (TrafficLight.handle_command generous initial_traffic (received_control_command to_green)).0

green_valid : IsControlResponse greened
green_valid = subst IsControlResponse (sym turned_green) now_green_valid

green_small : length (control_response_bytes greened) < 2 ^ 31
green_small =
    subst (λ r. length (control_response_bytes r) < 2 ^ 31) (sym turned_green)
      (omega (arith, now_green_small))

light_served :
    serve_command generous (TrafficLight.handle_command generous) initial_traffic command_bytes
    ≡ ok (
      some green_raw,
      (TrafficLight.handle_command generous initial_traffic (received_control_command to_green)).1,
    )
light_served =
    serve_command-bytes generous (λ n _. refl) (TrafficLight.handle_command generous)
      initial_traffic to_green to_green_valid (omega (arith, to_green_small)) green_valid
      (omega (arith, green_small))
    ∙ ap
        (λ r. ok (
          some (control_response_bytes r),
          (TrafficLight.handle_command generous initial_traffic
              (received_control_command to_green)).1,
        ))
        turned_green

light-Answers :
    (out : Bytes) (after : TrafficState)
    → serve_command generous (TrafficLight.handle_command generous) initial_traffic command_bytes
      ≡ ok (some out, after)
    → Answers light (codes "10.0.0.7") device.control_tcp_port command_bytes out
light-Answers out after served = record {
  socket = refl;
  start = ([], []);
  opened = refl;
  stream = line_stream green_reply;
  comes = λ s gone.
      let there : ◌≡◌ {A = Bytes × Bytes} (green_reply, _) s = same_state command_gone gone in
      let same : green_raw ≡ out = same_answer light_served served in
      sym (ap (λ p. p.0) there) ∙ ap (λ t. htonl (length t) ++ t) same;
}
  where
    same_answer :
        {o : Outcome (Option Bytes × TrafficState)} {a b : Bytes} {x y : TrafficState}
        → o ≡ ok (some a, x)
        → o ≡ ok (some b, y)
        → a ≡ b
    same_answer e e' = cc

conversation_example :
    let (m, s') =
      TrafficLight.handle_command generous initial_traffic (received_control_command to_green) in
    (serve_command generous
        (TrafficLight.handle_command generous)
        initial_traffic
        (control_command_bytes to_green)
      ≡ ok (some (control_response_bytes m), s'))
    × (resp : ClientResponse) × (after : GatewayState) × (send_control_command generous light 9
          (λ s. s)
          known
          to_green.sensor_id
          to_green.command_type
          to_green.value
          to_green.text_value
        ≡ ok (resp, after))
    × (resp.status ≡ m.status)
    × (resp.message ≡ some (or_empty (sent m.message)))
    × (after.readings ≡ known.readings)
    × (find_sensor after to_green.sensor_id
        ≡ Option.map (mirrored 9 m) (find_sensor known to_green.sensor_id))
conversation_example =
    send_control_command-actuator generous (λ n. refl) light 9 (λ s. s)
      (TrafficLight.handle_command generous) initial_traffic known to_green
      (record { info = device; last_seen = 5 }) (codes "10.0.0.7") (unfold find_sensor in refl) refl
      (omega arith) refl to_green_valid (omega (arith, to_green_small)) light-Answers green_valid
      green_small
