-- ===== src/Gateway/Events/Refinement.antt =====
-- The tables against an abstract gateway: a function from ids to devices, and the readings.
use mathlib.Core.Option
use mathlib.Core.Path.{fun_ext}
use smartcity.Prelude.{
  ℕ, ◌≡◌, refl, ap, ◌∙◌, Bool, true, some, none, Option, List, [], ◌∷◌, ◌++◌, Bytes, if◌then◌else◌,
}
use smartcity.Double.{Double}
use smartcity.Encode.{CString}
use smartcity.CString.{is_text, smart_dup_cstring-granted}
use smartcity.Message.{SensorReading, ControlResponse}
use smartcity.Gateway.{
  SensorRecord, GatewayState, find_sensor, write_sensor, update_sensor, receive_reading,
}
use smartcity.Gateway.Registry.{find_sensor-update_sensor, update_sensor-readings}
use smartcity.Gateway.Registry.Lookup.{first_with-write_first, has_id→eq, Distinct}
use smartcity.Gateway.Registry.Unique.{
  update_sensor-Distinct, receive_reading-Distinct, write_sensor-Distinct,
}
use smartcity.Gateway.Readings.{seen, receive_reading_lem}
use smartcity.Gateway.Command.{apply_control}
use smartcity.Gateway.Control.{write_sensor-readings}
use smartcity.Gateway.Events.{Event, announced, measured, commanded, happen, run}

-- What an actuator's answer leaves of a device.
abbrev pub commanded_to : Double → ControlResponse → SensorRecord → SensorRecord
commanded_to now r sensor = record sensor {
  info = record (sensor.info) {
    is_active = r.is_active;
    frequency_seconds = r.frequency_seconds;
    threshold = r.threshold;
    state_text = r.state_text;
  };
  last_seen = now;
}

pub record View : Type 0 where
  pub device : Bytes → Option SensorRecord
  pub readings : List SensorReading

abbrev pub view : GatewayState → View
view state = record { device = λ id. find_sensor state (some id); readings = state.readings }

-- A change of the device with an id, if that is not NULL.
abbrev pub change : CString → (Option SensorRecord → Option SensorRecord) → View → View
change own f v = record v { device = λ id. if is_text own id then f (v.device id) else v.device id }

unfoldable pub replay_one : Event → View → View
replay_one (announced now d) v =
    change d.sensor_id (λ _. some (record { info = d; last_seen = now })) v
replay_one (measured now r) v =
    change r.sensor_id (Option.map (seen now)) (record v { readings = v.readings ++ (r ∷ []) })
replay_one (commanded now id r) v = change id (Option.map (commanded_to now r)) v

unfoldable pub replay : List Event → View → View
unfolding replay_one
replay [] v = v
replay (e ∷ rest) v = replay rest (replay_one e v)

view_eq :
    (state : GatewayState) (v : View)
    → ((id : Bytes) → find_sensor state (some id) ≡ v.device id)
    → state.readings ≡ v.readings
    → view state ≡ v
view_eq state v h k = λ i. record { device = fun_ext h i; readings = k i }

find_sensor-write_sensor :
    (own : CString) (f : SensorRecord → SensorRecord) (state : GatewayState) (id : Bytes)
    → ((r : SensorRecord) → (f r).info.sensor_id ≡ r.info.sensor_id)
    → find_sensor (write_sensor own f state) (some id) ≡ (
        if is_text own id
        then Option.map f (find_sensor state (some id))
        else find_sensor state (some id))
unfolding find_sensor write_sensor is_text
find_sensor-write_sensor none f state id keeps = refl
find_sensor-write_sensor (some s) f state id keeps =
    first_with-write_first s id f state.sensors (λ r hit. keeps r ∙ has_id→eq s r hit)

module _ (alloc : ℕ → Bool) (granted : (n : ℕ) → alloc n ≡ true) where
  apply_control-commanded_to :
      (now : Double) (r : ControlResponse) (sensor : SensorRecord)
      → apply_control alloc now r sensor ≡ commanded_to now r sensor
  unfolding apply_control
  apply_control-commanded_to now r sensor =
      rw (smart_dup_cstring-granted alloc r.state_text granted)

  happen-replay_one :
      (e : Event) (state : GatewayState) → view (happen alloc e state) ≡ replay_one e (view state)
  unfolding happen replay_one
  happen-replay_one (announced now d) state =
      view_eq (update_sensor alloc now state d) _
        (λ id. find_sensor-update_sensor alloc now state d id granted)
        (update_sensor-readings alloc now state d)
  happen-replay_one (measured now r) state =
      view_eq (receive_reading alloc now state r) _
        (λ id. (receive_reading_lem alloc granted now state r id).1)
        (receive_reading_lem alloc granted now state r []).0
  happen-replay_one (commanded now own r) state =
      view_eq (write_sensor own (apply_control alloc now r) state) _
        (λ id.
          find_sensor-write_sensor own (apply_control alloc now r) state id
            (λ x. unfold apply_control in refl)
          ∙ rw (fun_ext (apply_control-commanded_to now r)))
        (write_sensor-readings own (apply_control alloc now r) state)

  -- With an allocator that refuses nothing, the tables after any sequence of events, in whatever order
  -- the threads take the lock, are those of the abstract gateway: for each id the device that a
  -- look-up finds, and the readings in their order.
  pub run-replay :
      (events : List Event) (state : GatewayState)
      → view (run alloc events state) ≡ replay events (view state)
  unfolding run replay
  run-replay [] state = refl
  run-replay (e ∷ rest) state =
      run-replay rest (happen alloc e state) ∙ ap (replay rest) (happen-replay_one e state)

happen-Distinct :
    (alloc : ℕ → Bool) (e : Event) (state : GatewayState)
    → Distinct state.sensors
    → Distinct (happen alloc e state).sensors
unfolding happen
happen-Distinct alloc (announced now d) state h = update_sensor-Distinct alloc now state d h
happen-Distinct alloc (measured now r) state h = receive_reading-Distinct alloc now state r h
happen-Distinct alloc (commanded now own r) state h =
    write_sensor-Distinct own (apply_control alloc now r) state (λ x. unfold apply_control in refl)
      h

-- Whatever the allocator answers, no sequence of events leaves an id in the table twice where none
-- was twice before.
pub run-Distinct :
    (alloc : ℕ → Bool) (events : List Event) (state : GatewayState)
    → Distinct state.sensors
    → Distinct (run alloc events state).sensors
unfolding run
run-Distinct alloc [] state h = h
run-Distinct alloc (e ∷ rest) state h =
    run-Distinct alloc rest (happen alloc e state) (happen-Distinct alloc e state h)
