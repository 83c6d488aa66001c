-- ===== src/Gateway.antt =====
-- The gateway's tables, from 2_c/gateway.c: the devices that it has heard of and the readings that
-- they sent, and the functions that change them. A pointer that `find_sensor` returns is the first
-- device with the id; what the source writes through it is written to that device. Each function is
-- one critical section of the lock. `now` is the value that now_seconds returned.
pub mod Queries
pub mod Command
pub mod Registry
pub mod Readings
pub mod Answers
pub mod Control
pub mod Events
pub mod Threads
use smartcity.Prelude.{
  ℕ, ◌+◌, ◌*◌, ◌%◌, Bool, true, false, not, ◌||◌, some, none, Option, List, [], ◌∷◌, ◌++◌, Bytes,
  length, if◌then◌else◌,
}
use smartcity.Buffer.{size_mod}
use smartcity.Double.{Double}
use smartcity.Encode.{CString}
use smartcity.CString.{smart_dup_cstring, lost, is_text}
use smartcity.Message.{SensorInfo, SensorReading, DiscoveryResponse}

pub record SensorRecord : Type 0 where
  pub info : DiscoveryResponse
  pub last_seen : Double

pub record GatewayState : Type 0 where
  pub sensors : List SensorRecord
  pub readings : List SensorReading

abbrev pub initial_state : GatewayState
initial_state = record { sensors = []; readings = [] }

-- `sizeof(SensorRecord)` and `sizeof(SensorReading)` on the 64-bit targets.
abbrev pub sensor_record_size : ℕ
sensor_record_size = 72

abbrev pub sensor_reading_size : ℕ
sensor_reading_size = 64

-- The test of the loops over the table.
unfoldable pub has_id : Bytes → SensorRecord → Bool
unfolding is_text
has_id sensor_id r = is_text r.info.sensor_id sensor_id

unfoldable pub first_with : Bytes → List SensorRecord → Option SensorRecord
unfolding has_id
first_with sensor_id [] = none
first_with sensor_id (r ∷ rest) = if has_id sensor_id r then some r else first_with sensor_id rest

unfoldable pub find_sensor : GatewayState → CString → Option SensorRecord
unfolding first_with
find_sensor state none = none
find_sensor state (some sensor_id) = first_with sensor_id state.sensors

-- A write through the pointer that `find_sensor` returned.
unfoldable pub write_first :
    Bytes → (SensorRecord → SensorRecord) → List SensorRecord → List SensorRecord
unfolding has_id
write_first sensor_id f [] = []
write_first sensor_id f (r ∷ rest) =
    if has_id sensor_id r then f r ∷ rest else r ∷ write_first sensor_id f rest

unfoldable pub write_sensor : CString → (SensorRecord → SensorRecord) → GatewayState → GatewayState
unfolding write_first
write_sensor none f state = state
write_sensor (some sensor_id) f state = record state {
  sensors = write_first sensor_id f state.sensors;
}

module _ (alloc : ℕ → Bool) where
  -- The copy of a device that the source builds field by field, here and in `build_sensor_list_response`.
  unfoldable pub copy_info : SensorInfo → SensorInfo
  unfolding smart_dup_cstring
  copy_info src = record src {
    sensor_id = smart_dup_cstring alloc src.sensor_id;
    sensor_ip = smart_dup_cstring alloc src.sensor_ip;
    state_text = smart_dup_cstring alloc src.state_text;
  }

  -- The test for a text that could not be copied.
  unfoldable pub copy_failed : SensorInfo → SensorInfo → Bool
  unfolding lost
  copy_failed src copy =
      lost src.sensor_id copy.sensor_id
      || lost src.sensor_ip copy.sensor_ip
      || lost src.state_text copy.state_text

  unfoldable pub append_sensor_copy :
      Double → GatewayState → DiscoveryResponse → GatewayState × Bool
  unfolding copy_info copy_failed
  append_sensor_copy now state src =
      let copy = copy_info src in
      let added : SensorRecord = record { info = copy; last_seen = now } in
      if not (alloc ((length state.sensors + 1) * sensor_record_size % size_mod))
      then (state, false)
      else if copy_failed src copy
      then (state, false)
      else (record state { sensors = state.sensors ++ (added ∷ []) }, true)

  unfoldable pub copy_reading : SensorReading → SensorReading
  unfolding smart_dup_cstring
  copy_reading src = record src {
    sensor_id = smart_dup_cstring alloc src.sensor_id;
    unit = smart_dup_cstring alloc src.unit;
    alert_message = smart_dup_cstring alloc src.alert_message;
    metric = smart_dup_cstring alloc src.metric;
  }

  unfoldable pub copy_reading_failed : SensorReading → SensorReading → Bool
  unfolding lost
  copy_reading_failed src copy =
      lost src.sensor_id copy.sensor_id
      || lost src.unit copy.unit
      || lost src.alert_message copy.alert_message
      || lost src.metric copy.metric

  -- The array that `append_reading_copy` and `append_reading_to_response` grow by one copy.
  unfoldable pub append_copy : List SensorReading → SensorReading → Option (List SensorReading)
  unfolding copy_reading copy_reading_failed
  append_copy items src =
      let copy = copy_reading src in
      if not (alloc ((length items + 1) * sensor_reading_size % size_mod))
      then none
      else if copy_reading_failed src copy
      then none
      else some (items ++ (copy ∷ []))

  unfoldable pub append_reading_copy : GatewayState → SensorReading → GatewayState × Bool
  unfolding append_copy
  append_reading_copy state src = elim (append_copy state.readings src) [
    | none ↦ (state, false)
    | some items ↦ (record state { readings = items }, true)
  ]

  -- A known device is overwritten, with NULL for a text that could not be copied.
  unfoldable pub update_sensor : Double → GatewayState → DiscoveryResponse → GatewayState
  unfolding find_sensor append_sensor_copy copy_info write_sensor
  update_sensor now state discovery =
      let fresh : SensorRecord = record { info = copy_info discovery; last_seen = now } in
      elim (find_sensor state discovery.sensor_id) [
        | some r ↦ write_sensor discovery.sensor_id (λ _. fresh) state
        | none ↦ (append_sensor_copy now state discovery).0
      ]

unfoldable pub update_last_seen_for_reading : Double → GatewayState → CString → GatewayState
unfolding write_sensor
update_last_seen_for_reading now state sensor_id =
    write_sensor sensor_id (λ r. record r { last_seen = now }) state

-- The critical section of `udp_server_thread`, on a reading that was parsed.
unfoldable pub receive_reading : (ℕ → Bool) → Double → GatewayState → SensorReading → GatewayState
unfolding append_reading_copy update_last_seen_for_reading
receive_reading alloc now state reading =
    let (state', _) = append_reading_copy alloc state reading in
    update_last_seen_for_reading now state' reading.sensor_id
