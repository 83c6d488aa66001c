-- ===== src/Gateway/Readings.antt =====
-- The readings that the gateway keeps: what a new one changes, and the average, the highest and the
-- last readings against descriptions of their own.
pub mod Highest
use smartcity.Prelude.{
  ℕ, zero, suc, ◌+◌, ◌-◌, ◌*◌, ◌%◌, ◌≤◌, ◌<◌, ◌≡◌, refl, sym, ap, ◌∙◌, Bool, true, false, not, ◌⊎◌,
  inl, inr, some, none, Option, List, [], ◌∷◌, ◌++◌, append_assoc, append-nil, Bytes, All, length,
  length-append, length-drop, drop, codes, ltb, str_eq, if◌then◌else◌, Bool-cases, Option-cases,
  arith,
}
use mathlib.Core.Option
use mathlib.Core.List.{foldl}
use smartcity.Double.{Double, Arithmetic}
use smartcity.Encode.{CString}
use smartcity.CString.{is_text, smart_dup_cstring, smart_dup_cstring-granted, lost_self}
use smartcity.Message.{SensorReading, ok_status}
use smartcity.Gateway.{
  SensorRecord, GatewayState, has_id, find_sensor, write_sensor, copy_reading, copy_reading_failed,
  append_copy, append_reading_copy, receive_reading, update_last_seen_for_reading,
}
use smartcity.Gateway.Registry.Lookup.{first_with-write_first, has_id→eq}
use smartcity.Gateway.Queries.{
  average_loop, compute_average_locked, history_loop, build_history_response, plain_response,
}

abbrev pub seen : Double → SensorRecord → SensorRecord
seen now s = record s { last_seen = now }

module _ (alloc : ℕ → Bool) (granted : (n : ℕ) → alloc n ≡ true) where
  copy_reading-granted : (r : SensorReading) → copy_reading alloc r ≡ r
  unfolding copy_reading
  copy_reading-granted r =
      let same = λ (c : CString). smart_dup_cstring-granted alloc c granted in
      rw (same r.sensor_id, same r.unit, same r.alert_message, same r.metric)

  copy_reading_failed_self : (r : SensorReading) → copy_reading_failed alloc r r ≡ false
  unfolding copy_reading_failed
  copy_reading_failed_self r =
      rw (lost_self r.sensor_id, lost_self r.unit, lost_self r.alert_message, lost_self r.metric)

  nothing_lost : (r : SensorReading) → copy_reading_failed alloc r (copy_reading alloc r) ≡ false
  nothing_lost r = rw (copy_reading-granted r) (copy_reading_failed_self r)

  append_copy-shut :
      (items : List SensorReading) (r : SensorReading)
      → append_copy alloc items r ≡ some (items ++ (copy_reading alloc r ∷ []))
  unfolding append_copy
  append_copy-shut items r = rw (granted, nothing_lost r)

  append_copy-granted :
      (items : List SensorReading) (r : SensorReading)
      → append_copy alloc items r ≡ some (items ++ (r ∷ []))
  append_copy-granted items r = append_copy-shut items r ∙ rw (copy_reading-granted r)

  append_reading_copy-granted :
      (state : GatewayState) (r : SensorReading)
      → (append_reading_copy alloc state r).0
        ≡ record state { readings = state.readings ++ (r ∷ []) }
  append_reading_copy-granted state r =
      let e = append_copy-granted state.readings r in
      unfold append_reading_copy in rw (e, append_reading_copy)

  history_step :
      (items : List SensorReading) (r : SensorReading) (rest : List SensorReading)
      → history_loop alloc (r ∷ rest) items ≡ history_loop alloc rest (items ++ (r ∷ []))
  unfolding history_loop
  history_step items r rest = let e = append_copy-granted items r in rw (e, history_loop)

  history_loop-granted :
      (rs items : List SensorReading) → history_loop alloc rs items ≡ some (items ++ rs)
  history_loop-granted [] items = unfold history_loop in rw append-nil
  history_loop-granted (r ∷ rest) items =
      history_step items r rest
      ∙ history_loop-granted rest (items ++ (r ∷ []))
      ∙ ap some (append_assoc items (r ∷ []) rest)

  -- With an allocator that refuses nothing the history is the last 200 readings in their order, all
  -- of them where there are no more.
  pub build_history_response-last :
      (state : GatewayState)
      → ((build_history_response alloc state).status ≡ ok_status)
        × ((build_history_response alloc state).readings
            ≡ drop (length state.readings - 200) state.readings)
        × (length (build_history_response alloc state).readings ≤ 200)
  build_history_response-last state =
      let start = if ltb 200 (length state.readings) then length state.readings - 200 else 0 in
      let same : start ≡ length state.readings - 200 = ground arith in
      let e = history_loop-granted (drop start state.readings) [] in
      let answer : build_history_response alloc state
          ≡ record (plain_response alloc ok_status (codes "Historico de leituras")) {
            readings = drop start state.readings;
          } =
        unfold build_history_response in rw (e, build_history_response) in
      rw answer (
        (unfold plain_response in refl),
        rw same,
        rw (same, length-drop (length state.readings - 200) state.readings) (omega arith),
      )

  -- With an allocator that refuses nothing a reading is added behind the others, and the time of
  -- the device with its id, and of no other, becomes the present.
  pub receive_reading_lem :
      (now : Double) (state : GatewayState) (r : SensorReading) (id : Bytes)
      → ((receive_reading alloc now state r).readings ≡ state.readings ++ (r ∷ []))
        × (find_sensor (receive_reading alloc now state r) (some id) ≡ (
            if is_text r.sensor_id id
            then Option.map (seen now) (find_sensor state (some id))
            else find_sensor state (some id)))
  receive_reading_lem now state r id =
      let e = append_reading_copy-granted state r in
      let after : receive_reading alloc now state r
          ≡ write_sensor r.sensor_id (seen now)
              (record state { readings = state.readings ++ (r ∷ []) }) =
        unfold receive_reading in rw e in
      rw after (written r.sensor_id)
    where
      written :
          (own : CString)
          → let state' : GatewayState = record state { readings = state.readings ++ (r ∷ []) } in
            ((write_sensor own (seen now) state').readings ≡ state.readings ++ (r ∷ []))
            × (find_sensor (write_sensor own (seen now) state') (some id) ≡ (
                if is_text own id
                then Option.map (seen now) (find_sensor state (some id))
                else find_sensor state (some id)))
      written none = unfold write_sensor find_sensor is_text in (refl, refl)
      written (some s) =
          unfold write_sensor find_sensor is_text in
          (refl, first_with-write_first s id (seen now) state.sensors (λ x hit. has_id→eq s x hit))

-- The values of a metric, in the order in which they came.
unfoldable pub values_of : Bytes → List SensorReading → List Double
values_of metric [] = []
values_of metric (r ∷ rest) =
    if is_text r.metric metric then r.value ∷ values_of metric rest else values_of metric rest

average_loop-values :
    (fp : Arithmetic) (rs : List SensorReading) (metric : Bytes) (sum : Double) (count : ℕ)
    → average_loop fp rs metric sum count
      ≡ (foldl fp.add sum (values_of metric rs), count + length (values_of metric rs))
unfolding average_loop values_of
average_loop-values fp [] metric sum count = let stay : count + 0 ≡ count = omega arith in rw stay
average_loop-values fp (r ∷ rest) metric sum count = elim (Bool-cases (is_text r.metric metric)) [
  | inl e ↦
      let next : count + 1 + length (values_of metric rest)
          ≡ count + suc (length (values_of metric rest)) =
        omega arith in
      rw e (average_loop-values fp rest metric (fp.add sum r.value) (count + 1) ∙ rw next)
  | inr e ↦ rw e (average_loop-values fp rest metric sum count)
]

-- The average is the sum of the values of the metric, added up from 0 in the order in which they
-- came, divided by their number; there is none exactly where there are no values.
pub compute_average_locked-values :
    (fp : Arithmetic) (state : GatewayState) (metric : Bytes)
    → let values = values_of metric state.readings in
      compute_average_locked fp state metric ≡ (
        if ltb 0 (length values)
            then fp.div (foldl fp.add 0 values) (fp.of_count (length values))
            else 0,
        ltb 0 (length values),
      )
compute_average_locked-values fp state metric =
    let e = average_loop-values fp state.readings metric 0 0 in
    let plain : 0 + length (values_of metric state.readings)
        ≡ length (values_of metric state.readings) =
      omega arith in
    unfold compute_average_locked in rw (e, plain)
