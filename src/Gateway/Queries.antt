-- ===== src/Gateway/Queries.antt =====
-- The questions that the gateway answers from its tables: averages, the highest reading, the list of
-- devices and the history, from 2_c/gateway.c.
use smartcity.Prelude.{
  ℕ, ◌+◌, ◌-◌, ◌*◌, ◌%◌, Bool, not, ◌&&◌, some, none, Option, List, [], ◌∷◌, ◌++◌, Bytes, length,
  take, drop, codes, ltb, if◌then◌else◌,
}
use smartcity.Buffer.{size_mod}
use smartcity.Double.{Double, Arithmetic, lt_double, le_double, double_3, double_10}
use smartcity.CString.{smart_dup_cstring, or_empty, is_text}
use smartcity.Message.{
  SensorInfo, SensorReading, ClientResponse, zero_client_response, ok_status, error_status,
}
use smartcity.Codec.ClientResponse.{item_size}
use smartcity.Gateway.{SensorRecord, GatewayState, copy_info, copy_failed, append_copy}

-- SMARTCITY_STALE_GRACE_SECONDS
abbrev pub stale_grace_seconds : Double
stale_grace_seconds = double_10

module _ (fp : Arithmetic) where
  -- The loop of `compute_average_locked`, over the sum and the count.
  unfoldable pub average_loop : List SensorReading → Bytes → Double → ℕ → Double × ℕ
  unfolding is_text
  average_loop [] metric sum count = (sum, count)
  average_loop (r ∷ rest) metric sum count =
      let hit = is_text r.metric metric in
      average_loop rest metric (if hit then fp.add sum r.value else sum)
        (if hit then count + 1 else count)

  -- The average, and `has_values`.
  unfoldable pub compute_average_locked : GatewayState → Bytes → Double × Bool
  unfolding average_loop
  compute_average_locked state metric =
      let (sum, count) = average_loop state.readings metric 0 0 in
      (if ltb 0 count then fp.div sum (fp.of_count count) else 0, ltb 0 count)

  unfoldable pub recently_seen : Double → SensorRecord → Bool
  recently_seen now r =
      let timeout = fp.mul r.info.frequency_seconds double_3 in
      le_double (fp.sub now r.last_seen)
        (if lt_double stale_grace_seconds timeout then timeout else stale_grace_seconds)

-- The loop of `compute_max_locked`, over `best`.
unfoldable pub max_loop : List SensorReading → Option SensorReading → Option SensorReading
max_loop [] best = best
max_loop (r ∷ rest) none = max_loop rest (some r)
max_loop (r ∷ rest) (some b) = max_loop rest (some (if lt_double b.value r.value then r else b))

unfoldable pub compute_max_locked : GatewayState → Option SensorReading
unfolding max_loop
compute_max_locked state = max_loop state.readings none

module _ (alloc : ℕ → Bool) where
  -- `memset(&resp, 0)`, the status and a copy of the message.
  unfoldable pub plain_response : ℕ → Bytes → ClientResponse
  plain_response status message = record zero_client_response {
    status = status;
    message = smart_dup_cstring alloc (some message);
  }

  -- The loop of `build_history_response`; `none` where a copy fails.
  unfoldable pub history_loop :
      List SensorReading → List SensorReading → Option (List SensorReading)
  unfolding append_copy
  history_loop [] items = some items
  history_loop (r ∷ rest) items = elim (append_copy alloc items r) [
    | none ↦ none
    | some items' ↦ history_loop rest items'
  ]

  abbrev pub history_limit : ℕ
  history_limit = 200

  unfoldable pub build_history_response : GatewayState → ClientResponse
  unfolding history_loop plain_response
  build_history_response state =
      let count = length state.readings in
      let start = if ltb history_limit count then count - history_limit else 0 in
      elim (history_loop (drop start state.readings) []) [
        | none ↦ zero_client_response
        | some items ↦ record (plain_response ok_status (codes "Historico de leituras")) {
          readings = items;
        }
      ]

  module _ (fp : Arithmetic) where
    -- The loop of `build_sensor_list_response`; `none` where a copy or the array fails.
    unfoldable pub sensor_list_loop :
        Double → List SensorRecord → List SensorInfo → Option (List SensorInfo)
    unfolding copy_info copy_failed recently_seen
    sensor_list_loop now [] items = some items
    sensor_list_loop now (r ∷ rest) items =
        let copy = copy_info alloc r.info in
        let shown : SensorInfo = record copy {
          is_active = r.info.is_active && recently_seen fp now r;
        } in
        let more = sensor_list_loop now rest (items ++ (shown ∷ [])) in
        if copy_failed alloc r.info copy
        then none
        else if not (alloc ((length items + 1) * item_size % size_mod))
        then none
        else more

    unfoldable pub build_sensor_list_response : Double → GatewayState → ClientResponse
    unfolding sensor_list_loop plain_response
    build_sensor_list_response now state = elim (sensor_list_loop now state.sensors []) [
      | none ↦ zero_client_response
      | some items ↦ record (plain_response ok_status (codes "Sensores listados")) {
        sensors = items;
      }
    ]

    unfoldable pub build_metric_response : GatewayState → Bytes → Bytes → Bytes → ClientResponse
    unfolding compute_average_locked plain_response
    build_metric_response state metric ok_label empty_label =
        let (avg, has_values) = compute_average_locked fp state metric in
        if not has_values
        then plain_response error_status empty_label
        else record (plain_response ok_status ok_label) { metric_value = avg }

    -- `snprintf` into 256 bytes.
    unfoldable pub max_message : SensorReading → Bytes
    max_message mx = take 255 (
        codes "Maior leitura: "
        ++ (or_empty mx.sensor_id
            ++ (codes " " ++ (fp.format_g15 mx.value ++ (codes " " ++ or_empty mx.unit)))))

    unfoldable pub build_max_response : GatewayState → ClientResponse
    unfolding compute_max_locked plain_response max_message
    build_max_response state = elim (compute_max_locked state) [
      | none ↦ plain_response error_status (codes "Sem leituras")
      | some mx ↦ record (plain_response ok_status (max_message mx)) { metric_value = mx.value }
    ]
