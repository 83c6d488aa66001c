-- ===== src/Codec/ClientResponse/RoundTrip.antt =====
-- What was written of a ClientResponse is read back, its sensors and readings in their order.
use smartcity.Prelude.{
  ℕ, ◌^◌, ◌≤◌, ◌<◌, ◌≡◌, refl, ◌∙◌, Bool, true, not, List, [], ◌∷◌, ◌++◌, append_assoc, append-nil,
  map, Bytes, All, length, ◌==◌, arith,
}
use smartcity.Outcome.{ok, ◌>>=◌}
use smartcity.Buffer.{Buffer, smart_buffer_init}
use smartcity.Buffer.Append.{Writes, Writes-then, Writes-nil, Appended-total}
use smartcity.Double.{IsDouble, is_zero}
use smartcity.Encode.Shape.{
  string_bytes, varint_field_bytes, double_field_bytes, only, string-Writes, varint_field-Writes,
  double-Writes, when-Writes,
}
use smartcity.Decode.{Switch, to_u32}
use smartcity.Decode.Fields.{IsText, Consumes, Consumes-then, Consumes-nil, field_loop-Consumes}
use smartcity.Decode.Stores.{
  sent, sent_double, kept_word-zero, text-Consumes, word-Consumes, number-Consumes, Consumes-eq,
}
use smartcity.Message.{SensorInfo, SensorReading, ClientResponse, zero_client_response}
use smartcity.Codec.SensorInfo.{parse_sensor_info, smart_parse_discovery_response}
use smartcity.Codec.SensorInfo.RoundTrip.{
  IsSensorInfo, sensor_info_bytes, received_sensor_info, sensor_info-Writes,
  smart_parse_discovery_response-bytes,
}
use smartcity.Codec.SensorReading.{parse_sensor_reading_internal, smart_parse_sensor_reading}
use smartcity.Codec.SensorReading.RoundTrip.{
  IsSensorReading, sensor_reading_bytes, received_sensor_reading, sensor_reading-Writes,
  smart_parse_sensor_reading-bytes,
}
use smartcity.Codec.ClientResponse.{
  encode_sensors, encode_readings, client_response_fields, smart_encode_client_response,
  client_response_switch, smart_parse_client_response, append_item,
}
use smartcity.Codec.ClientResponse.Nested.{all_nested, nested-Writes, nested-Consumes}

-- Texts without NUL, and numbers within their C types, in the nested messages too.
pub record IsClientResponse (m : ClientResponse) : Type 0 where
  pub status : m.status < 2 ^ 32
  pub message : IsText m.message
  pub sensors : All IsSensorInfo m.sensors
  pub metric_value : IsDouble m.metric_value
  pub readings : All IsSensorReading m.readings

-- The bytes of the message.
unfoldable pub client_response_bytes : ClientResponse → Bytes
client_response_bytes m =
    only (not (m.status == 0)) (varint_field_bytes 1 m.status)
    ++ (string_bytes 2 m.message
        ++ (all_nested 3 sensor_info_bytes m.sensors
            ++ (only (not (is_zero m.metric_value)) (double_field_bytes 4 m.metric_value)
                ++ all_nested 5 sensor_reading_bytes m.readings)))

-- The message as it arrives.
unfoldable pub received_client_response : ClientResponse → ClientResponse
received_client_response m = record {
  status = m.status;
  message = sent m.message;
  sensors = map received_sensor_info m.sensors;
  metric_value = sent_double m.metric_value;
  readings = map received_sensor_reading m.readings;
}

module _ (alloc : ℕ → Bool) where
  sensors-Writes :
      (xs : List SensorInfo)
      → All IsSensorInfo xs
      → Writes alloc (encode_sensors alloc xs) (all_nested 3 sensor_info_bytes xs)
  unfolding encode_sensors all_nested
  sensors-Writes [] h = Writes-nil alloc
  sensors-Writes (x ∷ xs) h =
      Writes-then alloc (nested-Writes alloc 3 (omega arith) (sensor_info-Writes alloc x h.0))
        (sensors-Writes xs h.1)

  readings-Writes :
      (xs : List SensorReading)
      → All IsSensorReading xs
      → Writes alloc (encode_readings alloc xs) (all_nested 5 sensor_reading_bytes xs)
  unfolding encode_readings all_nested
  readings-Writes [] h = Writes-nil alloc
  readings-Writes (x ∷ xs) h =
      Writes-then alloc (nested-Writes alloc 5 (omega arith) (sensor_reading-Writes alloc x h.0))
        (readings-Writes xs h.1)

  pub client_response-Writes :
      (m : ClientResponse)
      → IsClientResponse m
      → Writes alloc (client_response_fields alloc m) (client_response_bytes m)
  unfolding client_response_fields client_response_bytes
  client_response-Writes m h =
      Writes-then alloc
        (when-Writes alloc (not (m.status == 0))
          (varint_field-Writes alloc 1 m.status (omega arith) (omega (arith, h.status))))
        (Writes-then alloc (string-Writes alloc 2 m.message (omega arith)) (
          Writes-then alloc (sensors-Writes m.sensors h.sensors) (
            Writes-then alloc
              (when-Writes alloc (not (is_zero m.metric_value))
                (double-Writes alloc 4 m.metric_value (omega arith)))
              (readings-Writes m.readings h.readings))))

module _ (alloc : ℕ → Bool) (all_granted : (n : ℕ) → alloc n ≡ true) where
  abbrev switch : Switch ClientResponse
  switch = client_response_switch alloc

  append_item_lem {ℓ} :
      {A : Type ℓ} (xs : List A) (x : A) → append_item alloc xs x ≡ ok (xs ++ (x ∷ []))
  unfolding append_item
  append_item_lem xs x = rw all_granted

  sensors-Consumes :
      (xs : List SensorInfo)
      → All IsSensorInfo xs
      → Consumes switch
          (all_nested 3 sensor_info_bytes xs)
          (λ s. record s { sensors = s.sensors ++ map received_sensor_info xs })
  unfolding all_nested client_response_switch smart_parse_discovery_response
  sensors-Consumes [] h = Consumes-eq switch (λ s. rw append-nil) (Consumes-nil switch)
  sensors-Consumes (x ∷ xs) h =
      Consumes-eq switch (λ s. rw append_assoc)
        (Consumes-then switch
          (nested-Consumes alloc switch 3 (sensor_info_bytes x) (received_sensor_info x)
            (λ mem n. parse_sensor_info alloc n mem n)
            (λ y s. append_item alloc s.sensors y >>= λ ys. ok (record s { sensors = ys }))
            (λ y s. record s { sensors = s.sensors ++ (y ∷ []) }) (omega arith, refl, refl)
            (λ tail small.
              smart_parse_discovery_response-bytes alloc x _ tail (λ n _. all_granted n) h.0 small
                (omega arith))
            (λ mem len pos s. refl) (λ s. rw (append_item_lem s.sensors (received_sensor_info x))))
          (sensors-Consumes xs h.1))

  readings-Consumes :
      (xs : List SensorReading)
      → All IsSensorReading xs
      → Consumes switch
          (all_nested 5 sensor_reading_bytes xs)
          (λ s. record s { readings = s.readings ++ map received_sensor_reading xs })
  unfolding all_nested client_response_switch smart_parse_sensor_reading
  readings-Consumes [] h = Consumes-eq switch (λ s. rw append-nil) (Consumes-nil switch)
  readings-Consumes (x ∷ xs) h =
      Consumes-eq switch (λ s. rw append_assoc)
        (Consumes-then switch
          (nested-Consumes alloc switch 5 (sensor_reading_bytes x) (received_sensor_reading x)
            (λ mem n. parse_sensor_reading_internal alloc n mem n)
            (λ y s. append_item alloc s.readings y >>= λ ys. ok (record s { readings = ys }))
            (λ y s. record s { readings = s.readings ++ (y ∷ []) }) (omega arith, refl, refl)
            (λ tail small.
              smart_parse_sensor_reading-bytes alloc x _ tail (λ n _. all_granted n) h.0 small
                (omega arith))
            (λ mem len pos s. refl)
            (λ s. rw (append_item_lem s.readings (received_sensor_reading x))))
          (readings-Consumes xs h.1))

  -- The reader, run on these bytes with a round for each byte, returns the message as it arrives.
  pub smart_parse_client_response-bytes :
      (m : ClientResponse) (rounds : ℕ) (tail : Bytes)
      → IsClientResponse m
      → length (client_response_bytes m) < 2 ^ 62
      → length (client_response_bytes m) ≤ rounds
      → smart_parse_client_response alloc rounds
          (client_response_bytes m ++ tail)
          (length (client_response_bytes m))
        ≡ ok (received_client_response m)
  unfolding smart_parse_client_response client_response_bytes received_client_response
      client_response_switch
  smart_parse_client_response-bytes m rounds tail h small enough =
      field_loop-Consumes switch tail zero_client_response rounds
        (Consumes-then switch
          (word-Consumes switch 1 to_u32 (λ s. s.status) (λ v s. record s { status = v }) m.status
            (omega arith, refl, refl) (omega (arith, h.status)) (omega (arith, h.status))
            (λ s. refl) (λ mem len pos s. refl))
          (Consumes-then switch
            (text-Consumes switch alloc 2 (λ s. s.message) (λ v s. record s { message = v })
              m.message (λ n _. all_granted n) (omega arith, refl, refl) h.message (λ s. refl)
              (λ mem len pos s. refl))
            (Consumes-then switch (sensors-Consumes m.sensors h.sensors) (
              Consumes-then switch
                (number-Consumes switch 4 (λ s. s.metric_value)
                  (λ v s. record s { metric_value = v }) m.metric_value (omega arith, refl, refl)
                  h.metric_value (λ s. refl) (λ mem len pos s. refl))
                (readings-Consumes m.readings h.readings)))))
        small enough
      ∙ rw (kept_word-zero m.status)

  -- With an allocator that refuses nothing, a response of texts without NUL, of numbers within their
  -- types and of less than 2 ^ 62 bytes is encoded, and its bytes, whatever follows them, are read
  -- back in as many rounds as bytes or more: devices and readings in their order and "" as
  -- NULL; a frequency or a threshold of a device, or the metric value, as 0.0 where it was -0.0; and
  -- all else as it was, the value of a reading bit by bit.
  pub smart_parse-smart_encode_client_response :
      (m : ClientResponse) (rounds : ℕ) (tail : Bytes)
      → IsClientResponse m
      → length (client_response_bytes m) < 2 ^ 62
      → length (client_response_bytes m) ≤ rounds
      → (b : Buffer) × (smart_encode_client_response alloc m ≡ ok b)
        × (smart_parse_client_response alloc rounds (b.contents ++ tail) (length b.contents)
            ≡ ok (received_client_response m))
  unfolding smart_encode_client_response smart_buffer_init
  smart_parse-smart_encode_client_response m rounds tail h small enough =
      let (b, encoded, e) =
        Appended-total alloc (λ n _. all_granted n)
          (client_response-Writes alloc m h smart_buffer_init (omega arith) (omega arith)) in
      (b, encoded, rw e (smart_parse_client_response-bytes m rounds tail h small enough))
