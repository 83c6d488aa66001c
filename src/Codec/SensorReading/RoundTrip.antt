-- ===== src/Codec/SensorReading/RoundTrip.antt =====
-- What was written of a SensorReading is read back, whatever follows it in memory.
use smartcity.Prelude.{
  ℕ, ◌^◌, ◌≤◌, ◌<◌, ◌≡◌, refl, ◌∙◌, Bool, not, ◌++◌, Bytes, length, ◌==◌, arith,
}
use smartcity.Outcome.{ok}
use smartcity.Buffer.{Buffer, smart_buffer_init}
use smartcity.Buffer.Append.{Grants, Writes, Writes-then, Appended-total}
use smartcity.Double.{IsDouble}
use smartcity.Encode.Shape.{
  string_bytes, varint_field_bytes, double_field_bytes, only, string-Writes, varint_field-Writes,
  double-Writes, when-Writes,
}
use smartcity.Decode.{Switch, to_u32}
use smartcity.Decode.Fields.{IsText, Consumes-then, field_loop-Consumes, double_field-Consumes}
use smartcity.Decode.Stores.{
  sent, kept_word-zero, or-false, text-Consumes, word-Consumes, flag-Consumes,
}
use smartcity.Message.{SensorReading, zero_sensor_reading}
use smartcity.Codec.SensorReading.{
  encode_sensor_reading_internal, smart_encode_sensor_reading, smart_parse_sensor_reading,
  sensor_reading_switch,
}

-- Texts without NUL, and numbers within their C types.
pub record IsSensorReading (m : SensorReading) : Type 0 where
  pub sensor_id : IsText m.sensor_id
  pub sensor_type : m.sensor_type < 2 ^ 32
  pub value : IsDouble m.value
  pub unit : IsText m.unit
  pub timestamp_unix_ms : m.timestamp_unix_ms < 2 ^ 64
  pub alert_message : IsText m.alert_message
  pub metric : IsText m.metric

-- The bytes of the message.
unfoldable pub sensor_reading_bytes : SensorReading → Bytes
sensor_reading_bytes m =
    string_bytes 1 m.sensor_id
    ++ (only (not (m.sensor_type == 0)) (varint_field_bytes 2 m.sensor_type)
        ++ (double_field_bytes 3 m.value
            ++ (string_bytes 4 m.unit
                ++ (only (not (m.timestamp_unix_ms == 0)) (varint_field_bytes 5 m.timestamp_unix_ms)
                    ++ (only m.alert (varint_field_bytes 6 1)
                        ++ (string_bytes 7 m.alert_message ++ (string_bytes 8 m.metric)))))))

-- The message as it arrives.
unfoldable pub received_sensor_reading : SensorReading → SensorReading
received_sensor_reading m = record {
  sensor_id = sent m.sensor_id;
  sensor_type = m.sensor_type;
  value = m.value;
  unit = sent m.unit;
  timestamp_unix_ms = m.timestamp_unix_ms;
  alert = m.alert;
  alert_message = sent m.alert_message;
  metric = sent m.metric;
}

module _ (alloc : ℕ → Bool) where
  pub sensor_reading-Writes :
      (m : SensorReading)
      → IsSensorReading m
      → Writes alloc (encode_sensor_reading_internal alloc m) (sensor_reading_bytes m)
  unfolding sensor_reading_bytes encode_sensor_reading_internal
  sensor_reading-Writes m h = Writes-then alloc (string-Writes alloc 1 m.sensor_id (omega arith)) (
      Writes-then alloc
        (when-Writes alloc (not (m.sensor_type == 0))
          (varint_field-Writes alloc 2 m.sensor_type (omega arith) (omega (arith, h.sensor_type))))
        (Writes-then alloc (double-Writes alloc 3 m.value (omega arith)) (
          Writes-then alloc (string-Writes alloc 4 m.unit (omega arith)) (
            Writes-then alloc
              (when-Writes alloc (not (m.timestamp_unix_ms == 0))
                (varint_field-Writes alloc 5 m.timestamp_unix_ms (omega arith) h.timestamp_unix_ms))
              (Writes-then alloc
                (when-Writes alloc m.alert
                  (varint_field-Writes alloc 6 1 (omega arith) (omega arith)))
                (Writes-then alloc (string-Writes alloc 7 m.alert_message (omega arith))
                  (string-Writes alloc 8 m.metric (omega arith))))))))

  -- The reader, run on these bytes with a round for each byte, returns the message as it arrives.
  pub smart_parse_sensor_reading-bytes :
      (m : SensorReading) (rounds : ℕ) (tail : Bytes)
      → Grants alloc
      → IsSensorReading m
      → length (sensor_reading_bytes m) < 2 ^ 62
      → length (sensor_reading_bytes m) ≤ rounds
      → smart_parse_sensor_reading alloc rounds
          (sensor_reading_bytes m ++ tail)
          (length (sensor_reading_bytes m))
        ≡ ok (received_sensor_reading m)
  unfolding smart_parse_sensor_reading sensor_reading_bytes received_sensor_reading
  smart_parse_sensor_reading-bytes m rounds tail grants h small enough =
      field_loop-Consumes switch tail zero_sensor_reading rounds
        (Consumes-then switch
          (text-Consumes switch alloc 1 (λ s. s.sensor_id) (λ v s. record s { sensor_id = v })
            m.sensor_id grants (omega arith, refl, refl) h.sensor_id (λ s. refl)
            (λ mem len pos s. refl))
          (Consumes-then switch
            (word-Consumes switch 2 to_u32 (λ s. s.sensor_type)
              (λ v s. record s { sensor_type = v }) m.sensor_type (omega arith, refl, refl)
              (omega (arith, h.sensor_type)) (omega (arith, h.sensor_type)) (λ s. refl)
              (λ mem len pos s. refl))
            (Consumes-then switch
              (double_field-Consumes switch 3 (λ v s. record s { value = v }) m.value
                (omega arith, refl, refl) h.value (λ mem len pos s. refl))
              (Consumes-then switch
                (text-Consumes switch alloc 4 (λ s. s.unit) (λ v s. record s { unit = v }) m.unit
                  grants (omega arith, refl, refl) h.unit (λ s. refl) (λ mem len pos s. refl))
                (Consumes-then switch
                  (word-Consumes switch 5 (λ v. v) (λ s. s.timestamp_unix_ms)
                    (λ v s. record s { timestamp_unix_ms = v }) m.timestamp_unix_ms
                    (omega arith, refl, refl) h.timestamp_unix_ms refl (λ s. refl)
                    (λ mem len pos s. refl))
                  (Consumes-then switch
                    (flag-Consumes switch 6 (λ s. s.alert) (λ v s. record s { alert = v }) m.alert
                      (omega arith, refl, refl) (λ s. refl) (λ mem len pos s. refl))
                    (Consumes-then switch
                      (text-Consumes switch alloc 7 (λ s. s.alert_message)
                        (λ v s. record s { alert_message = v }) m.alert_message grants
                        (omega arith, refl, refl) h.alert_message (λ s. refl)
                        (λ mem len pos s. refl))
                      (text-Consumes switch alloc 8 (λ s. s.metric) (λ v s. record s { metric = v })
                        m.metric grants (omega arith, refl, refl) h.metric (λ s. refl)
                        (λ mem len pos s. refl)))))))))
        small enough
      ∙ rw (kept_word-zero m.sensor_type, kept_word-zero m.timestamp_unix_ms, or-false m.alert)
    where
      switch : Switch SensorReading
      switch = sensor_reading_switch alloc

  -- Where the allocator refuses no request below 2 ^ 63, a message of texts without NUL, of numbers
  -- within their types and of less than 2 ^ 62 bytes is encoded, and its bytes, whatever follows
  -- them, are read back in as many rounds as bytes or more, as `received_sensor_reading`
  -- says: "" as NULL, and all else as it was, the value
  -- bit by bit.
  pub smart_parse-smart_encode_sensor_reading :
      (m : SensorReading) (rounds : ℕ) (tail : Bytes)
      → Grants alloc
      → IsSensorReading m
      → length (sensor_reading_bytes m) < 2 ^ 62
      → length (sensor_reading_bytes m) ≤ rounds
      → (b : Buffer) × (smart_encode_sensor_reading alloc m ≡ ok b)
        × (smart_parse_sensor_reading alloc rounds (b.contents ++ tail) (length b.contents)
            ≡ ok (received_sensor_reading m))
  unfolding smart_encode_sensor_reading smart_buffer_init
  smart_parse-smart_encode_sensor_reading m rounds tail grants h small enough =
      let (b, encoded, e) =
        Appended-total alloc grants
          (sensor_reading-Writes m h smart_buffer_init (omega arith) (omega arith)) in
      (b, encoded, rw e (smart_parse_sensor_reading-bytes m rounds tail grants h small enough))
