-- ===== src/Codec/SensorInfo/RoundTrip.antt =====
-- What was written of a SensorInfo is read back, whatever follows it in memory.
use smartcity.Prelude.{
  ℕ, ◌^◌, ◌≤◌, ◌<◌, ◌≡◌, refl, ◌∙◌, Bool, not, ◌++◌, Bytes, length, ◌==◌, arith,
}
use smartcity.Outcome.{ok}
use smartcity.Buffer.{Buffer, smart_buffer_init}
use smartcity.Buffer.Append.{Grants, Writes, Writes-then, Appended-total}
use smartcity.Double.{IsDouble, is_zero}
use smartcity.Encode.Shape.{
  string_bytes, varint_field_bytes, double_field_bytes, only, string-Writes, varint_field-Writes,
  double-Writes, when-Writes,
}
use smartcity.Decode.{Switch, to_u32}
use smartcity.Decode.Fields.{IsText, Consumes-then, field_loop-Consumes}
use smartcity.Decode.Stores.{
  sent, sent_double, kept_word-zero, or-false, text-Consumes, word-Consumes, flag-Consumes,
  number-Consumes,
}
use smartcity.Message.{SensorInfo, zero_sensor_info}
use smartcity.Codec.SensorInfo.{
  encode_sensor_info, smart_encode_discovery_response, smart_parse_discovery_response,
  sensor_info_switch,
}

-- Texts without NUL, and numbers within their C types.
pub record IsSensorInfo (m : SensorInfo) : Type 0 where
  pub sensor_id : IsText m.sensor_id
  pub sensor_type : m.sensor_type < 2 ^ 32
  pub sensor_ip : IsText m.sensor_ip
  pub control_tcp_port : m.control_tcp_port < 2 ^ 32
  pub frequency_seconds : IsDouble m.frequency_seconds
  pub threshold : IsDouble m.threshold
  pub device_kind : m.device_kind < 2 ^ 32
  pub state_text : IsText m.state_text

-- The bytes of the message.
unfoldable pub sensor_info_bytes : SensorInfo → Bytes
sensor_info_bytes m =
    string_bytes 1 m.sensor_id
    ++ (only (not (m.sensor_type == 0)) (varint_field_bytes 2 m.sensor_type)
        ++ (string_bytes 3 m.sensor_ip
            ++ (only (not (m.control_tcp_port == 0)) (varint_field_bytes 4 m.control_tcp_port)
                ++ (only m.is_active (varint_field_bytes 5 1)
                    ++ (only (not (is_zero m.frequency_seconds))
                          (double_field_bytes 6 m.frequency_seconds)
                        ++ (only (not (is_zero m.threshold)) (double_field_bytes 7 m.threshold)
                            ++ (only (not (m.device_kind == 0)) (varint_field_bytes 8 m.device_kind)
                                ++ (string_bytes 9 m.state_text))))))))

-- The message as it arrives.
unfoldable pub received_sensor_info : SensorInfo → SensorInfo
received_sensor_info m = record {
  sensor_id = sent m.sensor_id;
  sensor_type = m.sensor_type;
  sensor_ip = sent m.sensor_ip;
  control_tcp_port = m.control_tcp_port;
  is_active = m.is_active;
  frequency_seconds = sent_double m.frequency_seconds;
  threshold = sent_double m.threshold;
  device_kind = m.device_kind;
  state_text = sent m.state_text;
}

module _ (alloc : ℕ → Bool) where
  pub sensor_info-Writes :
      (m : SensorInfo)
      → IsSensorInfo m
      → Writes alloc (encode_sensor_info alloc m) (sensor_info_bytes m)
  unfolding sensor_info_bytes encode_sensor_info
  sensor_info-Writes m h = Writes-then alloc (string-Writes alloc 1 m.sensor_id (omega arith)) (
      Writes-then alloc
        (when-Writes alloc (not (m.sensor_type == 0))
          (varint_field-Writes alloc 2 m.sensor_type (omega arith) (omega (arith, h.sensor_type))))
        (Writes-then alloc (string-Writes alloc 3 m.sensor_ip (omega arith)) (
          Writes-then alloc
            (when-Writes alloc (not (m.control_tcp_port == 0)) (
              varint_field-Writes alloc 4 m.control_tcp_port (omega arith)
                (omega (arith, h.control_tcp_port))))
            (Writes-then alloc
              (when-Writes alloc m.is_active
                (varint_field-Writes alloc 5 1 (omega arith) (omega arith)))
              (Writes-then alloc
                (when-Writes alloc (not (is_zero m.frequency_seconds))
                  (double-Writes alloc 6 m.frequency_seconds (omega arith)))
                (Writes-then alloc
                  (when-Writes alloc (not (is_zero m.threshold))
                    (double-Writes alloc 7 m.threshold (omega arith)))
                  (Writes-then alloc
                    (when-Writes alloc (not (m.device_kind == 0)) (
                      varint_field-Writes alloc 8 m.device_kind (omega arith)
                        (omega (arith, h.device_kind))))
                    (string-Writes alloc 9 m.state_text (omega arith)))))))))

  -- The reader, run on these bytes with a round for each byte, returns the message as it arrives.
  pub smart_parse_discovery_response-bytes :
      (m : SensorInfo) (rounds : ℕ) (tail : Bytes)
      → Grants alloc
      → IsSensorInfo m
      → length (sensor_info_bytes m) < 2 ^ 62
      → length (sensor_info_bytes m) ≤ rounds
      → smart_parse_discovery_response alloc rounds
          (sensor_info_bytes m ++ tail)
          (length (sensor_info_bytes m))
        ≡ ok (received_sensor_info m)
  unfolding smart_parse_discovery_response sensor_info_bytes received_sensor_info
  smart_parse_discovery_response-bytes m rounds tail grants h small enough =
      field_loop-Consumes switch tail zero_sensor_info rounds
        (Consumes-then switch
          (text-Consumes switch alloc 1 (λ s. s.sensor_id) (λ v s. record s { sensor_id = v })
            m.sensor_id grants (omega arith, refl, refl) h.sensor_id (λ s. refl)
            (λ mem len pos s. refl))
          (Consumes-then switch
            (word-Consumes switch 2 to_u32 (λ s. s.sensor_type)
              (λ v s. record s { sensor_type = v }) m.sensor_type (omega arith, refl, refl)
              (omega (arith, h.sensor_type)) (omega (arith, h.sensor_type)) (λ s. refl)
              (λ mem len pos s. refl))
            (Consumes-then switch
              (text-Consumes switch alloc 3 (λ s. s.sensor_ip) (λ v s. record s { sensor_ip = v })
                m.sensor_ip grants (omega arith, refl, refl) h.sensor_ip (λ s. refl)
                (λ mem len pos s. refl))
              (Consumes-then switch
                (word-Consumes switch 4 to_u32 (λ s. s.control_tcp_port)
                  (λ v s. record s { control_tcp_port = v }) m.control_tcp_port
                  (omega arith, refl, refl) (omega (arith, h.control_tcp_port))
                  (omega (arith, h.control_tcp_port)) (λ s. refl) (λ mem len pos s. refl))
                (Consumes-then switch
                  (flag-Consumes switch 5 (λ s. s.is_active) (λ v s. record s { is_active = v })
                    m.is_active (omega arith, refl, refl) (λ s. refl) (λ mem len pos s. refl))
                  (Consumes-then switch
                    (number-Consumes switch 6 (λ s. s.frequency_seconds)
                      (λ v s. record s { frequency_seconds = v }) m.frequency_seconds
                      (omega arith, refl, refl) h.frequency_seconds (λ s. refl)
                      (λ mem len pos s. refl))
                    (Consumes-then switch
                      (number-Consumes switch 7 (λ s. s.threshold)
                        (λ v s. record s { threshold = v }) m.threshold (omega arith, refl, refl)
                        h.threshold (λ s. refl) (λ mem len pos s. refl))
                      (Consumes-then switch
                        (word-Consumes switch 8 to_u32 (λ s. s.device_kind)
                          (λ v s. record s { device_kind = v }) m.device_kind
                          (omega arith, refl, refl) (omega (arith, h.device_kind))
                          (omega (arith, h.device_kind)) (λ s. refl) (λ mem len pos s. refl))
                        (text-Consumes switch alloc 9 (λ s. s.state_text)
                          (λ v s. record s { state_text = v }) m.state_text grants
                          (omega arith, refl, refl) h.state_text (λ s. refl)
                          (λ mem len pos s. refl))))))))))
        small enough
      ∙ rw (
        kept_word-zero m.sensor_type,
        kept_word-zero m.control_tcp_port,
        or-false m.is_active,
        kept_word-zero m.device_kind,
      )
    where
      switch : Switch SensorInfo
      switch = sensor_info_switch alloc

  -- Where the allocator refuses no request below 2 ^ 63, a message of texts without NUL, of numbers
  -- within their types and of less than 2 ^ 62 bytes is encoded, and its bytes, whatever follows
  -- them, are read back in as many rounds as bytes or more, as `received_sensor_info`
  -- says: "" as NULL, -0.0 as 0.0, and all else as it was.
  pub smart_parse-smart_encode_discovery_response :
      (m : SensorInfo) (rounds : ℕ) (tail : Bytes)
      → Grants alloc
      → IsSensorInfo m
      → length (sensor_info_bytes m) < 2 ^ 62
      → length (sensor_info_bytes m) ≤ rounds
      → (b : Buffer) × (smart_encode_discovery_response alloc m ≡ ok b)
        × (smart_parse_discovery_response alloc rounds (b.contents ++ tail) (length b.contents)
            ≡ ok (received_sensor_info m))
  unfolding smart_encode_discovery_response smart_buffer_init
  smart_parse-smart_encode_discovery_response m rounds tail grants h small enough =
      let (b, encoded, e) =
        Appended-total alloc grants
          (sensor_info-Writes m h smart_buffer_init (omega arith) (omega arith)) in
      (b, encoded, rw e (smart_parse_discovery_response-bytes m rounds tail grants h small enough))
