-- ===== src/Codec/ControlResponse/RoundTrip.antt =====
-- What was written of a ControlResponse is read back, whatever follows it in memory.
use smartcity.Prelude.{
  ℕ, ◌^◌, ◌≤◌, ◌<◌, ◌≡◌, refl, ◌∙◌, Bool, not, ◌++◌, Bytes, length, ◌==◌, arith,
}
use smartcity.Outcome.{ok}
use smartcity.Buffer.{Buffer, smart_buffer_init}
use smartcity.Buffer.Append.{Grants, Writes, Writes-then, Appended-total}
use smartcity.Double.{IsDouble, is_zero}
use smartcity.Encode.Shape.{
  string_bytes, varint_field_bytes, double_field_bytes, only, string-Writes, varint_field-Writes,
  double-Writes, when-Writes,
}
use smartcity.Decode.{Switch, to_u32}
use smartcity.Decode.Fields.{IsText, Consumes-then, field_loop-Consumes}
use smartcity.Decode.Stores.{
  sent, sent_double, kept_word-zero, or-false, text-Consumes, word-Consumes, flag-Consumes,
  number-Consumes,
}
use smartcity.Message.{ControlResponse, zero_control_response}
use smartcity.Codec.ControlResponse.{
  encode_control_response_internal, smart_encode_control_response, smart_parse_control_response,
  control_response_switch,
}

-- Texts without NUL, and numbers within their C types.
pub record IsControlResponse (m : ControlResponse) : Type 0 where
  pub status : m.status < 2 ^ 32
  pub message : IsText m.message
  pub sensor_id : IsText m.sensor_id
  pub frequency_seconds : IsDouble m.frequency_seconds
  pub threshold : IsDouble m.threshold
  pub state_text : IsText m.state_text

-- The bytes of the message.
unfoldable pub control_response_bytes : ControlResponse → Bytes
control_response_bytes m =
    only (not (m.status == 0)) (varint_field_bytes 1 m.status)
    ++ (string_bytes 2 m.message
        ++ (string_bytes 3 m.sensor_id
            ++ (only m.is_active (varint_field_bytes 4 1)
                ++ (only (not (is_zero m.frequency_seconds))
                      (double_field_bytes 5 m.frequency_seconds)
                    ++ (only (not (is_zero m.threshold)) (double_field_bytes 6 m.threshold)
                        ++ (string_bytes 7 m.state_text))))))

-- The message as it arrives.
unfoldable pub received_control_response : ControlResponse → ControlResponse
received_control_response m = record {
  status = m.status;
  message = sent m.message;
  sensor_id = sent m.sensor_id;
  is_active = m.is_active;
  frequency_seconds = sent_double m.frequency_seconds;
  threshold = sent_double m.threshold;
  state_text = sent m.state_text;
}

module _ (alloc : ℕ → Bool) where
  pub control_response-Writes :
      (m : ControlResponse)
      → IsControlResponse m
      → Writes alloc (encode_control_response_internal alloc m) (control_response_bytes m)
  unfolding control_response_bytes encode_control_response_internal
  control_response-Writes m h =
      Writes-then alloc
        (when-Writes alloc (not (m.status == 0))
          (varint_field-Writes alloc 1 m.status (omega arith) (omega (arith, h.status))))
        (Writes-then alloc (string-Writes alloc 2 m.message (omega arith)) (
          Writes-then alloc (string-Writes alloc 3 m.sensor_id (omega arith)) (
            Writes-then alloc
              (when-Writes alloc m.is_active
                (varint_field-Writes alloc 4 1 (omega arith) (omega arith)))
              (Writes-then alloc
                (when-Writes alloc (not (is_zero m.frequency_seconds))
                  (double-Writes alloc 5 m.frequency_seconds (omega arith)))
                (Writes-then alloc
                  (when-Writes alloc (not (is_zero m.threshold))
                    (double-Writes alloc 6 m.threshold (omega arith)))
                  (string-Writes alloc 7 m.state_text (omega arith)))))))

  -- The reader, run on these bytes with a round for each byte, returns the message as it arrives.
  pub smart_parse_control_response-bytes :
      (m : ControlResponse) (rounds : ℕ) (tail : Bytes)
      → Grants alloc
      → IsControlResponse m
      → length (control_response_bytes m) < 2 ^ 62
      → length (control_response_bytes m) ≤ rounds
      → smart_parse_control_response alloc rounds
          (control_response_bytes m ++ tail)
          (length (control_response_bytes m))
        ≡ ok (received_control_response m)
  unfolding smart_parse_control_response control_response_bytes received_control_response
  smart_parse_control_response-bytes m rounds tail grants h small enough =
      field_loop-Consumes switch tail zero_control_response rounds
        (Consumes-then switch
          (word-Consumes switch 1 to_u32 (λ s. s.status) (λ v s. record s { status = v }) m.status
            (omega arith, refl, refl) (omega (arith, h.status)) (omega (arith, h.status))
            (λ s. refl) (λ mem len pos s. refl))
          (Consumes-then switch
            (text-Consumes switch alloc 2 (λ s. s.message) (λ v s. record s { message = v })
              m.message grants (omega arith, refl, refl) h.message (λ s. refl)
              (λ mem len pos s. refl))
            (Consumes-then switch
              (text-Consumes switch alloc 3 (λ s. s.sensor_id) (λ v s. record s { sensor_id = v })
                m.sensor_id grants (omega arith, refl, refl) h.sensor_id (λ s. refl)
                (λ mem len pos s. refl))
              (Consumes-then switch
                (flag-Consumes switch 4 (λ s. s.is_active) (λ v s. record s { is_active = v })
                  m.is_active (omega arith, refl, refl) (λ s. refl) (λ mem len pos s. refl))
                (Consumes-then switch
                  (number-Consumes switch 5 (λ s. s.frequency_seconds)
                    (λ v s. record s { frequency_seconds = v }) m.frequency_seconds
                    (omega arith, refl, refl) h.frequency_seconds (λ s. refl)
                    (λ mem len pos s. refl))
                  (Consumes-then switch
                    (number-Consumes switch 6 (λ s. s.threshold) (λ v s. record s { threshold = v })
                      m.threshold (omega arith, refl, refl) h.threshold (λ s. refl)
                      (λ mem len pos s. refl))
                    (text-Consumes switch alloc 7 (λ s. s.state_text)
                      (λ v s. record s { state_text = v }) m.state_text grants
                      (omega arith, refl, refl) h.state_text (λ s. refl)
                      (λ mem len pos s. refl))))))))
        small enough
      ∙ rw (kept_word-zero m.status, or-false m.is_active)
    where
      switch : Switch ControlResponse
      switch = control_response_switch alloc

  -- Where the allocator refuses no request below 2 ^ 63, a message of texts without NUL, of numbers
  -- within their types and of less than 2 ^ 62 bytes is encoded, and its bytes, whatever follows
  -- them, are read back in as many rounds as bytes or more, as `received_control_response`
  -- says: "" as NULL, -0.0 as 0.0, and all else as it was.
  pub smart_parse-smart_encode_control_response :
      (m : ControlResponse) (rounds : ℕ) (tail : Bytes)
      → Grants alloc
      → IsControlResponse m
      → length (control_response_bytes m) < 2 ^ 62
      → length (control_response_bytes m) ≤ rounds
      → (b : Buffer) × (smart_encode_control_response alloc m ≡ ok b)
        × (smart_parse_control_response alloc rounds (b.contents ++ tail) (length b.contents)
            ≡ ok (received_control_response m))
  unfolding smart_encode_control_response smart_buffer_init
  smart_parse-smart_encode_control_response m rounds tail grants h small enough =
      let (b, encoded, e) =
        Appended-total alloc grants
          (control_response-Writes m h smart_buffer_init (omega arith) (omega arith)) in
      (b, encoded, rw e (smart_parse_control_response-bytes m rounds tail grants h small enough))
