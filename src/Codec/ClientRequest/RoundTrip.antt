-- ===== src/Codec/ClientRequest/RoundTrip.antt =====
-- What was written of a ClientRequest is read back, whatever follows it in memory.
use smartcity.Prelude.{
  ℕ, ◌^◌, ◌≤◌, ◌<◌, ◌≡◌, refl, ◌∙◌, Bool, not, ◌++◌, Bytes, length, ◌==◌, arith,
}
use smartcity.Outcome.{ok}
use smartcity.Buffer.{Buffer, smart_buffer_init}
use smartcity.Buffer.Append.{Grants, Writes, Writes-then, Appended-total}
use smartcity.Double.{IsDouble, is_zero}
use smartcity.Encode.Shape.{
  string_bytes, varint_field_bytes, double_field_bytes, only, string-Writes, varint_field-Writes,
  double-Writes, when-Writes,
}
use smartcity.Decode.{Switch, to_u32}
use smartcity.Decode.Fields.{IsText, Consumes-then, field_loop-Consumes}
use smartcity.Decode.Stores.{
  sent, sent_double, kept_word-zero, text-Consumes, word-Consumes, number-Consumes,
}
use smartcity.Message.{ClientRequest, zero_client_request}
use smartcity.Codec.ClientRequest.{
  client_request_fields, smart_encode_client_request, smart_parse_client_request,
  client_request_switch,
}

-- Texts without NUL, and numbers within their C types.
pub record IsClientRequest (m : ClientRequest) : Type 0 where
  pub request_type : m.request_type < 2 ^ 32
  pub target_sensor_id : IsText m.target_sensor_id
  pub value : IsDouble m.value
  pub command_type : m.command_type < 2 ^ 32
  pub text_value : IsText m.text_value

-- The bytes of the message.
unfoldable pub client_request_bytes : ClientRequest → Bytes
client_request_bytes m =
    only (not (m.request_type == 0)) (varint_field_bytes 1 m.request_type)
    ++ (string_bytes 2 m.target_sensor_id
        ++ (only (not (is_zero m.value)) (double_field_bytes 3 m.value)
            ++ (only (not (m.command_type == 0)) (varint_field_bytes 4 m.command_type)
                ++ (string_bytes 5 m.text_value))))

-- The message as it arrives.
unfoldable pub received_client_request : ClientRequest → ClientRequest
received_client_request m = record {
  request_type = m.request_type;
  target_sensor_id = sent m.target_sensor_id;
  value = sent_double m.value;
  command_type = m.command_type;
  text_value = sent m.text_value;
}

module _ (alloc : ℕ → Bool) where
  pub client_request-Writes :
      (m : ClientRequest)
      → IsClientRequest m
      → Writes alloc (client_request_fields alloc m) (client_request_bytes m)
  unfolding client_request_bytes client_request_fields
  client_request-Writes m h =
      Writes-then alloc
        (when-Writes alloc (not (m.request_type == 0)) (
          varint_field-Writes alloc 1 m.request_type (omega arith) (omega (arith, h.request_type))))
        (Writes-then alloc (string-Writes alloc 2 m.target_sensor_id (omega arith)) (
          Writes-then alloc
            (when-Writes alloc (not (is_zero m.value))
              (double-Writes alloc 3 m.value (omega arith)))
            (Writes-then alloc
              (when-Writes alloc (not (m.command_type == 0)) (
                varint_field-Writes alloc 4 m.command_type (omega arith)
                  (omega (arith, h.command_type))))
              (string-Writes alloc 5 m.text_value (omega arith)))))

  -- The reader, run on these bytes with a round for each byte, returns the message as it arrives.
  pub smart_parse_client_request-bytes :
      (m : ClientRequest) (rounds : ℕ) (tail : Bytes)
      → Grants alloc
      → IsClientRequest m
      → length (client_request_bytes m) < 2 ^ 62
      → length (client_request_bytes m) ≤ rounds
      → smart_parse_client_request alloc rounds
          (client_request_bytes m ++ tail)
          (length (client_request_bytes m))
        ≡ ok (received_client_request m)
  unfolding smart_parse_client_request client_request_bytes received_client_request
  smart_parse_client_request-bytes m rounds tail grants h small enough =
      field_loop-Consumes switch tail zero_client_request rounds
        (Consumes-then switch
          (word-Consumes switch 1 to_u32 (λ s. s.request_type)
            (λ v s. record s { request_type = v }) m.request_type (omega arith, refl, refl)
            (omega (arith, h.request_type)) (omega (arith, h.request_type)) (λ s. refl)
            (λ mem len pos s. refl))
          (Consumes-then switch
            (text-Consumes switch alloc 2 (λ s. s.target_sensor_id)
              (λ v s. record s { target_sensor_id = v }) m.target_sensor_id grants
              (omega arith, refl, refl) h.target_sensor_id (λ s. refl) (λ mem len pos s. refl))
            (Consumes-then switch
              (number-Consumes switch 3 (λ s. s.value) (λ v s. record s { value = v }) m.value
                (omega arith, refl, refl) h.value (λ s. refl) (λ mem len pos s. refl))
              (Consumes-then switch
                (word-Consumes switch 4 to_u32 (λ s. s.command_type)
                  (λ v s. record s { command_type = v }) m.command_type (omega arith, refl, refl)
                  (omega (arith, h.command_type)) (omega (arith, h.command_type)) (λ s. refl)
                  (λ mem len pos s. refl))
                (text-Consumes switch alloc 5 (λ s. s.text_value)
                  (λ v s. record s { text_value = v }) m.text_value grants (omega arith, refl, refl)
                  h.text_value (λ s. refl) (λ mem len pos s. refl))))))
        small enough
      ∙ rw (kept_word-zero m.request_type, kept_word-zero m.command_type)
    where
      switch : Switch ClientRequest
      switch = client_request_switch alloc

  -- Where the allocator refuses no request below 2 ^ 63, a message of texts without NUL, of numbers
  -- within their types and of less than 2 ^ 62 bytes is encoded, and its bytes, whatever follows
  -- them, are read back in as many rounds as bytes or more, as `received_client_request`
  -- says: "" as NULL, -0.0 as 0.0, and all else as it was.
  pub smart_parse-smart_encode_client_request :
      (m : ClientRequest) (rounds : ℕ) (tail : Bytes)
      → Grants alloc
      → IsClientRequest m
      → length (client_request_bytes m) < 2 ^ 62
      → length (client_request_bytes m) ≤ rounds
      → (b : Buffer) × (smart_encode_client_request alloc m ≡ ok b)
        × (smart_parse_client_request alloc rounds (b.contents ++ tail) (length b.contents)
            ≡ ok (received_client_request m))
  unfolding smart_encode_client_request smart_buffer_init
  smart_parse-smart_encode_client_request m rounds tail grants h small enough =
      let (b, encoded, e) =
        Appended-total alloc grants
          (client_request-Writes m h smart_buffer_init (omega arith) (omega arith)) in
      (b, encoded, rw e (smart_parse_client_request-bytes m rounds tail grants h small enough))
