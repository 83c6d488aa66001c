-- ===== src/Codec/ControlCommand/RoundTrip.antt =====
-- What was written of a ControlCommand is read back, whatever follows it in memory.
use smartcity.Prelude.{
  ℕ, ◌^◌, ◌≤◌, ◌<◌, ◌≡◌, refl, ◌∙◌, Bool, not, ◌++◌, Bytes, length, ◌==◌, arith,
}
use smartcity.Outcome.{ok}
use smartcity.Buffer.{Buffer, smart_buffer_init}
use smartcity.Buffer.Append.{Grants, Writes, Writes-then, Appended-total}
use smartcity.Double.{IsDouble, is_zero}
use smartcity.Encode.Shape.{
  string_bytes, varint_field_bytes, double_field_bytes, only, string-Writes, varint_field-Writes,
  double-Writes, when-Writes,
}
use smartcity.Decode.{Switch, to_u32}
use smartcity.Decode.Fields.{IsText, Consumes-then, field_loop-Consumes}
use smartcity.Decode.Stores.{
  sent, sent_double, kept_word-zero, text-Consumes, word-Consumes, number-Consumes,
}
use smartcity.Message.{ControlCommand, zero_control_command}
use smartcity.Codec.ControlCommand.{
  control_command_fields, smart_encode_control_command, smart_parse_control_command,
  control_command_switch,
}

-- Texts without NUL, and numbers within their C types.
pub record IsControlCommand (m : ControlCommand) : Type 0 where
  pub command_type : m.command_type < 2 ^ 32
  pub sensor_id : IsText m.sensor_id
  pub value : IsDouble m.value
  pub text_value : IsText m.text_value

-- The bytes of the message.
unfoldable pub control_command_bytes : ControlCommand → Bytes
control_command_bytes m =
    only (not (m.command_type == 0)) (varint_field_bytes 1 m.command_type)
    ++ (string_bytes 2 m.sensor_id
        ++ (only (not (is_zero m.value)) (double_field_bytes 3 m.value)
            ++ (string_bytes 4 m.text_value)))

-- The message as it arrives.
unfoldable pub received_control_command : ControlCommand → ControlCommand
received_control_command m = record {
  command_type = m.command_type;
  sensor_id = sent m.sensor_id;
  value = sent_double m.value;
  text_value = sent m.text_value;
}

module _ (alloc : ℕ → Bool) where
  pub control_command-Writes :
      (m : ControlCommand)
      → IsControlCommand m
      → Writes alloc (control_command_fields alloc m) (control_command_bytes m)
  unfolding control_command_bytes control_command_fields
  control_command-Writes m h =
      Writes-then alloc
        (when-Writes alloc (not (m.command_type == 0)) (
          varint_field-Writes alloc 1 m.command_type (omega arith) (omega (arith, h.command_type))))
        (Writes-then alloc (string-Writes alloc 2 m.sensor_id (omega arith)) (
          Writes-then alloc
            (when-Writes alloc (not (is_zero m.value))
              (double-Writes alloc 3 m.value (omega arith)))
            (string-Writes alloc 4 m.text_value (omega arith))))

  -- The reader, run on these bytes with a round for each byte, returns the message as it arrives.
  pub smart_parse_control_command-bytes :
      (m : ControlCommand) (rounds : ℕ) (tail : Bytes)
      → Grants alloc
      → IsControlCommand m
      → length (control_command_bytes m) < 2 ^ 62
      → length (control_command_bytes m) ≤ rounds
      → smart_parse_control_command alloc rounds
          (control_command_bytes m ++ tail)
          (length (control_command_bytes m))
        ≡ ok (received_control_command m)
  unfolding smart_parse_control_command control_command_bytes received_control_command
  smart_parse_control_command-bytes m rounds tail grants h small enough =
      field_loop-Consumes switch tail zero_control_command rounds
        (Consumes-then switch
          (word-Consumes switch 1 to_u32 (λ s. s.command_type)
            (λ v s. record s { command_type = v }) m.command_type (omega arith, refl, refl)
            (omega (arith, h.command_type)) (omega (arith, h.command_type)) (λ s. refl)
            (λ mem len pos s. refl))
          (Consumes-then switch
            (text-Consumes switch alloc 2 (λ s. s.sensor_id) (λ v s. record s { sensor_id = v })
              m.sensor_id grants (omega arith, refl, refl) h.sensor_id (λ s. refl)
              (λ mem len pos s. refl))
            (Consumes-then switch
              (number-Consumes switch 3 (λ s. s.value) (λ v s. record s { value = v }) m.value
                (omega arith, refl, refl) h.value (λ s. refl) (λ mem len pos s. refl))
              (text-Consumes switch alloc 4 (λ s. s.text_value) (λ v s. record s { text_value = v })
                m.text_value grants (omega arith, refl, refl) h.text_value (λ s. refl)
                (λ mem len pos s. refl)))))
        small enough
      ∙ rw (kept_word-zero m.command_type)
    where
      switch : Switch ControlCommand
      switch = control_command_switch alloc

  -- Where the allocator refuses no request below 2 ^ 63, a message of texts without NUL, of numbers
  -- within their types and of less than 2 ^ 62 bytes is encoded, and its bytes, whatever follows
  -- them, are read back in as many rounds as bytes or more, as `received_control_command`
  -- says: "" as NULL, -0.0 as 0.0, and all else as it was.
  pub smart_parse-smart_encode_control_command :
      (m : ControlCommand) (rounds : ℕ) (tail : Bytes)
      → Grants alloc
      → IsControlCommand m
      → length (control_command_bytes m) < 2 ^ 62
      → length (control_command_bytes m) ≤ rounds
      → (b : Buffer) × (smart_encode_control_command alloc m ≡ ok b)
        × (smart_parse_control_command alloc rounds (b.contents ++ tail) (length b.contents)
            ≡ ok (received_control_command m))
  unfolding smart_encode_control_command smart_buffer_init
  smart_parse-smart_encode_control_command m rounds tail grants h small enough =
      let (b, encoded, e) =
        Appended-total alloc grants
          (control_command-Writes m h smart_buffer_init (omega arith) (omega arith)) in
      (b, encoded, rw e (smart_parse_control_command-bytes m rounds tail grants h small enough))
