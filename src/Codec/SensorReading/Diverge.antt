-- ===== src/Codec/SensorReading/Diverge.antt =====
-- A datagram on which the reader of readings does not come to an end.
use smartcity.Prelude.{
  ℕ, ◌<◌, ◌^◌, ◌≡◌, refl, sym, Bool, [], ◌++◌, append-nil, Bytes, length, arith,
}
use smartcity.Outcome.{stuck}
use smartcity.Message.{zero_sensor_reading}
use smartcity.Decode.Diverge.{wrapping_field, field_loop-wrapping}
use smartcity.Codec.SensorReading.{sensor_reading_switch, smart_parse_sensor_reading}

-- On a datagram below 2 ^ 62 bytes that begins with a field 15 of the length 2 ^ 64 - 11, the reader
-- of readings uses up any number of rounds.
pub smart_parse_sensor_reading-wrapping :
    (alloc : ℕ → Bool) (rounds : ℕ) (rest : Bytes)
    → length (wrapping_field ++ rest) < 2 ^ 62
    → smart_parse_sensor_reading alloc rounds
        (wrapping_field ++ rest)
        (length (wrapping_field ++ rest))
      ≡ stuck
unfolding smart_parse_sensor_reading
smart_parse_sensor_reading-wrapping alloc rounds rest small =
    field_loop-wrapping (sensor_reading_switch alloc) rounds (wrapping_field ++ rest)
      (length (wrapping_field ++ rest)) 0 rest [] zero_sensor_reading
      (λ mem len pos s. unfold sensor_reading_switch in refl) small
      (sym (rw append-nil), omega arith)
