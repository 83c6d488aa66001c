-- ===== src/Codec/SensorReading/Overrun.antt =====
-- A datagram on which the reader of readings leaves the object that it reads: smart_dup_slice of
-- 2_c/smartcity_common.c asks for n + 1 bytes, which is 0 for the greatest n.
use smartcity.Prelude.{
  ℕ, suc, ◌+◌, ◌-◌, ◌<◌, ◌^◌, ◌≡◌, refl, sym, ap, ◌∙◌, subst, Bool, true, false, [], ◌∷◌, ◌++◌,
  append-nil, append_assoc, Bytes, length, length-append, length-drop, drop, ltb, lt→ltb, le→ltb,
  arith,
}
use smartcity.Outcome.{fault, ok, ◌>>=◌}
use smartcity.Encode.Shape.{varint_bytes, key_of}
use smartcity.Message.{zero_sensor_reading}
use smartcity.Decode.{field_loop, read_length_delimited, smart_dup_slice, string_case}
use smartcity.Decode.Varint.{At, At-advance, read_key-At, read_varint-At}
use smartcity.Codec.SensorReading.{
  sensor_reading_switch, smart_parse_sensor_reading, parse_sensor_reading_internal,
}

-- Field 1, a text, with the length 2 ^ 64 - 1: eleven bytes in all.
abbrev pub overrun_length : ℕ
overrun_length = 2 ^ 64 - 1

unfoldable pub overrun_field : Bytes
overrun_field = 0x0a ∷ 0xff ∷ 0xff ∷ 0xff ∷ 0xff ∷ 0xff ∷ 0xff ∷ 0xff ∷ 0xff ∷ 0xff ∷ 0x01 ∷ []

overrun_field-varints : overrun_field ≡ varint_bytes (key_of 1 2) ++ varint_bytes overrun_length
unfolding overrun_field varint_bytes
overrun_field-varints = refl

length-overrun_field : length overrun_field ≡ 11
unfolding overrun_field
length-overrun_field = refl

slice_accepted :
    (mem rest : Bytes) (len : ℕ)
    → At mem len 1 (varint_bytes overrun_length ++ rest) []
    → read_length_delimited mem len 1 ≡ ok (11, overrun_length, 10)
unfolding read_length_delimited
slice_accepted mem rest len here =
    let ten : length (varint_bytes overrun_length) ≡ 10 = unfold varint_bytes in refl in
    let inside : ltb len 10 ≡ false =
      le→ltb len 10 (omega (arith, here.1, length-append (varint_bytes overrun_length) rest)) in
    rw (read_varint-At overrun_length mem len 1 rest [] (omega arith) here, ten, inside)

copy_overruns :
    (alloc : ℕ → Bool) (mem : Bytes)
    → alloc 0 ≡ true
    → length mem < 2 ^ 62
    → smart_dup_slice alloc mem 11 overrun_length ≡ fault
unfolding smart_dup_slice
copy_overruns alloc mem granted small =
    let beyond : ltb (length (drop 11 mem)) overrun_length ≡ true =
      rw (length-drop 11 mem) (lt→ltb (length mem - 11) overrun_length (omega arith)) in
    rw (granted, beyond)

-- With an allocator that grants a request for no bytes, and a datagram below 2 ^ 62 bytes that begins
-- with a field 1 of the length 2 ^ 64 - 1, the reader of readings copies bytes from outside the
-- datagram, whatever rounds beyond none it is given and whatever follows.
pub smart_parse_sensor_reading-overrun :
    (alloc : ℕ → Bool) (rounds : ℕ) (rest : Bytes)
    → alloc 0 ≡ true
    → length (overrun_field ++ rest) < 2 ^ 62
    → smart_parse_sensor_reading alloc
        (suc rounds)
        (overrun_field ++ rest)
        (length (overrun_field ++ rest))
      ≡ fault
unfolding smart_parse_sensor_reading parse_sensor_reading_internal
smart_parse_sensor_reading-overrun alloc rounds rest granted small = faults
  where
    mem : Bytes
    mem = overrun_field ++ rest

    key : Bytes
    key = varint_bytes (key_of 1 2)

    same : mem ≡ key ++ (varint_bytes overrun_length ++ rest)
    same = rw overrun_field-varints (append_assoc key (varint_bytes overrun_length) rest)

    here : At mem (length mem) 0 (key ++ (varint_bytes overrun_length ++ rest)) []
    here = (same ∙ sym (rw append-nil), omega (arith, ap (λ (t : Bytes). length t) same))

    one : length key ≡ 1
    one = unfold varint_bytes in refl

    place : 0 + length key ≡ 1
    place = omega (arith, one)

    there : At mem (length mem) 1 (varint_bytes overrun_length ++ rest) []
    there =
        subst (λ p. At mem (length mem) p (varint_bytes overrun_length ++ rest) []) place
          (At-advance mem (length mem) 0 key (varint_bytes overrun_length ++ rest) [] here)

    copied : sensor_reading_switch alloc 1 2 mem (length mem) 1 zero_sensor_reading ≡ fault
    copied =
        unfold sensor_reading_switch string_case in
        rw
          (slice_accepted mem rest (length mem) there, ◌>>=◌, copy_overruns alloc mem granted small)

    room : ltb 0 (length mem) ≡ true
    room =
        lt→ltb 0 (length mem)
          (omega (arith, length-append overrun_field rest, length-overrun_field))

    faults :
        field_loop (sensor_reading_switch alloc) (suc rounds) mem (length mem) 0 zero_sensor_reading
        ≡ fault
    faults =
        unfold field_loop in
        rw (
          room,
          read_key-At 1 2 mem (length mem) 0 (varint_bytes overrun_length ++ rest) []
              (omega arith, refl, refl) here,
          place,
          copied,
        )
