-- ===== src/Client/Response/Equal.antt =====
-- The parsers of 2_c/client.c and those of 2_c/smartcity_common.c do the same on any bytes.
use smartcity.Prelude.{
  ℕ, zero, suc, ◌+◌, ◌*◌, ◌%◌, ◌^◌, bit_and, bit_or, ◌≡◌, refl, ap, Bool, [], ◌∷◌, Bytes, drop, ltb,
  ◌&&◌, ◌==◌, if◌then◌else◌, arith,
}
use smartcity.Prelude.{if-same}
use smartcity.Outcome.{Outcome, ok, rejected, ◌>>=◌, bind-same}
use smartcity.Buffer.{size_mod}
use smartcity.Decode
use smartcity.Decode.{Switch}
use smartcity.Message.{
  SensorInfo, SensorReading, ClientResponse, zero_sensor_info, zero_sensor_reading,
  zero_client_response,
}
use smartcity.Codec.SensorInfo
use smartcity.Codec.SensorReading
use smartcity.Codec.ClientResponse
use smartcity.Client.Response.{
  info_switch, parse_sensor_info, reading_switch, parse_sensor_reading, append_sensor_info,
  append_sensor_reading, info_case, reading_case, response_switch, parse_client_response,
}
use smartcity.Client.Reader.{
  varint_loop, read_varint, read_key, read_length_delimited, read_fixed64_double, parse_loop,
}

varint_loop-scan :
    (bytes : Bytes) (len pos shift result : ℕ)
    → varint_loop bytes len pos shift result ≡ Decode.scan bytes len pos result shift
unfolding varint_loop Decode.scan
varint_loop-scan [] len pos shift result = refl
varint_loop-scan (byte ∷ rest) len pos shift result =
    ap
      (λ next.
        if ltb pos len && ltb shift 64
        then (if bit_and byte 0x80 == 0
            then ok (bit_or result (bit_and byte 0x7f * 2 ^ shift % size_mod), suc pos)
            else next)
        else rejected)
      (varint_loop-scan rest len (suc pos) (shift + 7) _)

read_varint-same :
    (mem : Bytes) (len pos : ℕ) → read_varint mem len pos ≡ Decode.read_varint mem len pos
unfolding read_varint Decode.read_varint
read_varint-same mem len pos = varint_loop-scan (drop pos mem) len pos 0 0

read_key-same : (mem : Bytes) (len pos : ℕ) → read_key mem len pos ≡ Decode.read_key mem len pos
unfolding read_key Decode.read_key
read_key-same mem len pos = rw (read_varint-same mem len pos)

read_length_delimited-same :
    (mem : Bytes) (len pos : ℕ)
    → read_length_delimited mem len pos ≡ Decode.read_length_delimited mem len pos
unfolding read_length_delimited Decode.read_length_delimited
read_length_delimited-same mem len pos = rw (read_varint-same mem len pos)

SameSwitch {ℓ} : {S : Type ℓ} → Switch S → Switch S → Type ℓ
SameSwitch {S = S} switch switch' =
    (n w : ℕ) (mem : Bytes) (len pos : ℕ) (m : S)
    → switch n w mem len pos m ≡ switch' n w mem len pos m

parse_loop-same {ℓ} :
    {S : Type ℓ} (switch switch' : Switch S)
    → SameSwitch switch switch'
    → (rounds : ℕ) (mem : Bytes) (len pos : ℕ) (m : S)
    → parse_loop switch rounds mem len pos m ≡ Decode.field_loop switch' rounds mem len pos m
unfolding parse_loop Decode.field_loop SameSwitch
parse_loop-same switch switch' h zero mem len pos m = refl
parse_loop-same switch switch' h (suc rounds) mem len pos m =
    ap (λ pass. if ltb pos len then pass else ok m)
      (bind-same (read_key-same mem len pos) (λ (n, w, pos₁).
        bind-same (h n w mem len pos₁ m)
          (λ (m', pos₂). parse_loop-same switch switch' h rounds mem len pos₂ m')))

module _ (alloc : ℕ → Bool) where
  info_switch-same : SameSwitch (info_switch alloc) (SensorInfo.sensor_info_switch alloc)
  unfolding SameSwitch info_switch SensorInfo.sensor_info_switch
  info_switch-same n w mem len pos m = rw (read_varint-same mem len pos)

  reading_switch-same :
      SameSwitch (reading_switch alloc) (SensorReading.sensor_reading_switch alloc)
  unfolding SameSwitch reading_switch SensorReading.sensor_reading_switch
  reading_switch-same n w mem len pos m = rw (read_varint-same mem len pos)

  parse_sensor_info-same :
      (rounds : ℕ) (mem : Bytes) (len : ℕ)
      → parse_sensor_info alloc rounds mem len ≡ SensorInfo.parse_sensor_info alloc rounds mem len
  unfolding parse_sensor_info SensorInfo.parse_sensor_info
  parse_sensor_info-same rounds mem len =
      parse_loop-same (info_switch alloc) (SensorInfo.sensor_info_switch alloc) info_switch-same
        rounds mem len 0 zero_sensor_info

  parse_sensor_reading-same :
      (rounds : ℕ) (mem : Bytes) (len : ℕ)
      → parse_sensor_reading alloc rounds mem len
        ≡ SensorReading.parse_sensor_reading_internal alloc rounds mem len
  unfolding parse_sensor_reading SensorReading.parse_sensor_reading_internal
  parse_sensor_reading-same rounds mem len =
      parse_loop-same (reading_switch alloc) (SensorReading.sensor_reading_switch alloc)
        reading_switch-same rounds mem len 0 zero_sensor_reading

  -- A nested message: parsed, appended, and the cursor moved on.
  nested-same {ℓ} :
      {A : Type ℓ} (parse parse' : Bytes → ℕ → Outcome A)
      (store store' : A → Outcome ClientResponse) (w : ℕ) (mem : Bytes) (len pos : ℕ)
      → ((mem' : Bytes) (n : ℕ) → parse mem' n ≡ parse' mem' n)
      → ((x : A) → store x ≡ store' x)
      → (if w == 2
          then (read_length_delimited mem len pos >>= λ (start, n, pos').
              parse (drop start mem) n >>= λ x. store x >>= λ m. ok (m, pos'))
          else rejected)
        ≡ ClientResponse.nested_case alloc parse' store' w mem len pos
  unfolding ClientResponse.nested_case
  nested-same parse parse' store store' w mem len pos parsed stored =
      ap (λ read. if w == 2 then read else rejected)
        (bind-same (read_length_delimited-same mem len pos) (λ (start, n, pos').
          bind-same (parsed (drop start mem) n) (λ x. bind-same (stored x) (λ m. refl))))

  append_info-same :
      (m : ClientResponse) (x : SensorInfo)
      → append_sensor_info alloc m x
        ≡ ClientResponse.append_item alloc m.sensors x >>= λ xs. ok (record m { sensors = xs })
  unfolding append_sensor_info ClientResponse.append_item
  append_info-same m x = ground arith

  append_reading-same :
      (m : ClientResponse) (x : SensorReading)
      → append_sensor_reading alloc m x
        ≡ ClientResponse.append_item alloc m.readings x >>= λ xs. ok (record m { readings = xs })
  unfolding append_sensor_reading ClientResponse.append_item
  append_reading-same m x = ground arith

  response_switch-same :
      SameSwitch (response_switch alloc) (ClientResponse.client_response_switch alloc)
  unfolding SameSwitch response_switch ClientResponse.client_response_switch info_case reading_case
  response_switch-same n w mem len pos m = if-same (n == 1) (rw (read_varint-same mem len pos)) (
      if-same (n == 2) (rw (read_varint-same mem len pos)) (
        if-same (n == 3)
          (nested-same (λ mem' k. parse_sensor_info alloc k mem' k) _ (append_sensor_info alloc m) _
            w mem len pos (λ mem' k. parse_sensor_info-same k mem' k) (append_info-same m))
          (if-same (n == 4) (unfold read_fixed64_double Decode.read_fixed64_double in refl) (
            if-same (n == 5)
              (nested-same (λ mem' k. parse_sensor_reading alloc k mem' k) _
                (append_sensor_reading alloc m) _ w mem len pos
                (λ mem' k. parse_sensor_reading-same k mem' k) (append_reading-same m))
              (rw (read_varint-same mem len pos))))))

  -- The client's parser of responses, with its own copies of everything that it calls, and the one of
  -- the library do the same on any bytes: the same response, or the same failure.
  pub parse_client_response-smart :
      (rounds : ℕ) (mem : Bytes) (len : ℕ)
      → parse_client_response alloc rounds mem len
        ≡ ClientResponse.smart_parse_client_response alloc rounds mem len
  unfolding parse_client_response ClientResponse.smart_parse_client_response
  parse_client_response-smart rounds mem len =
      parse_loop-same (response_switch alloc) (ClientResponse.client_response_switch alloc)
        response_switch-same rounds mem len 0 zero_client_response
