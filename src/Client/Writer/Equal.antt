-- ===== src/Client/Writer/Equal.antt =====
-- The writers of 2_c/client.c and those of 2_c/smartcity_common.c do the same.
use smartcity.Prelude.{
  ℕ, zero, suc, ◌*◌, ◌/◌, ◌%◌, ◌^◌, ◌<◌, ◌≡◌, refl, ap, ◌∙◌, bit_and, bit_or, Bool, true, false,
  not, none, some, [], ◌∷◌, Bytes, length, ltb, leb, ◌==◌, if◌then◌else◌, arith, ◌+◌,
}
use smartcity.Prelude.{if-same}
use smartcity.Outcome.{Outcome, ok, bind-same}
use smartcity.Buffer
use smartcity.Buffer.{Buffer as SmartBuffer, size_mod, smart_buffer_init}
use smartcity.Double.{Double, double_bytes, is_zero}
use smartcity.Encode
use smartcity.Encode.{CString, when}
use smartcity.Message.{ClientRequest}
use smartcity.Codec.ClientRequest.{client_request_fields, smart_encode_client_request}
use smartcity.Client.Writer.{
  buffer_init, capacity_loop, buffer_reserve, buffer_append, buffer_append_byte, groups_loop,
  buffer_append_varint, buffer_append_key, buffer_append_string_field, buffer_append_double_field,
  buffer_append_varint_field, encode_client_request,
}

capacity_loop-grow :
    (rounds needed new_cap : ℕ)
    → capacity_loop rounds needed new_cap ≡ Buffer.grow rounds new_cap needed
unfolding capacity_loop Buffer.grow
capacity_loop-grow zero needed new_cap = refl
capacity_loop-grow (suc rounds) needed new_cap =
    ap (λ next. if ltb new_cap needed then next else ok new_cap)
      (capacity_loop-grow rounds needed (new_cap * 2 % size_mod))

module _ (alloc : ℕ → Bool) where
  reserve-same :
      (buf : SmartBuffer) (extra : ℕ)
      → buffer_reserve alloc buf extra ≡ Buffer.buffer_reserve alloc buf extra
  unfolding buffer_reserve Buffer.buffer_reserve Buffer.first_cap
  reserve-same buf extra = rw (
      capacity_loop-grow 64 ((length buf.contents + extra) % size_mod)
        (if buf.cap == 0 then 128 else buf.cap))

  append-same :
      (buf : SmartBuffer) (bytes : Bytes)
      → buffer_append alloc buf bytes ≡ Buffer.buffer_append alloc buf bytes
  unfolding buffer_append Buffer.buffer_append
  append-same buf bytes = bind-same (reserve-same buf (length bytes)) (λ b. refl)

  byte-same :
      (buf : SmartBuffer) (byte : ℕ)
      → buffer_append_byte alloc buf byte ≡ Buffer.buffer_append_byte alloc buf byte
  unfolding buffer_append_byte Buffer.buffer_append_byte
  byte-same buf byte = append-same buf (byte ∷ [])

  groups_loop-same :
      (rounds : ℕ) (buf : SmartBuffer) (value : ℕ)
      → groups_loop alloc rounds buf value ≡ Encode.append_varint_loop alloc rounds buf value
  unfolding groups_loop Encode.append_varint_loop
  groups_loop-same zero buf value = refl
  groups_loop-same (suc rounds) buf value =
      if-same (leb 0x80 value)
        (bind-same (byte-same buf (bit_or (bit_and value 0x7f) 0x80 % 256))
          (λ b. groups_loop-same rounds b (value / 2 ^ 7)))
        (byte-same buf (value % 256))

  varint-same :
      (buf : SmartBuffer) (value : ℕ)
      → buffer_append_varint alloc buf value ≡ Encode.buffer_append_varint alloc buf value
  unfolding buffer_append_varint Encode.buffer_append_varint
  varint-same buf value = groups_loop-same 10 buf value

  key-same :
      (buf : SmartBuffer) (field_number wire_type : ℕ)
      → buffer_append_key alloc buf field_number wire_type
        ≡ Encode.buffer_append_key alloc buf field_number wire_type
  unfolding buffer_append_key Encode.buffer_append_key
  key-same buf field_number wire_type = varint-same buf _

  string_field-same :
      (buf : SmartBuffer) (field_number : ℕ) (value : CString)
      → buffer_append_string_field alloc buf field_number value
        ≡ Encode.buffer_append_string_field alloc buf field_number value
  unfolding buffer_append_string_field Encode.buffer_append_string_field
  string_field-same buf field_number none = refl
  string_field-same buf field_number (some []) = refl
  string_field-same buf field_number (some (c ∷ s)) =
      bind-same (key-same buf field_number 2)
        (λ b. bind-same (varint-same b (length (c ∷ s))) (λ b'. append-same b' (c ∷ s)))

  double_field-same :
      (buf : SmartBuffer) (field_number : ℕ) (value : Double)
      → buffer_append_double_field alloc buf field_number value
        ≡ Encode.buffer_append_double_field alloc buf field_number value
  unfolding buffer_append_double_field Encode.buffer_append_double_field
  double_field-same buf field_number value =
      bind-same (key-same buf field_number 1) (λ b. append-same b (double_bytes value))

  varint_field-same :
      (buf : SmartBuffer) (field_number value : ℕ)
      → buffer_append_varint_field alloc buf field_number value
        ≡ Encode.buffer_append_varint_field alloc buf field_number value
  unfolding buffer_append_varint_field Encode.buffer_append_varint_field
  varint_field-same buf field_number value =
      bind-same (key-same buf field_number 0) (λ b. varint-same b value)

  when-same :
      (test : Bool) {w w' : SmartBuffer → Outcome SmartBuffer}
      → ((b : SmartBuffer) → w b ≡ w' b)
      → (b : SmartBuffer) → when test w b ≡ when test w' b
  when-same true h b = h b
  when-same false h b = refl

  -- The bytes of a request, or the failure, are those that the library's writer makes, wherever the
  -- request has a type.
  pub encode_client_request-smart :
      (req : ClientRequest)
      → 0 < req.request_type
      → encode_client_request alloc req ≡ smart_encode_client_request alloc req
  unfolding encode_client_request smart_encode_client_request client_request_fields buffer_init
      smart_buffer_init
  encode_client_request-smart req h =
      let typed : (req.request_type == 0) ≡ false = ground arith in
      bind-same (varint_field-same buffer_init 1 req.request_type ∙ rw typed) (λ b₁.
        bind-same (string_field-same b₁ 2 req.target_sensor_id) (λ b₂.
          bind-same (when-same (not (is_zero req.value)) (λ b. double_field-same b 3 req.value) b₂)
            (λ b₃.
              bind-same
                (when-same (not (req.command_type == 0))
                  (λ b. varint_field-same b 4 req.command_type) b₃)
                (λ b₄. string_field-same b₄ 5 req.text_value))))
