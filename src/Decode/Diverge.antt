-- ===== src/Decode/Diverge.antt =====
-- A length that wraps the cursor around: the loop over the fields comes back to where it was.
use smartcity.Prelude.{
  ℕ, zero, suc, ◌+◌, ◌-◌, ◌%◌, ◌^◌, ◌≤◌, ◌<◌, ◌≡◌, refl, true, false, ◌∙◌, [], ◌∷◌, ◌++◌,
  append_assoc, Bytes, length, length-append, ltb, arith,
}
use smartcity.Outcome.{ok, stuck}
use smartcity.Buffer.{size_mod}
use smartcity.Encode.Shape.{varint_bytes, key_of}
use smartcity.Decode.{Switch, field_loop, skip_field, unknown_case}
use smartcity.Decode.Varint.{At, At-advance, read_key-At, read_varint-At}

-- Field 15, a slice, with the length 2 ^ 64 - 11: eleven bytes in all.
abbrev pub wrapping_length : ℕ
wrapping_length = 2 ^ 64 - 11

unfoldable pub wrapping_field : Bytes
wrapping_field = 0x7a ∷ 0xf5 ∷ 0xff ∷ 0xff ∷ 0xff ∷ 0xff ∷ 0xff ∷ 0xff ∷ 0xff ∷ 0xff ∷ 0x01 ∷ []

wrapping_field-varints : wrapping_field ≡ varint_bytes (key_of 15 2) ++ varint_bytes wrapping_length
unfolding wrapping_field varint_bytes
wrapping_field-varints = refl

read_wrapping :
    (mem : Bytes) (len pos : ℕ) (rest tail : Bytes)
    → len < 2 ^ 62
    → At mem len pos (varint_bytes wrapping_length ++ rest) tail
    → 1 ≤ pos
    → skip_field mem len pos 2 ≡ ok (pos - 1)
unfolding skip_field
read_wrapping mem len pos rest tail small here behind =
    let ten : length (varint_bytes wrapping_length) ≡ 10 = unfold varint_bytes in refl in
    let back : (pos + 10 + wrapping_length) % size_mod ≡ pos - 1 = omega arith in
    let inside : ltb len (pos - 1) ≡ false =
      ground (arith, here.1, length-append (varint_bytes wrapping_length) rest) in
    rw (read_varint-At wrapping_length mem len pos rest tail (omega arith) here, ten, back, inside)

-- Where the cursor stands at such a field and the switch does not know field 15, the loop uses up
-- any number of rounds.
pub field_loop-wrapping {ℓ} :
    {S : Type ℓ} (switch : Switch S) (rounds : ℕ) (mem : Bytes) (len pos : ℕ) (rest tail : Bytes)
    (state : S)
    → ((mem : Bytes) (len pos : ℕ) (s : S)
        → switch 15 2 mem len pos s ≡ unknown_case s 2 mem len pos)
    → len < 2 ^ 62
    → At mem len pos (wrapping_field ++ rest) tail
    → field_loop switch rounds mem len pos state ≡ stuck
field_loop-wrapping {S} switch rounds mem len pos rest tail state unknown small here = loop rounds
  where
    key : Bytes
    key = varint_bytes (key_of 15 2)

    size : Bytes
    size = varint_bytes wrapping_length

    same : wrapping_field ++ rest ≡ key ++ (size ++ rest)
    same = rw wrapping_field-varints (append_assoc key size rest)

    here' : At mem len pos (key ++ (size ++ rest)) tail
    here' = rw same at here

    one : length key ≡ 1
    one = unfold varint_bytes in refl

    room : ltb pos len ≡ true
    room = unfold wrapping_field in ground (arith, here.1)

    back : pos + length key - 1 ≡ pos
    back = omega (arith, one)

    pass : switch 15 2 mem len (pos + length key) state ≡ ok (state, pos)
    pass =
        unknown mem len (pos + length key) state
        ∙ unfold unknown_case in
          rw (
            read_wrapping mem len (pos + length key) rest tail small
                (At-advance mem len pos key (size ++ rest) tail here') (omega (arith, one)),
            back,
          )

    again :
        (n : ℕ)
        → field_loop switch (suc n) mem len pos state ≡ field_loop switch n mem len pos state
    again n =
        unfold field_loop in
        rw (
          room,
          read_key-At 15 2 mem len pos (size ++ rest) tail (omega arith, refl, refl) here',
          pass,
        )

    loop : (n : ℕ) → field_loop switch n mem len pos state ≡ stuck
    loop zero = unfold field_loop in rw room
    loop (suc n) = again n ∙ loop n
