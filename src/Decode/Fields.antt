-- ===== src/Decode/Fields.antt =====
-- The field loop on a message that was written field by field: each written field takes one pass,
-- which stores its value and moves the cursor behind it.
use smartcity.Prelude.{
  ℕ, zero, suc, ◌+◌, ◌%◌, ◌^◌, ◌≤◌, ◌<◌, ◌≡◌, refl, ◌∙◌, Bool, true, false, none, some, [], ◌∷◌,
  ◌++◌, append_assoc, append-nil, Bytes, All, length, length-append, take-append, ltb,
  if◌then◌else◌, arith,
}
use smartcity.Outcome.{ok}
use smartcity.Buffer.{size_mod}
use smartcity.Buffer.Append.{Grants}
use smartcity.Double.{Double, IsDouble, double_bytes}
use smartcity.Encode.{CString}
use smartcity.Encode.Shape.{
  varint_bytes, key_of, string_bytes, double_field_bytes, varint_field_bytes, only,
}
use smartcity.Decode.{
  Switch, field_loop, read_key, string_case, varint_case, double_case, before_nul, smart_dup_slice,
}
use smartcity.Decode.Varint.{
  At, At-advance, IsKey, length-groups, read_key-At, read_varint-At, read_length_delimited-At,
  read_fixed64_double-At,
}

-- A text of the program: no NUL before its end.
abbrev pub IsText : CString → Type 0
IsText none = Unit {0}
IsText (some s) = All (λ c. 0 < c) s

-- What a message keeps of a text that was sent: nothing is written for NULL and for "".
abbrev pub stored {ℓ} : {S : Type ℓ} → CString → (CString → S → S) → S → S
stored none store state = state
stored (some []) store state = state
stored (some (c ∷ s)) store state = store (some (c ∷ s)) state

pub before_nul-text : (s : Bytes) → All (λ c. 0 < c) s → before_nul s ≡ s
unfolding before_nul
before_nul-text [] h = refl
before_nul-text (c ∷ s) h = ground (arith, before_nul-text s)

-- A slice that was written as the bytes of a text is copied as this text.
pub smart_dup_slice-At :
    (alloc : ℕ → Bool) (s mem : Bytes) (len pos : ℕ) (rest tail : Bytes)
    → Grants alloc
    → All (λ c. 0 < c) s
    → len < 2 ^ 62
    → At mem len pos (s ++ rest) tail
    → smart_dup_slice alloc mem pos (length s) ≡ ok (some s)
unfolding smart_dup_slice
smart_dup_slice-At alloc s mem len pos rest tail grants text small (here, ends) =
    let granted : alloc ((length s + 1) % size_mod) ≡ true =
      grants _ (omega (arith, length-append s rest)) in
    let room : ltb (length (s ++ (rest ++ tail))) (length s) ≡ false =
      ground (arith, length-append s (rest ++ tail)) in
    rw (
      granted,
      here,
      append_assoc,
      room,
      take-append (length s) s (rest ++ tail) refl,
      before_nul-text s text,
    )

module _ {ℓ} {S : Type ℓ} (switch : Switch S) where
  -- The loop, put before `bytes` with enough rounds for the rest of the message, comes to stand
  -- behind them with the state changed by `f`.
  pub record Consumes (bytes : Bytes) (f : S → S) : Type ℓ where
    pub apply :
        (mem : Bytes) (len pos : ℕ) (rest tail : Bytes) (state : S) (rounds : ℕ)
        → At mem len pos (bytes ++ rest) tail
        → len < 2 ^ 62
        → length bytes + length rest ≤ rounds
        → (rounds' : ℕ) × (length rest ≤ rounds')
          × (field_loop switch rounds mem len pos state
              ≡ field_loop switch rounds' mem len (pos + length bytes) (f state))

  pub Consumes-nil : Consumes [] (λ s. s)
  Consumes-nil = record {
    apply = λ mem len pos rest tail state rounds here small enough.
        let stay : pos + 0 ≡ pos = omega arith in (rounds, omega arith, rw stay);
  }

  pub Consumes-then :
      {xs ys : Bytes} {f g : S → S}
      → Consumes xs f
      → Consumes ys g
      → Consumes (xs ++ ys) (λ s. g (f s))
  Consumes-then {xs} {ys} {f} {g} first second = record {
    apply = λ mem len pos rest tail state rounds here small enough.
        let here' : At mem len pos (xs ++ (ys ++ rest)) tail =
          rw (append_assoc xs ys rest) at here in
        let (r₁, enough₁, e₁) =
          first.apply mem len pos (ys ++ rest) tail state rounds here' small
            (omega (arith, length-append xs ys, length-append ys rest)) in
        let (r₂, enough₂, e₂) =
          second.apply mem len (pos + length xs) rest tail (f state) r₁
            (At-advance mem len pos xs (ys ++ rest) tail here') small
            (omega (arith, enough₁, length-append ys rest)) in
        let ends : pos + length xs + length ys ≡ pos + length (xs ++ ys) =
          omega (arith, length-append xs ys) in
        (r₂, enough₂, e₁ ∙ rw ends at e₂);
  }

  pub Consumes-only :
      (test : Bool) {bytes : Bytes} {f : S → S}
      → Consumes bytes f
      → Consumes (only test bytes) (λ s. if test then f s else s)
  Consumes-only true h = h
  Consumes-only false h = Consumes-nil

  -- Behind the last byte the loop ends, with any number of rounds.
  pub field_loop_end :
      (rounds : ℕ) (mem : Bytes) (len pos : ℕ) (state : S)
      → pos ≡ len
      → field_loop switch rounds mem len pos state ≡ ok state
  unfolding field_loop
  field_loop_end zero mem len pos state h = ground arith
  field_loop_end (suc rounds) mem len pos state h = ground arith

  -- A whole message: the loop returns the final state.
  pub field_loop-Consumes :
      {bytes : Bytes} {f : S → S} (tail : Bytes) (state : S) (rounds : ℕ)
      → Consumes bytes f
      → length bytes < 2 ^ 62
      → length bytes ≤ rounds
      → field_loop switch rounds (bytes ++ tail) (length bytes) 0 state ≡ ok (f state)
  field_loop-Consumes {bytes} {f} tail state rounds h small enough =
      let (r, _, e) =
        h.apply (bytes ++ tail) (length bytes) 0 [] tail state rounds
          (rw append-nil, omega (arith, length-append bytes [])) small (omega arith) in
      e ∙ field_loop_end r (bytes ++ tail) (length bytes) (0 + length bytes) (f state) (omega arith)

  field_loop_pass :
      (n w : ℕ) (mem : Bytes) (len pos pos₁ pos₂ rounds : ℕ) (state state' : S)
      → pos < len
      → read_key mem len pos ≡ ok (n, w, pos₁)
      → switch n w mem len pos₁ state ≡ ok (state', pos₂)
      → field_loop switch (suc rounds) mem len pos state
        ≡ field_loop switch rounds mem len pos₂ state'
  unfolding field_loop
  field_loop_pass n w mem len pos pos₁ pos₂ rounds state state' room key value =
      let test : ltb pos len ≡ true = ground arith in rw (test, key, value)

  -- A field that is written: its key, and a body that its case of the switch reads.
  pub field-Consumes :
      (n w : ℕ) (body : Bytes) (f : S → S)
      → IsKey n w
      → ((mem : Bytes) (len pos : ℕ) (rest tail : Bytes) (state : S)
          → At mem len pos (body ++ rest) tail
          → len < 2 ^ 62
          → switch n w mem len pos state ≡ ok (f state, pos + length body))
      → Consumes (varint_bytes (key_of n w) ++ body) f
  field-Consumes n w body f key reads = record { apply = apply }
    where
      head : Bytes
      head = varint_bytes (key_of n w)

      some_head : 1 ≤ length head
      some_head = unfold varint_bytes in (length-groups 9 (key_of n w)).0

      apply :
          (mem : Bytes) (len pos : ℕ) (rest tail : Bytes) (state : S) (rounds : ℕ)
          → At mem len pos ((head ++ body) ++ rest) tail
          → len < 2 ^ 62
          → length (head ++ body) + length rest ≤ rounds
          → (rounds' : ℕ) × (length rest ≤ rounds')
            × (field_loop switch rounds mem len pos state
                ≡ field_loop switch rounds' mem len (pos + length (head ++ body)) (f state))
      apply mem len pos rest tail state zero here small enough =
          absurd (omega (arith, some_head, length-append head body))
      apply mem len pos rest tail state (suc rounds) here small enough =
          let here' : At mem len pos (head ++ (body ++ rest)) tail =
            rw (append_assoc head body rest) at here in
          let ends : pos + length head + length body ≡ pos + length (head ++ body) =
            omega (arith, length-append head body) in
          (
            rounds,
            omega (arith, some_head, length-append head body),
            rw (← ends) (
                field_loop_pass n w mem len pos (pos + length head) _ rounds state (f state)
                  (omega (
                    arith,
                    here.1,
                    some_head,
                    length-append (head ++ body) rest,
                    length-append head body,
                  ))
                  (read_key-At n w mem len pos (body ++ rest) tail key here')
                  (reads mem len (pos + length head) rest tail state
                    (At-advance mem len pos head (body ++ rest) tail here') small)),
          )

  pub varint_field-Consumes :
      (n : ℕ) (store : ℕ → S → S) (value : ℕ)
      → IsKey n 0
      → value < 2 ^ 64
      → ((mem : Bytes) (len pos : ℕ) (state : S)
          → switch n 0 mem len pos state ≡ varint_case (λ v. store v state) 0 mem len pos)
      → Consumes (varint_field_bytes n value) (store value)
  unfolding varint_field_bytes varint_case
  varint_field-Consumes n store value key word is_case =
      field-Consumes n 0 (varint_bytes value) (store value) key
        λ mem len pos rest tail state here small.
          is_case mem len pos state ∙ rw (read_varint-At value mem len pos rest tail word here)

  pub double_field-Consumes :
      (n : ℕ) (store : Double → S → S) (value : Double)
      → IsKey n 1
      → IsDouble value
      → ((mem : Bytes) (len pos : ℕ) (state : S)
          → switch n 1 mem len pos state ≡ double_case (λ v. store v state) 1 mem len pos)
      → Consumes (double_field_bytes n value) (store value)
  unfolding double_field_bytes double_case
  double_field-Consumes n store value key word is_case =
      field-Consumes n 1 (double_bytes value) (store value) key
        λ mem len pos rest tail state here small.
          is_case mem len pos state
          ∙ rw (read_fixed64_double-At value mem len pos rest tail word small here)

  pub string_field-Consumes :
      (alloc : ℕ → Bool) (n : ℕ) (store : CString → S → S) (value : CString)
      → Grants alloc
      → IsKey n 2
      → IsText value
      → ((mem : Bytes) (len pos : ℕ) (state : S)
          → switch n 2 mem len pos state ≡ string_case alloc (λ v. store v state) 2 mem len pos)
      → Consumes (string_bytes n value) (stored value store)
  unfolding string_bytes string_case
  string_field-Consumes alloc n store none grants key text is_case = Consumes-nil
  string_field-Consumes alloc n store (some []) grants key text is_case = Consumes-nil
  string_field-Consumes alloc n store (some (c ∷ s)) grants key text is_case =
      field-Consumes n 2 (size ++ (c ∷ s)) (store (some (c ∷ s))) key
        λ mem len pos rest tail state here small.
          let here' : At mem len pos (size ++ ((c ∷ s) ++ rest)) tail =
            rw (append_assoc size (c ∷ s) rest) at here in
          let ends : pos + length size + length (c ∷ s) ≡ pos + length (size ++ (c ∷ s)) =
            omega (arith, length-append size (c ∷ s)) in
          is_case mem len pos state
          ∙ rw (
            read_length_delimited-At (c ∷ s) mem len pos rest tail small here',
            smart_dup_slice-At alloc (c ∷ s) mem len (pos + length size) rest tail grants text small
                (At-advance mem len pos size ((c ∷ s) ++ rest) tail here'),
            ends,
          )
    where
      size : Bytes
      size = varint_bytes (length (c ∷ s))
