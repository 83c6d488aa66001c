-- ===== src/Decode/Safety/Cases.antt =====
-- The cases of the switches over the fields, and their loop, stay inside the object.
use smartcity.Prelude.{
  ℕ, zero, suc, ◌+◌, ◌%◌, ◌^◌, ◌≤◌, ◌<◌, ◌≡◌, sym, ap, ◌∙◌, subst, Bool, true, false, ◌&&◌, Bytes,
  ltb, leb, le→ltb, ◌==◌, if◌then◌else◌, arith, Bool-cases, inl, inr, ◌⊎◌,
}
use smartcity.Outcome.{Outcome, ok, rejected, stuck, ◌>>=◌}
use smartcity.Buffer.{size_mod}
use smartcity.Double.{Double}
use smartcity.Encode.{CString}
use smartcity.Decode.{
  Switch, read_varint, read_key, read_length_delimited, read_fixed64_double, skip_field,
  smart_dup_slice, string_case, varint_case, double_case, unknown_case, field_loop,
}
use smartcity.Decode.Safety.{
  Holds-rejected, Holds-know, Holds-ok, read_fixed64_double-Holds, Holds, Holding, Kept, Limits,
  Moved, Sliced, forward, Holds-bind, Holds-if, read_varint-Holds, read_key-Holds,
  read_length_delimited-Holds, smart_dup_slice-Holds, move-Holds,
}

module _ (W : Type 0) (mem : Bytes) (len : ℕ) (h : Holding mem len) where
  -- How skip_field skips a number and a slice.
  skip_varint :
      (pos v p : ℕ) → read_varint mem len pos ≡ ok (v, p) → skip_field mem len pos 0 ≡ ok p
  unfolding skip_field
  skip_varint pos v p e = rw e

  skip_slice :
      (pos start n p : ℕ)
      → read_length_delimited mem len pos ≡ ok (start, n, p)
      → skip_field mem len pos 2 ≡ ok p
  unfolding skip_field
  skip_slice pos start n p e = ap (λ (o : Outcome (ℕ × ℕ × ℕ)). o >>= λ (_, _, p'). ok p') e

  skip_field-Holds :
      (pos wire_type : ℕ) → pos ≤ len → Holds W (λ p. p ≤ len) (skip_field mem len pos wire_type)
  unfolding skip_field
  skip_field-Holds pos wire_type inside =
      Holds-if W (λ p. p ≤ len) (wire_type == 0) _ _
        (Holds-bind W (Moved len pos) _ (read_varint mem len pos) _
          (read_varint-Holds W mem len pos h)
          (λ (v, pos') (within, later). Holds-ok W (λ p. p ≤ len) pos' within))
        (Holds-if W (λ p. p ≤ len) (wire_type == 1) _ _ (skip_move 8 (omega arith))
          (Holds-if W (λ p. p ≤ len) (wire_type == 2) _ _
            (Holds-bind W (Sliced pos len) _ (read_length_delimited mem len pos) _
              (read_length_delimited-Holds W mem len pos h)
              (λ (start, n, beyond) slice. Holds-ok W (λ p. p ≤ len) beyond slice.ends))
            (Holds-if W (λ p. p ≤ len) (wire_type == 5) _ _ (skip_move 4 (omega arith))
              (Holds-rejected W (λ p. p ≤ len)))))
    where
      skip_move :
          (width : ℕ)
          → width < 2 ^ 62
          → Holds W
              (λ p. p ≤ len)
              (if ltb len ((pos + width) % size_mod)
                then rejected
                else ok ((pos + width) % size_mod))
      skip_move width narrow =
          Holds-know W (λ p. (p ≤ len) × (pos ≤ p)) (λ p. p ≤ len) _
            (move-Holds W len width pos inside (omega (arith, h.1)) narrow) (λ p e moved. moved.0)

  -- The loop is to end: no field of those that are left moves the cursor back.
  abbrev Onwards : ℕ → ℕ → Type 0
  Onwards pos rounds =
      (left : ℕ) × (forward left mem len pos ≡ true) × (len ≤ pos + left) × (left ≤ rounds)

  forward_step :
      (left pos n w pos₁ pos₂ : ℕ)
      → read_key mem len pos ≡ ok (n, w, pos₁)
      → skip_field mem len pos₁ w ≡ ok pos₂
      → forward (suc left) mem len pos ≡ (leb pos₁ pos₂ && forward left mem len pos₂)
  unfolding forward
  forward_step left pos n w pos₁ pos₂ key skipped = rw (key, forward, skipped)

  onwards :
      (rounds pos n w pos₁ pos₂ : ℕ)
      → pos < len
      → pos < pos₁
      → read_key mem len pos ≡ ok (n, w, pos₁)
      → skip_field mem len pos₁ w ≡ ok pos₂
      → W ⊎ Onwards pos (suc rounds)
      → W ⊎ Onwards pos₂ rounds
  onwards rounds pos n w pos₁ pos₂ inside later key skipped (inl v) = inl v
  onwards rounds pos n w pos₁ pos₂ inside later key skipped (inr (zero, f, enough, few)) =
      absurd (omega arith)
  onwards rounds pos n w pos₁ pos₂ inside later key skipped (inr (suc left, f, enough, few)) =
      let both : (leb pos₁ pos₂ && forward left mem len pos₂) ≡ true =
        sym (forward_step left pos n w pos₁ pos₂ key skipped) ∙ f in
      inr (left, ground arith, ground arith, omega arith)

  -- The cases of a switch.
  module _ {ℓ} {S : Type ℓ} where
    -- A case looks at one wire type only.
    typed :
        (k wire_type pos : ℕ) (o : Outcome (S × ℕ))
        → Holds W (Kept mem len k pos) o
        → Holds W (Kept mem len wire_type pos) (if wire_type == k then o else rejected)
    typed k wire_type pos o held = elim (Bool-cases (wire_type == k)) [
      | inl e ↦
          let same : k ≡ wire_type = ground arith in
          rw e (subst (λ w. Holds W (Kept mem len w pos) o) same held)
      | inr e ↦ rw e (Holds-rejected W (Kept mem len wire_type pos))
    ]

    pub string_case-Holds :
        (alloc : ℕ → Bool) (store : CString → S) (wire_type pos : ℕ)
        → Limits alloc
        → Holds W (Kept mem len wire_type pos) (string_case alloc store wire_type mem len pos)
    unfolding string_case
    string_case-Holds alloc store wire_type pos limits = typed 2 wire_type pos _ (
        Holds-bind W (λ t. Sliced pos len t × (skip_field mem len pos 2 ≡ ok t.2)) _
          (read_length_delimited mem len pos) _
          (Holds-know W (Sliced pos len) _ (read_length_delimited mem len pos)
            (read_length_delimited-Holds W mem len pos h)
            (λ (start, n, beyond) e slice. (slice, skip_slice pos start n beyond e)))
          (λ (start, n, beyond) (slice, skipped).
            Holds-bind W (λ t. Unit {0}) _ (smart_dup_slice alloc mem start n) _
              (smart_dup_slice-Holds W alloc mem pos len start n beyond limits h slice)
              (λ text _.
                Holds-ok W (Kept mem len 2 pos) (store text, beyond) (slice.ends, skipped))))

    pub varint_case-Holds :
        (store : ℕ → S) (wire_type pos : ℕ)
        → Holds W (Kept mem len wire_type pos) (varint_case store wire_type mem len pos)
    unfolding varint_case
    varint_case-Holds store wire_type pos = typed 0 wire_type pos _ (
        Holds-bind W (λ t. Moved len pos t × (skip_field mem len pos 0 ≡ ok t.1)) _
          (read_varint mem len pos) _
          (Holds-know W (Moved len pos) _ (read_varint mem len pos)
            (read_varint-Holds W mem len pos h)
            (λ (v, pos') e moved. (moved, skip_varint pos v pos' e)))
          (λ (v, pos') ((inside, later), skipped).
            Holds-ok W (Kept mem len 0 pos) (store v, pos') (inside, skipped)))

    pub double_case-Holds :
        (store : Double → S) (wire_type pos : ℕ)
        → pos ≤ len
        → Holds W (Kept mem len wire_type pos) (double_case store wire_type mem len pos)
    unfolding double_case
    double_case-Holds store wire_type pos inside = typed 1 wire_type pos _ (
        Holds-bind W (λ t. Moved len pos t × (skip_field mem len pos 1 ≡ ok t.1)) _
          (read_fixed64_double mem len pos) _ (read_fixed64_double-Holds W mem len pos h inside)
          (λ (v, pos') ((within, later), skipped).
            Holds-ok W (Kept mem len 1 pos) (store v, pos') (within, skipped)))

    pub unknown_case-Holds :
        (state : S) (wire_type pos : ℕ)
        → pos ≤ len
        → Holds W (Kept mem len wire_type pos) (unknown_case state wire_type mem len pos)
    unfolding unknown_case
    unknown_case-Holds state wire_type pos inside =
        Holds-bind W (λ p. (p ≤ len) × (skip_field mem len pos wire_type ≡ ok p)) _
          (skip_field mem len pos wire_type) _
          (Holds-know W (λ p. p ≤ len) _ (skip_field mem len pos wire_type)
            (skip_field-Holds pos wire_type inside) (λ p e within. (within, e)))
          (λ pos' kept. Holds-ok W (Kept mem len wire_type pos) (state, pos') kept)

    -- With a round for each byte that is left the loop ends, where no field moves the cursor back.
    pub field_loop-Holds :
        (switch : Switch S)
        → ((n w pos : ℕ) (state : S)
            → pos ≤ len
            → Holds W (Kept mem len w pos) (switch n w mem len pos state))
        → (rounds pos : ℕ) (state : S) → W ⊎ Onwards pos rounds
        → Holds W (λ s. Unit {0}) (field_loop switch rounds mem len pos state)
    unfolding field_loop
    field_loop-Holds switch safe zero pos state (inl w) =
        Holds-if W (λ s. Unit {0}) (ltb pos len) stuck (ok state) (unfold Holds in w)
          (unfold Holds in tt)
    field_loop-Holds switch safe zero pos state (inr (left, f, enough, few)) =
        let over : ltb pos len ≡ false = le→ltb pos len (omega arith) in
        rw over (unfold Holds in tt)
    field_loop-Holds switch safe (suc rounds) pos state out = elim (Bool-cases (ltb pos len)) [
      | inr e ↦ rw e (unfold Holds in tt)
      | inl e ↦ rw e (
          Holds-bind W (λ t. ((t.2 ≤ len) × (pos < t.2)) × (read_key mem len pos ≡ ok t)) _
            (read_key mem len pos) _
            (Holds-know W _ _ (read_key mem len pos) (read_key-Holds W mem len pos h)
              (λ t e' moved. (moved, e')))
            (λ (n, w, pos₁) ((inside, later), key).
              Holds-bind W (Kept mem len w pos₁) _ (switch n w mem len pos₁ state) _
                (safe n w pos₁ state inside)
                (λ (state', pos₂) kept.
                  field_loop-Holds switch safe rounds pos₂ state'
                    (onwards rounds pos n w pos₁ pos₂ (ground arith) later key kept.1 out))))
    ]
