-- ===== src/Decode/Stores.antt =====
-- The fields of a message as the writers leave them out or write them, and the change that reading
-- them back makes to a message: each kind of field has a place in the message, `get` and `put`.
use smartcity.Prelude.{
  ℕ, ◌^◌, ◌<◌, ◌≡◌, refl, ◌∙◌, Bool, true, false, not, ◌||◌, some, none, [], ◌∷◌, Bytes, ◌==◌,
  if◌then◌else◌, arith, Bool-cases, inl, inr,
}
use smartcity.Buffer.Append.{Grants}
use smartcity.Double.{Double, IsDouble, is_zero}
use smartcity.Encode.{CString}
use smartcity.Encode.Shape.{string_bytes, double_field_bytes, varint_field_bytes, only}
use smartcity.Decode.{Switch, string_case, varint_case, double_case}
use smartcity.Decode.Varint.{IsKey}
use smartcity.Decode.Fields.{
  IsText, stored, Consumes, Consumes-only, varint_field-Consumes, double_field-Consumes,
  string_field-Consumes,
}

-- What a place of the message holds behind an optional field: the new value, or the old one.
abbrev pub kept : CString → CString → CString
kept none old = old
kept (some []) old = old
kept (some (c ∷ s)) old = some (c ∷ s)

abbrev pub kept_word : ℕ → ℕ → ℕ
kept_word value old = if not (value == 0) then value else old

abbrev pub kept_double : Double → Double → Double
kept_double value old = if not (is_zero value) then value else old

-- What arrives of a text: "" arrives as NULL.
abbrev pub sent : CString → CString
sent value = kept value none

-- What arrives of a `double` that is sent unless it is zero: -0.0 arrives as 0.0.
abbrev pub sent_double : Double → Double
sent_double value = kept_double value 0

pub kept_word-zero : (value : ℕ) → kept_word value 0 ≡ value
kept_word-zero value = ground arith

pub or-false : (b : Bool) → (b || false) ≡ b
or-false true = refl
or-false false = refl

module _ {ℓ} {S : Type ℓ} (switch : Switch S) where
  pub Consumes-eq :
      {bytes : Bytes} {f g : S → S}
      → ((s : S) → f s ≡ g s)
      → Consumes switch bytes f
      → Consumes switch bytes g
  Consumes-eq same h = record {
    apply = λ mem len pos rest tail state rounds here small enough.
        let (r, enough', e) = h.apply mem len pos rest tail state rounds here small enough in
        (r, enough', e ∙ rw (same state));
  }

  pub text-Consumes :
      (alloc : ℕ → Bool) (n : ℕ) (get : S → CString) (put : CString → S → S) (value : CString)
      → Grants alloc
      → IsKey n 2
      → IsText value
      → ((s : S) → put (get s) s ≡ s)
      → ((mem : Bytes) (len pos : ℕ) (state : S)
          → switch n 2 mem len pos state ≡ string_case alloc (λ v. put v state) 2 mem len pos)
      → Consumes switch (string_bytes n value) (λ s. put (kept value (get s)) s)
  text-Consumes alloc n get put value grants key text same is_case =
      Consumes-eq (change value)
        (string_field-Consumes switch alloc n put value grants key text is_case)
    where
      change : (v : CString) (s : S) → stored v put s ≡ put (kept v (get s)) s
      change none s = rw same
      change (some []) s = rw same
      change (some (c ∷ t)) s = refl

  -- `put` is applied to the value as the reader converts it, by a cast that keeps it.
  pub word-Consumes :
      (n : ℕ) (convert : ℕ → ℕ) (get : S → ℕ) (put : ℕ → S → S) (value : ℕ)
      → IsKey n 0
      → value < 2 ^ 64
      → convert value ≡ value
      → ((s : S) → put (get s) s ≡ s)
      → ((mem : Bytes) (len pos : ℕ) (state : S)
          → switch n 0 mem len pos state ≡ varint_case (λ v. put (convert v) state) 0 mem len pos)
      → Consumes switch
          (only (not (value == 0)) (varint_field_bytes n value))
          (λ s. put (kept_word value (get s)) s)
  word-Consumes n convert get put value key word exact same is_case = Consumes-eq change (
      Consumes-only switch (not (value == 0))
        (varint_field-Consumes switch n (λ v. put (convert v)) value key word is_case))
    where
      change :
          (s : S)
          → (if not (value == 0) then put (convert value) s else s)
            ≡ put (kept_word value (get s)) s
      change s = elim (Bool-cases (not (value == 0))) [
        | inl e ↦ rw (e, exact)
        | inr e ↦ rw (e, same)
      ]

  pub flag-Consumes :
      (n : ℕ) (get : S → Bool) (put : Bool → S → S) (value : Bool)
      → IsKey n 0
      → ((s : S) → put (get s) s ≡ s)
      → ((mem : Bytes) (len pos : ℕ) (state : S)
          → switch n 0 mem len pos state
            ≡ varint_case (λ v. put (not (v == 0)) state) 0 mem len pos)
      → Consumes switch (only value (varint_field_bytes n 1)) (λ s. put (value || get s) s)
  flag-Consumes n get put value key same is_case = Consumes-eq (change value) (
      Consumes-only switch value
        (varint_field-Consumes switch n (λ v. put (not (v == 0))) 1 key (omega arith) is_case))
    where
      change : (b : Bool) (s : S) → (if b then put true s else s) ≡ put (b || get s) s
      change true s = refl
      change false s = rw same

  pub number-Consumes :
      (n : ℕ) (get : S → Double) (put : Double → S → S) (value : Double)
      → IsKey n 1
      → IsDouble value
      → ((s : S) → put (get s) s ≡ s)
      → ((mem : Bytes) (len pos : ℕ) (state : S)
          → switch n 1 mem len pos state ≡ double_case (λ v. put v state) 1 mem len pos)
      → Consumes switch
          (only (not (is_zero value)) (double_field_bytes n value))
          (λ s. put (kept_double value (get s)) s)
  number-Consumes n get put value key word same is_case = Consumes-eq change (
      Consumes-only switch (not (is_zero value))
        (double_field-Consumes switch n put value key word is_case))
    where
      change :
          (s : S)
          → (if not (is_zero value) then put value s else s) ≡ put (kept_double value (get s)) s
      change s = elim (Bool-cases (not (is_zero value))) [ inl e ↦ rw e | inr e ↦ rw (e, same) ]
