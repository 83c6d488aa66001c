-- ===== src/Clock/Timestamp.antt =====
-- The timestamps of smart_iso_utc_timestamp in 2_c/smartcity_common.c as texts.
use smartcity.Prelude.{
  ℕ, zero, suc, ◌+◌, ◌-◌, ◌/◌, ◌%◌, ◌^◌, ◌<◌, ◌≡◌, refl, some, none, Option, [], ◌∷◌, ◌++◌, Bytes,
  All, All-append, All-take, length, length-take_le, take, codes, ltb, Bool-cases, inl, inr, arith,
}
use smartcity.Csv.Rows.{digits}
use smartcity.Clock.{
  Tm, zeros, to_width, zero_padded, iso_text, smart_iso_utc_timestamp, iso_timestamp,
}

abbrev IsPlainCode : ℕ → Type 0
IsPlainCode c = 0 < c

abbrev IsPlain : Bytes → Type 0
IsPlain s = All IsPlainCode s

digits-IsPlain : (rounds n : ℕ) → IsPlain (digits rounds n)
unfolding digits
digits-IsPlain zero n = tt
digits-IsPlain (suc rounds) n = elim (Bool-cases (ltb n 10)) [
  | inl e ↦ rw e (omega arith, tt)
  | inr e ↦ rw e (
      All-append IsPlainCode (digits rounds (n / 10)) ((48 + n % 10) ∷ [])
        (digits-IsPlain rounds (n / 10)) (omega arith, tt))
]

zeros-IsPlain : (n : ℕ) → IsPlain (zeros n)
unfolding zeros
zeros-IsPlain zero = tt
zeros-IsPlain (suc n) = (omega arith, zeros-IsPlain n)

padded-IsPlain : (width n : ℕ) → IsPlain (to_width width (digits 20 n))
unfolding to_width
padded-IsPlain width n =
    All-append IsPlainCode (zeros (width - length (digits 20 n))) (digits 20 n) (zeros-IsPlain _)
      (digits-IsPlain 20 n)

zero_padded-IsPlain : (width n : ℕ) → IsPlain (zero_padded width n)
unfolding zero_padded
zero_padded-IsPlain width n = elim (Bool-cases (ltb n (2 ^ 31))) [
  | inl e ↦ rw e (padded-IsPlain width n)
  | inr e ↦ rw e (omega arith, padded-IsPlain (width - 1) (2 ^ 32 - n))
]

-- A field, what separates it, and the fields behind it.
field-IsPlain :
    (width n c : ℕ) (s : Bytes) → 0 < c → IsPlain s → IsPlain (zero_padded width n ++ (c ∷ s))
field-IsPlain width n c s h k =
    All-append IsPlainCode (zero_padded width n) (c ∷ s) (zero_padded-IsPlain width n) (h, k)

iso_text-IsPlain : (tm : Tm) → IsPlain (iso_text tm)
unfolding iso_text
iso_text-IsPlain tm =
    let sec = zero_padded 2 tm.tm_sec ++ (90 ∷ []) in
    let min = zero_padded 2 tm.tm_min ++ (58 ∷ sec) in
    let hour = zero_padded 2 tm.tm_hour ++ (58 ∷ min) in
    let day = zero_padded 2 tm.tm_mday ++ (84 ∷ hour) in
    let month = (tm.tm_mon + 1) % 2 ^ 32 in
    field-IsPlain 4 ((tm.tm_year + 1900) % 2 ^ 32) 45 (zero_padded 2 month ++ (45 ∷ day))
      (omega arith)
      (field-IsPlain 2 month 45 day (omega arith) (
        field-IsPlain 2 tm.tm_mday 84 hour (omega arith) (
          field-IsPlain 2 tm.tm_hour 58 min (omega arith) (
            field-IsPlain 2 tm.tm_min 58 sec (omega arith)
              (field-IsPlain 2 tm.tm_sec 90 [] (omega arith) tt)))))

epoch-IsPlain : IsPlain (codes "1970-01-01T00:00:00Z")
epoch-IsPlain = (
  omega arith,
  (
    omega arith,
    (
      omega arith,
      (
        omega arith,
        (
          omega arith,
          (
            omega arith,
            (
              omega arith,
              (
                omega arith,
                (
                  omega arith,
                  (
                    omega arith,
                    (
                      omega arith,
                      (
                        omega arith,
                        (
                          omega arith,
                          (
                            omega arith,
                            (
                              omega arith,
                              (
                                omega arith,
                                (omega arith, (omega arith, (omega arith, (omega arith, tt)))),
                              ),
                            ),
                          ),
                        ),
                      ),
                    ),
                  ),
                ),
              ),
            ),
          ),
        ),
      ),
    ),
  ),
)

-- For any answer of gmtime_r and a buffer with room, what it holds is a text without NUL, with room for
-- the one behind it.
pub iso_timestamp-IsPlain :
    (tm : Option Tm) (size : ℕ)
    → 0 < size
    → (timestamp : Bytes) × (iso_timestamp tm size ≡ some timestamp)
      × All (λ c. 0 < c) timestamp
      × (length timestamp < size)
unfolding iso_timestamp smart_iso_utc_timestamp
iso_timestamp-IsPlain tm zero h = absurd (omega arith)
iso_timestamp-IsPlain none (suc room) h = (
  take room (codes "1970-01-01T00:00:00Z"),
  refl,
  All-take IsPlainCode room _ epoch-IsPlain,
  omega (arith, length-take_le room (codes "1970-01-01T00:00:00Z")),
)
iso_timestamp-IsPlain (some tm) (suc room) h = (
  take room (iso_text tm),
  refl,
  All-take IsPlainCode room _ (iso_text-IsPlain tm),
  omega (arith, length-take_le room (iso_text tm)),
)
