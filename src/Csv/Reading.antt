-- ===== src/Csv/Reading.antt =====
-- The rows of persist_reading_csv in 2_c/gateway.c, read back by a reader of CSV.
use smartcity.Prelude.{
  ℕ, zero, suc, ◌+◌, ◌-◌, ◌/◌, ◌%◌, ◌^◌, ◌≡◌, refl, ap, ◌∙◌, Bool, true, false, ◌||◌, some, none,
  Option, List, [], ◌∷◌, ◌++◌, append_assoc, Bytes, All, All-append, take, codes, ltb, ◌==◌,
  if◌then◌else◌, Bool-cases, inl, inr, arith,
}
use smartcity.Prelude.{sym, take-all, length-append}
use smartcity.Double.{Arithmetic}
use smartcity.CString.{or_empty}
use smartcity.Message.{SensorReading}
use smartcity.Csv.{quote, double_quotes, csv_quote_string, safe_filename}
use smartcity.Csv.Names.{safe_filename-IsSafe}
use smartcity.Csv.Quoting.{quoted_field, quoted_field-double_quotes}
use smartcity.Csv.Rows.{
  Files, digits, signed_decimal, header, max_path, csv_root_dir, comma, row, persist_reading_csv,
}

abbrev newline : ℕ
newline = 10

abbrev ends : ℕ → Bool
ends c = c == comma || c == newline

-- A field without quotes, and what begins with the byte that ends it.
unfoldable pub plain_field : Bytes → Bytes × Bytes
plain_field [] = ([], [])
plain_field (c ∷ s) = let (f, rest) = plain_field s in if ends c then ([], c ∷ s) else (c ∷ f, rest)

unfoldable pub field : Bytes → Option (Bytes × Bytes)
unfolding plain_field quoted_field
field [] = some ([], [])
field (c ∷ s) = if c == quote then quoted_field s else some (plain_field (c ∷ s))

abbrev pub with_field : Bytes → Option (List Bytes) → Option (List Bytes)
with_field f none = none
with_field f (some fs) = some (f ∷ fs)

-- What stands behind the line break that ends a line; there is to be nothing.
abbrev pub last_field : Bytes → Bytes → Option (List Bytes)
last_field f [] = some (f ∷ [])
last_field f (c ∷ s) = none

unfoldable pub after_field :
    (Bytes → Option (List Bytes)) → Option (Bytes × Bytes) → Option (List Bytes)
after_field next none = none
after_field next (some (f, [])) = none
after_field next (some (f, d ∷ s)) =
    if d == comma then with_field f (next s) else if d == newline then last_field f s else none

-- The fields of a text that is one line, at most so many.
unfoldable pub fields : ℕ → Bytes → Option (List Bytes)
unfolding after_field field
fields zero s = none
fields (suc n) s = let next = fields n in after_field next (field s)

-- A byte that neither ends a field nor quotes.
abbrev pub IsFree : ℕ → Type 0
IsFree c = (ends c ≡ false) × ((c == quote) ≡ false)

plain_field-read :
    (f : Bytes) (d : ℕ) (rest : Bytes)
    → All IsFree f
    → ends d ≡ true
    → plain_field (f ++ (d ∷ rest)) ≡ (f, d ∷ rest)
unfolding plain_field
plain_field-read [] d rest h e = rw e
plain_field-read (c ∷ f) d rest h e = rw (h.0.0, plain_field-read f d rest h.1 e)

field-plain :
    (f : Bytes) (d : ℕ) (rest : Bytes)
    → All IsFree f
    → ends d ≡ true
    → field (f ++ (d ∷ rest)) ≡ some (f, d ∷ rest)
unfolding field
field-plain [] d rest h e =
    let other : (d == quote) ≡ false = ground arith in
    rw other (ap some (plain_field-read [] d rest h e))
field-plain (c ∷ f) d rest h e = rw h.0.1 (ap some (plain_field-read (c ∷ f) d rest h e))

field-quoted :
    (s : Bytes) (d : ℕ) (rest : Bytes)
    → ends d ≡ true
    → field (quote ∷ (double_quotes s ++ (quote ∷ [])) ++ (d ∷ rest)) ≡ some (s, d ∷ rest)
unfolding field
field-quoted s d rest e =
    let other : (d == quote) ≡ false = ground arith in
    rw append_assoc (quoted_field-double_quotes s d rest other)

fields-comma :
    (n : ℕ) (s f rest : Bytes)
    → field s ≡ some (f, comma ∷ rest)
    → fields (suc n) s ≡ with_field f (fields n rest)
unfolding fields after_field
fields-comma n s f rest e = ap (after_field (fields n)) e

fields-newline :
    (n : ℕ) (s f : Bytes) → field s ≡ some (f, newline ∷ []) → fields (suc n) s ≡ some (f ∷ [])
unfolding fields after_field
fields-newline n s f e = ap (after_field (fields n)) e

digit-IsFree : (n : ℕ) → ltb n 10 ≡ true → IsFree (48 + n)
digit-IsFree n h = (ground arith, ground arith)

pub digits-IsFree : (rounds n : ℕ) → All IsFree (digits rounds n)
unfolding digits
digits-IsFree zero n = tt
digits-IsFree (suc rounds) n = elim (Bool-cases (ltb n 10)) [
  | inl e ↦ rw e (digit-IsFree n e, tt)
  | inr e ↦ rw e (
      All-append IsFree (digits rounds (n / 10)) ((48 + n % 10) ∷ [])
        (digits-IsFree rounds (n / 10)) (digit-IsFree (n % 10) (ground arith), tt))
]

pub signed_decimal-IsFree : (bits n : ℕ) → All IsFree (signed_decimal bits n)
unfolding signed_decimal
signed_decimal-IsFree bits n = elim (Bool-cases (ltb n (2 ^ (bits - 1)))) [
  | inl e ↦ rw e (digits-IsFree 20 n)
  | inr e ↦ rw e ((refl, refl), digits-IsFree 20 (2 ^ bits - n))
]

abbrev quoted : Bytes → Bytes
quoted s = quote ∷ (double_quotes s ++ (quote ∷ []))

-- What `csv_quote_string` makes of any text.
csv_quote_string-quoted :
    (alloc : ℕ → Bool)
    → ((n : ℕ) → alloc n ≡ true)
    → (s : Bytes) → csv_quote_string alloc (some s) ≡ some (quoted s)
unfolding csv_quote_string
csv_quote_string-quoted alloc granted s = rw granted

quoted-then :
    (n : ℕ) (s rest : Bytes)
    → fields (suc n) (quoted s ++ (comma ∷ rest)) ≡ with_field s (fields n rest)
quoted-then n s rest = fields-comma n _ s rest (field-quoted s comma rest refl)

plain-then :
    (n : ℕ) (f rest : Bytes)
    → All IsFree f
    → fields (suc n) (f ++ (comma ∷ rest)) ≡ with_field f (fields n rest)
plain-then n f rest h = fields-comma n _ f rest (field-plain f comma rest h refl)

-- A flag of `%d`.
abbrev pub flag : Bool → Bytes
flag b = (if b then 49 else 48) ∷ []

flag-IsFree : (b : Bool) → All IsFree (flag b)
flag-IsFree true = ((refl, refl), tt)
flag-IsFree false = ((refl, refl), tt)

-- The file of a device: its id behind "data\csv\", cut to 127 bytes, each byte that is no letter,
-- digit, `-` or `_` replaced, and ".csv".
abbrev pub csv_path : Bytes → Bytes
csv_path id = codes "data\\csv\\" ++ (or_empty (safe_filename (some id) 128) ++ codes ".csv")

-- No path is cut to the room of `path`.
csv_path-whole :
    (id : Bytes)
    → take
        (max_path - 1)
        (csv_root_dir ++ (92 ∷ or_empty (safe_filename (some id) 128) ++ codes ".csv"))
      ≡ csv_path id
csv_path-whole id =
    let (name, e, short, _) = safe_filename-IsSafe id 128 (omega arith) in
    rw e (
      take-all (max_path - 1) (codes "data\\csv\\" ++ (name ++ codes ".csv"))
        (omega (arith, length-append name (codes ".csv"), short)))

module _ (alloc : ℕ → Bool) (fp : Arithmetic) (r : SensorReading) where
  -- The texts in the columns of a row.
  abbrev pub columns : List Bytes
  columns =
      or_empty r.sensor_id
      ∷ signed_decimal 32 r.sensor_type
      ∷ or_empty r.metric
      ∷ fp.format_g15 r.value
      ∷ or_empty r.unit
      ∷ signed_decimal 64 r.timestamp_unix_ms
      ∷ flag r.alert
      ∷ or_empty r.alert_message
      ∷ []

  row-fields :
      All IsFree (fp.format_g15 r.value)
      → fields 8 (
          row alloc fp
            (quoted (or_empty r.sensor_id))
            (quoted (or_empty r.metric))
            (quoted (or_empty r.unit))
            (quoted (or_empty r.alert_message))
            r)
        ≡ some columns
  unfolding row
  row-fields h =
      quoted-then 7 (or_empty r.sensor_id) _
      ∙ ap (with_field (or_empty r.sensor_id)) (
          plain-then 6 (signed_decimal 32 r.sensor_type) _ (signed_decimal-IsFree 32 r.sensor_type)
          ∙ ap (with_field (signed_decimal 32 r.sensor_type)) (
              quoted-then 5 (or_empty r.metric) _
              ∙ ap (with_field (or_empty r.metric)) (
                  plain-then 4 (fp.format_g15 r.value) _ h
                  ∙ ap (with_field (fp.format_g15 r.value)) (
                      quoted-then 3 (or_empty r.unit) _
                      ∙ ap (with_field (or_empty r.unit)) (
                          plain-then 2 (signed_decimal 64 r.timestamp_unix_ms) _
                            (signed_decimal-IsFree 64 r.timestamp_unix_ms)
                          ∙ ap (with_field (signed_decimal 64 r.timestamp_unix_ms)) (
                              plain-then 1 (flag r.alert) _ (flag-IsFree r.alert)
                              ∙ ap (with_field (flag r.alert)) (
                                  fields-newline 0 _ (or_empty r.alert_message)
                                    (field-quoted (or_empty r.alert_message) newline [] refl))))))))

  persist_reading_csv-row :
      ((n : ℕ) → alloc n ≡ true)
      → (files : Files) → ((path : Bytes) → files.opens path ≡ true)
      → (id : Bytes) → r.sensor_id ≡ some id
      → (path : Bytes)
      → take
          (max_path - 1)
          (csv_root_dir ++ (92 ∷ or_empty (safe_filename (some id) 128) ++ codes ".csv"))
        ≡ path
      → persist_reading_csv alloc fp files r
        ≡ some (
          path,
          (if files.is_file path then [] else header)
              ++ row alloc fp
                  (quoted (or_empty r.sensor_id))
                  (quoted (or_empty r.metric))
                  (quoted (or_empty r.unit))
                  (quoted (or_empty r.alert_message))
                  r,
        )
  unfolding persist_reading_csv
  persist_reading_csv-row granted files opens id named path e = rw (sym e) (
      rw (
        named,
        opens,
        csv_quote_string-quoted alloc granted id,
        csv_quote_string-quoted alloc granted (or_empty r.metric),
        csv_quote_string-quoted alloc granted (or_empty r.unit),
        csv_quote_string-quoted alloc granted (or_empty r.alert_message),
      ))

  -- Where the allocator refuses nothing, every path can be opened and `%.15g` prints a value without
  -- comma, quote and line break: for any reading with an id, whatever its texts contain, the file named
  -- by the id is appended one row, behind the header line if the path named no file. A reader of CSV,
  -- which takes a line break only behind the last column and nothing behind it, finds exactly eight
  -- columns in the row, the texts as they were and the numbers in decimal.
  pub persist_reading_csv-columns :
      ((n : ℕ) → alloc n ≡ true)
      → (files : Files) → ((path : Bytes) → files.opens path ≡ true)
      → (id : Bytes) → r.sensor_id ≡ some id
      → All IsFree (fp.format_g15 r.value)
      → (line : Bytes) × (persist_reading_csv alloc fp files r
          ≡ some (csv_path id, (if files.is_file (csv_path id) then [] else header) ++ line))
        × (fields 8 line ≡ some columns)
  persist_reading_csv-columns granted files opens id named h = (
    row alloc fp (quoted (or_empty r.sensor_id)) (quoted (or_empty r.metric))
        (quoted (or_empty r.unit)) (quoted (or_empty r.alert_message)) r,
    persist_reading_csv-row granted files opens id named (csv_path id) (csv_path-whole id),
    row-fields h,
  )
