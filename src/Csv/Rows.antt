-- ===== src/Csv/Rows.antt =====
-- The rows that the gateway appends to its CSV files: persist_reading_csv of 2_c/gateway.c. What the
-- file system answers is given, and `fprintf` is written out but for `%.15g`.
use smartcity.Prelude.{
  ℕ, zero, suc, ◌+◌, ◌-◌, ◌/◌, ◌%◌, ◌^◌, Bool, some, none, Option, [], ◌∷◌, ◌++◌, Bytes, take,
  codes, ltb, if◌then◌else◌,
}
use smartcity.Double.{Arithmetic}
use smartcity.Encode.{CString}
use smartcity.CString.{or_empty}
use smartcity.Message.{SensorReading}
use smartcity.Csv.{safe_filename, csv_quote_string}

-- Whether a path names a file, and whether it can be opened for appending.
pub record Files : Type 0 where
  pub is_file : Bytes → Bool
  pub opens : Bytes → Bool

-- The decimal digits of a number below 10 ^ rounds, the highest first.
unfoldable pub digits : ℕ → ℕ → Bytes
digits zero n = []
digits (suc rounds) n =
    let higher = digits rounds (n / 10) ++ ((48 + n % 10) ∷ []) in
    if ltb n 10 then (48 + n) ∷ [] else higher

-- A word of so many bits as a signed number: `%d` and PRId64.
unfoldable pub signed_decimal : ℕ → ℕ → Bytes
unfolding digits
signed_decimal bits n =
    if ltb n (2 ^ (bits - 1)) then digits 20 n else 45 ∷ digits 20 (2 ^ bits - n)

abbrev pub header : Bytes
header =
    codes "sensor_id,sensor_type,metric,value,unit,timestamp_unix_ms,alert,alert_message"
    ++ (10 ∷ [])

abbrev pub max_path : ℕ
max_path = 4096

abbrev pub csv_root_dir : Bytes
csv_root_dir = codes "data\\csv"

abbrev pub comma : ℕ
comma = 44

module _ (alloc : ℕ → Bool) (fp : Arithmetic) where
  unfoldable pub row : Bytes → Bytes → Bytes → Bytes → SensorReading → Bytes
  unfolding signed_decimal
  row sensor_id_q metric_q unit_q alert_q r =
      sensor_id_q
      ++ (comma ∷ signed_decimal 32 r.sensor_type
          ++ (comma ∷ metric_q
              ++ (comma ∷ fp.format_g15 r.value
                  ++ (comma ∷ unit_q
                      ++ (comma ∷ signed_decimal 64 r.timestamp_unix_ms
                          ++ (comma ∷ (if r.alert then 49 else 48) ∷ comma ∷ alert_q
                              ++ (10 ∷ [])))))))

  -- The path and what is appended; none where nothing is.
  unfoldable pub persist_reading_csv : Files → SensorReading → Option (Bytes × Bytes)
  unfolding row safe_filename csv_quote_string
  persist_reading_csv files r =
      let path =
        take (max_path - 1)
          (csv_root_dir ++ (92 ∷ or_empty (safe_filename r.sensor_id 128) ++ codes ".csv")) in
      let quoted = λ (c : CString). csv_quote_string alloc (some (or_empty c)) in
      let rest : Option (Bytes × Bytes) = elim (quoted r.sensor_id) [
        | none ↦ none
        | some i ↦ elim (quoted r.metric) [
          | none ↦ none
          | some m ↦ elim (quoted r.unit) [
            | none ↦ none
            | some u ↦ elim (quoted r.alert_message) [
              | none ↦ none
              | some a ↦ some (path, (if files.is_file path then [] else header) ++ row i m u a r)
            ]
          ]
        ]
      ] in
      elim r.sensor_id [ none ↦ none | some _ ↦ (if files.opens path then rest else none) ]
