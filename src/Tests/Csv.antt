-- ===== src/Tests/Csv.antt =====
-- The theorems on the CSV files, each on a text.
use smartcity.Prelude.{
  ◌+◌, ◌≤◌, ◌≡◌, refl, some, [], ◌∷◌, ◌++◌, Bytes, length, codes, false, true, if◌then◌else◌,
}
use smartcity.Csv.{quote, quoted_room, csv_quote_string}
use smartcity.Csv.Quoting.{quoted_field, csv_quote_string-field}
use smartcity.Csv.Rows.{Files, header, persist_reading_csv}
use smartcity.Csv.Reading.{fields, columns, csv_path, persist_reading_csv-columns}
use smartcity.Tests.{generous, toy, reading, lt_of_ltb}

quoting_example :
    (t : Bytes) × (csv_quote_string generous (some (codes "a\"b")) ≡ some (quote ∷ t))
    × (length (quote ∷ t) + 1 ≤ quoted_room (some (codes "a\"b")))
    × (quoted_field (t ++ (44 ∷ [])) ≡ some (codes "a\"b", 44 ∷ []))
quoting_example =
    csv_quote_string-field generous (some (codes "a\"b")) 44 [] refl (lt_of_ltb _ _ refl) refl

-- A disk on which every file can be opened and is new.
abbrev fresh_disk : Files
fresh_disk = record { is_file = λ path. false; opens = λ path. true }

persist_reading_csv-columns_example :
    (line : Bytes) × (persist_reading_csv generous toy fresh_disk reading
      ≡ some (
        csv_path (codes "t1"),
        (if fresh_disk.is_file (csv_path (codes "t1")) then [] else header) ++ line,
      ))
    × (fields 8 line ≡ some (columns generous toy reading))
persist_reading_csv-columns_example =
    persist_reading_csv-columns generous toy reading (λ n. refl) fresh_disk (λ path. refl)
      (codes "t1") refl ((refl, refl), ((refl, refl), ((refl, refl), tt)))
