-- ===== src/Csv.antt =====
-- The texts that the gateway writes to its CSV files: safe_filename and csv_quote_string of
-- 2_c/gateway.c.
pub mod Quoting
pub mod Names
pub mod Rows
pub mod Reading
use smartcity.Prelude.{
  ℕ, zero, suc, ◌+◌, ◌-◌, ◌*◌, ◌%◌, Bool, not, ◌&&◌, ◌||◌, some, none, Option, [], ◌∷◌, ◌++◌, Bytes,
  length, take, codes, leb, ◌==◌, if◌then◌else◌,
}
use smartcity.Buffer.{size_mod}
use smartcity.Encode.{CString}

abbrev pub quote : ℕ
quote = 34

abbrev pub underscore : ℕ
underscore = 95

-- `c >= lo && c <= hi`
abbrev pub between : ℕ → ℕ → ℕ → Bool
between lo hi c = leb lo c && leb c hi

-- A letter, a digit, `-` or `_`.
unfoldable pub is_safe : ℕ → Bool
is_safe c = between 97 122 c || between 65 90 c || between 48 57 c || c == 45 || c == underscore

-- The loop of `safe_filename`, with room for so many bytes before the NUL.
unfoldable pub safe_loop : Bytes → ℕ → Bytes
unfolding is_safe
safe_loop [] room = []
safe_loop (c ∷ s) zero = []
safe_loop (c ∷ s) (suc room) = (if is_safe c then c else underscore) ∷ safe_loop s room

-- What stands in `dst` afterwards; none where it has no room and is left alone.
unfoldable pub safe_filename : CString → ℕ → Option Bytes
unfolding safe_loop
safe_filename src zero = none
safe_filename none (suc room) = some []
safe_filename (some s) (suc room) =
    let name = safe_loop s room in
    some (if length name == 0 then take room (codes "unknown") else name)

-- The loop of `csv_quote_string`.
unfoldable pub double_quotes : Bytes → Bytes
double_quotes [] = []
double_quotes (c ∷ s) = let rest = c ∷ double_quotes s in if c == quote then quote ∷ rest else rest

-- The text of a C string, "" for NULL.
abbrev pub text_of : CString → Bytes
text_of none = []
text_of (some s) = s

-- `max_len`
unfoldable pub quoted_room : CString → ℕ
quoted_room src = (length (text_of src) * 2 + 3) % size_mod

unfoldable pub csv_quote_string : (ℕ → Bool) → CString → CString
unfolding double_quotes quoted_room
csv_quote_string alloc src =
    if not (alloc (quoted_room src))
    then none
    else some (quote ∷ (double_quotes (text_of src) ++ (quote ∷ [])))
