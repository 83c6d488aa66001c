-- ===== src/Client/Input.antt =====
-- Lines and numbers that the user types: trim_newline, read_line, parse_int_line and
-- parse_double_line of 2_c/client.c, with fgets and strtol. `input` is what is still to be read.
use smartcity.Prelude.{
  ℕ, zero, suc, ◌+◌, ◌-◌, ◌*◌, ◌%◌, ◌^◌, Bool, true, false, ◌&&◌, ◌||◌, some, none, Option, [], ◌∷◌,
  Bytes, leb, ◌==◌, if◌then◌else◌,
}
use Prim.Native.Nat.{min}
use smartcity.Double.{Double}
use smartcity.Decode.{before_nul, to_u32}

-- As many bytes as there is room for, or those up to the end of the line, and the others.
unfoldable pub line_of : ℕ → Bytes → Bytes × Bytes
line_of zero input = ([], input)
line_of (suc room) [] = ([], [])
line_of (suc room) (c ∷ rest) =
    let (more, left) = line_of room rest in if c == 10 then (c ∷ [], rest) else (c ∷ more, left)

-- none is NULL.
unfoldable pub fgets : ℕ → Bytes → Option (Bytes × Bytes)
unfolding line_of
fgets size [] = none
fgets size (c ∷ rest) = some (line_of (size - 1) (c ∷ rest))

-- A byte before what is left of the text behind it.
unfoldable pub keep_before : ℕ → Bytes → Bytes
keep_before c [] = if c == 10 || c == 13 then [] else c ∷ []
keep_before c (d ∷ s) = c ∷ d ∷ s

unfoldable pub trim_newline : Bytes → Bytes
unfolding keep_before
trim_newline [] = []
trim_newline (c ∷ s) = keep_before c (trim_newline s)

unfoldable pub read_line : ℕ → Bytes → Option (Bytes × Bytes)
unfolding fgets trim_newline before_nul
read_line size input = elim (fgets size input) [
  | none ↦ none
  | some (line, left) ↦ some (trim_newline (before_nul line), left)
]

unfoldable pub skip_space : Bytes → Bytes
skip_space [] = []
skip_space (c ∷ s) =
    let rest = skip_space s in if c == 32 || (leb 9 c && leb c 13) then rest else c ∷ s

-- The number of the digits at the start of a text, behind `value`, and the rest of it; none where
-- there is no digit and none came before.
unfoldable pub digits_of : Bool → ℕ → Bytes → Option (ℕ × Bytes)
digits_of before value [] = if before then some (value, []) else none
digits_of before value (c ∷ s) =
    let more = digits_of true (value * 10 + (c - 48)) s in
    let over : Option (ℕ × Bytes) = if before then some (value, c ∷ s) else none in
    if leb 48 c && leb c 57 then more else over

-- The value as the bits of a long of 64 bits, at its bound where it is beyond.
unfoldable pub as_long : Bool → ℕ → ℕ
as_long negative v = if negative then (2 ^ 64 - min v (2 ^ 63)) % 2 ^ 64 else min v (2 ^ 63 - 1)

unfoldable pub signed : Bool → Option (ℕ × Bytes) → Option (ℕ × Bytes)
unfolding as_long
signed negative none = none
signed negative (some (v, rest)) = some (as_long negative v, rest)

unfoldable pub after_space : Bytes → Option (ℕ × Bytes)
unfolding signed digits_of
after_space [] = none
after_space (c ∷ s) =
    if c == 45
    then signed true (digits_of false 0 s)
    else if c == 43
    then signed false (digits_of false 0 s)
    else signed false (digits_of false 0 (c ∷ s))

-- `strtol(text, &end, 10)`, and what `end` points to; none where `end` is `text`.
unfoldable pub strtol : Bytes → Option (ℕ × Bytes)
unfolding skip_space after_space
strtol text = after_space (skip_space text)

-- The number, if it ends where the line ends.
unfoldable pub whole {ℓ} : {A : Type ℓ} → Option (A × Bytes) → Option A
whole none = none
whole (some (v, [])) = some v
whole (some (v, c ∷ rest)) = none

-- An `int`, from the low half of the long.
unfoldable pub parse_int_line : Bytes → Option ℕ
unfolding strtol whole
parse_int_line [] = none
parse_int_line (c ∷ s) = elim (whole (strtol (c ∷ s))) [ none ↦ none | some v ↦ some (to_u32 v) ]

-- `strtod` is given as `strtol` is written: the value and what `end` points to.
unfoldable pub parse_double_line : (Bytes → Option (Double × Bytes)) → Bytes → Option Double
unfolding whole
parse_double_line strtod [] = none
parse_double_line strtod (c ∷ s) = whole (strtod (c ∷ s))
