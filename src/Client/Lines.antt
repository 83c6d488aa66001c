-- ===== src/Client/Lines.antt =====
-- The lines that read_line of 2_c/client.c returns.
use smartcity.Prelude.{
  ℕ, zero, suc, ◌≤◌, ◌<◌, ◌||◌, some, none, Option, [], ◌∷◌, Bytes, All, length, ◌==◌, arith,
  Bool-cases, inl, inr,
}
use smartcity.Decode.{before_nul}
use smartcity.Client.Input.{line_of, fgets, keep_before, trim_newline, read_line}
use smartcity.Client.Menu.{input_size}

-- Bytes other than 0, at most 255 of them.
pub record IsLine (s : Bytes) : Type 0 where
  pub nonzero : All (λ c. 0 < c) s
  pub short : length s ≤ 255

line_of-length : (room : ℕ) (input : Bytes) → length (line_of room input).0 ≤ room
unfolding line_of
line_of-length zero input = omega arith
line_of-length (suc room) [] = omega arith
line_of-length (suc room) (c ∷ rest) = ground (arith, line_of-length room rest)

before_nul-length : (s : Bytes) → length (before_nul s) ≤ length s
unfolding before_nul
before_nul-length [] = omega arith
before_nul-length (c ∷ s) = ground (arith, before_nul-length s)

before_nul-nonzero : (s : Bytes) → All (λ c. 0 < c) (before_nul s)
unfolding before_nul
before_nul-nonzero [] = tt
before_nul-nonzero (c ∷ s) = elim (Bool-cases (c == 0)) [
  | inl e ↦ rw e tt
  | inr e ↦ rw e (ground arith, before_nul-nonzero s)
]

keep_before-length : (c : ℕ) (s : Bytes) → length (keep_before c s) ≤ suc (length s)
unfolding keep_before
keep_before-length c [] = ground arith
keep_before-length c (d ∷ s) = omega arith

keep_before-nonzero :
    (c : ℕ) (s : Bytes) → 0 < c → All (λ x. 0 < x) s → All (λ x. 0 < x) (keep_before c s)
unfolding keep_before
keep_before-nonzero c [] h k = elim (Bool-cases (c == 10 || c == 13)) [
  | inl e ↦ rw e tt
  | inr e ↦ rw e (h, tt)
]
keep_before-nonzero c (d ∷ s) h k = (h, k)

trim_newline-length : (s : Bytes) → length (trim_newline s) ≤ length s
unfolding trim_newline
trim_newline-length [] = omega arith
trim_newline-length (c ∷ s) =
    omega (arith, keep_before-length c (trim_newline s), trim_newline-length s)

trim_newline-nonzero : (s : Bytes) → All (λ c. 0 < c) s → All (λ c. 0 < c) (trim_newline s)
unfolding trim_newline
trim_newline-nonzero [] h = tt
trim_newline-nonzero (c ∷ s) h =
    keep_before-nonzero c (trim_newline s) h.0 (trim_newline-nonzero s h.1)

within : (a b c : ℕ) → a ≤ b → b ≤ c → c ≤ 255 → a ≤ 255
within a b c h k l = omega arith

-- The line that was read, if one was.
unfoldable pub Lined : Option (Bytes × Bytes) → Type 0
Lined none = Unit {0}
Lined (some (line, left)) = IsLine line

pub read_line-Lined : (input : Bytes) → Lined (read_line input_size input)
unfolding read_line fgets Lined
read_line-Lined [] = tt
read_line-Lined (c ∷ rest) = record {
  nonzero = trim_newline-nonzero (before_nul line) (before_nul-nonzero line);
  short =
      within _ _ _ (trim_newline-length (before_nul line)) (before_nul-length line)
        (line_of-length 255 (c ∷ rest));
}
  where
    line : Bytes
    line = (line_of 255 (c ∷ rest)).0
