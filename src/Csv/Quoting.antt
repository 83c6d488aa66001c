-- ===== src/Csv/Quoting.antt =====
-- Quoted texts are read back, and fit the room that is asked for.
use smartcity.Prelude.{
  ℕ, ◌+◌, ◌*◌, ◌^◌, ◌≤◌, ◌<◌, ◌≡◌, ◌≢◌, refl, ap, ◌∙◌, Bool, true, false, some, none, Option, [],
  ◌∷◌, ◌++◌, append_assoc, Bytes, length, length-append, ◌==◌, if◌then◌else◌, Bool-cases, inl, inr,
  arith,
}
use smartcity.Encode.{CString}
use smartcity.Csv.{quote, double_quotes, text_of, quoted_room, csv_quote_string}

abbrev pub prepend : ℕ → Option (Bytes × Bytes) → Option (Bytes × Bytes)
prepend c none = none
prepend c (some (s, rest)) = some (c ∷ s, rest)

-- A reader of CSV behind an opening quote: the field, and what follows its closing quote.
unfoldable pub quoted_field : Bytes → Option (Bytes × Bytes)
quoted_field [] = none
quoted_field (c ∷ []) = if c == quote then some ([], []) else none
quoted_field (c ∷ d ∷ s) =
    let plain = prepend c (quoted_field (d ∷ s)) in
    let doubled = prepend quote (quoted_field s) in
    if c == quote then (if d == quote then doubled else some ([], d ∷ s)) else plain

quoted_field-plain :
    (c : ℕ) (s : Bytes)
    → (c == quote) ≡ false
    → s ≢ []
    → quoted_field (c ∷ s) ≡ prepend c (quoted_field s)
quoted_field-plain c [] h ne = absurd (ne refl)
quoted_field-plain c (d ∷ s) h ne = unfold quoted_field in rw h

quoted_field-quote : (s : Bytes) → quoted_field (quote ∷ quote ∷ s) ≡ prepend quote (quoted_field s)
unfolding quoted_field
quoted_field-quote s = refl

append-nonempty : (s : Bytes) (c : ℕ) (rest : Bytes) → s ++ (c ∷ rest) ≢ []
append-nonempty [] c rest e = cc
append-nonempty (x ∷ s) c rest e = cc

pub quoted_field-double_quotes :
    (s : Bytes) (d : ℕ) (rest : Bytes)
    → (d == quote) ≡ false
    → quoted_field (double_quotes s ++ (quote ∷ d ∷ rest)) ≡ some (s, d ∷ rest)
unfolding double_quotes
quoted_field-double_quotes [] d rest h = unfold quoted_field in rw h
quoted_field-double_quotes (c ∷ s) d rest h = elim (Bool-cases (c == quote)) [
  | inl e ↦
      let same : c ≡ quote = ground arith in
      rw same (
        quoted_field-quote (double_quotes s ++ (quote ∷ d ∷ rest))
        ∙ ap (prepend quote) (quoted_field-double_quotes s d rest h))
  | inr e ↦ rw e (
      quoted_field-plain c _ e (append-nonempty (double_quotes s) quote (d ∷ rest))
      ∙ ap (prepend c) (quoted_field-double_quotes s d rest h))
]

length-double_quotes : (s : Bytes) → length (double_quotes s) ≤ length s * 2
unfolding double_quotes
length-double_quotes [] = omega arith
length-double_quotes (c ∷ s) = ground (arith, length-double_quotes s)

-- Where the allocator grants the room for a text below 2 ^ 62 bytes, the quoted text fits it with its
-- NUL, and a reader of CSV finds in it, before a byte that is no quote, an opening quote and the text.
pub csv_quote_string-field :
    (alloc : ℕ → Bool) (src : CString) (d : ℕ) (rest : Bytes)
    → alloc (quoted_room src) ≡ true
    → length (text_of src) < 2 ^ 62
    → (d == quote) ≡ false
    → (t : Bytes) × (csv_quote_string alloc src ≡ some (quote ∷ t))
      × (length (quote ∷ t) + 1 ≤ quoted_room src)
      × (quoted_field (t ++ (d ∷ rest)) ≡ some (text_of src, d ∷ rest))
csv_quote_string-field alloc src d rest grant small h = (
  double_quotes (text_of src) ++ (quote ∷ []),
  unfold csv_quote_string in rw grant,
  unfold quoted_room in
      omega (
        arith,
        length-double_quotes (text_of src),
        length-append (double_quotes (text_of src)) (quote ∷ []),
      ),
  rw append_assoc (quoted_field-double_quotes (text_of src) d rest h),
)
