-- ===== src/Decode/Safety.antt =====
-- The readers of `Decode` stay inside an object that holds as many bytes as are claimed, whatever the
-- bytes are, and where no length wraps around they move on.
pub mod Cases
use smartcity.Prelude.{
  ℕ, zero, suc, ◌+◌, ◌-◌, ◌%◌, ◌^◌, ◌≤◌, ◌<◌, ◌≡◌, ◌≢◌, refl, bit_and, Bool, true, false, ◌&&◌,
  ◌||◌, [], ◌∷◌, Bytes, length, take, drop, length-drop, ltb, leb, le→ltb, ◌==◌, if◌then◌else◌,
  arith, Bool-cases, inl, inr, ◌⊎◌,
}
use smartcity.Outcome.{Outcome, ok, rejected, fault, stuck, ◌>>=◌}
use smartcity.Buffer.{size_mod}
use smartcity.Double.{Double}
use smartcity.Encode.{CString}
use smartcity.Decode.{
  Switch, scan, read_varint, read_key, read_length_delimited, read_fixed64_double, skip_field,
  smart_dup_slice, string_case, varint_case, double_case, unknown_case, field_loop,
}

-- No access outside, `W` where the rounds are used up, and `P` of what was returned.
unfoldable pub Holds {ℓ} : Type 0 → {A : Type ℓ} → (A → Type 0) → Outcome A → Type 0
Holds W P (ok a) = P a
Holds W P rejected = Unit {0}
Holds W P stuck = W
Holds W P fault = ⊥

pub Holds→no_fault {ℓ} :
    {A : Type ℓ} (W : Type 0) (P : A → Type 0) (o : Outcome A) → Holds W P o → o ≢ fault
unfolding Holds
Holds→no_fault W P (ok a) h = λ e. cc
Holds→no_fault W P rejected h = λ e. cc
Holds→no_fault W P stuck h = λ e. cc
Holds→no_fault W P fault h = λ e. h

-- Where the rounds are not used up, there is an object or an early return.
pub Holds→ends {ℓ} :
    {A : Type ℓ} (P : A → Type 0) (o : Outcome A)
    → Holds ⊥ P o
    → ((a : A) × (o ≡ ok a)) ⊎ (o ≡ rejected)
unfolding Holds
Holds→ends P (ok a) h = inl (a, refl)
Holds→ends P rejected h = inr refl
Holds→ends P stuck h = absurd h
Holds→ends P fault h = absurd h

-- An allocator that refuses requests for nothing and for 2 ^ 62 bytes or more.
abbrev pub Limits : (ℕ → Bool) → Type 0
Limits alloc = (n : ℕ) → alloc n ≡ true → (0 < n) × (n < 2 ^ 62)

-- The object holds what is claimed of it.
abbrev pub Holding : Bytes → ℕ → Type 0
Holding mem len = (len ≤ length mem) × (len < 2 ^ 62)

-- Whether no field moves the cursor back: each field in turn, from the cursor on, is skipped as
-- skip_field skips it, up to the end, to a field that is refused, or to one that moves it back.
unfoldable pub forward : ℕ → Bytes → ℕ → ℕ → Bool
forward zero mem len pos = true
forward (suc rounds) mem len pos = elim (read_key mem len pos) [
  | ok (n, w, pos₁) ↦ elim (skip_field mem len pos₁ w) [
    | ok pos₂ ↦ leb pos₁ pos₂ && forward rounds mem len pos₂
    | rejected ↦ true
    | fault ↦ true
    | stuck ↦ true
  ]
  | rejected ↦ true
  | fault ↦ true
  | stuck ↦ true
]

-- No field claims a length that wraps the cursor around.
abbrev pub IsForward : Bytes → ℕ → Type 0
IsForward mem len = forward len mem len 0 ≡ true

-- A pair whose cursor is not behind the end, and is where skip_field would have left it.
abbrev pub Kept {ℓ} : {A : Type ℓ} → Bytes → ℕ → ℕ → ℕ → A × ℕ → Type 0
Kept mem len w lo (a, pos) = (pos ≤ len) × (skip_field mem len lo w ≡ ok pos)

abbrev pub Moved {ℓ} : {A : Type ℓ} → ℕ → ℕ → A × ℕ → Type 0
Moved len lo (a, pos) = (pos ≤ len) × (lo < pos)

-- A slice that begins inside, and whose end, if it did not wrap around, is inside.
pub record IsSlice (pos len start n beyond : ℕ) : Type 0 where
  pub after : pos < start
  pub starts : start ≤ len
  pub ends : beyond ≤ len
  pub word : n < 2 ^ 64
  pub wraps : beyond ≡ (start + n) % 2 ^ 64

abbrev pub Sliced : ℕ → ℕ → ℕ × ℕ × ℕ → Type 0
Sliced pos len (start, n, beyond) = IsSlice pos len start n beyond

length-take : (n : ℕ) (xs : Bytes) → n ≤ length xs → length (take n xs) ≡ n
length-take zero xs h = refl
length-take (suc n) [] h = absurd (omega arith)
length-take (suc n) (x ∷ xs) h = omega (arith, length-take n xs (omega arith))

module _ (W : Type 0) where
  pub Holds-bind {ℓ κ} :
      {A : Type ℓ} {B : Type κ} (P : A → Type 0) (Q : B → Type 0) (o : Outcome A)
      (f : A → Outcome B)
      → Holds W P o
      → ((a : A) → P a → Holds W Q (f a))
      → Holds W Q (o >>= f)
  unfolding Holds
  Holds-bind P Q (ok a) f h k = k a h
  Holds-bind P Q rejected f h k = tt
  Holds-bind P Q stuck f h k = h
  Holds-bind P Q fault f h k = absurd h

  pub Holds-if {ℓ} :
      {A : Type ℓ} (P : A → Type 0) (b : Bool) (x y : Outcome A)
      → Holds W P x
      → Holds W P y
      → Holds W P (if b then x else y)
  Holds-if P true x y h k = h
  Holds-if P false x y h k = k

  pub Holds-ok {ℓ} : {A : Type ℓ} (P : A → Type 0) (a : A) → P a → Holds W P (ok a)
  unfolding Holds
  Holds-ok P a h = h

  pub Holds-rejected {ℓ} : {A : Type ℓ} (P : A → Type 0) → Holds W P rejected
  unfolding Holds
  Holds-rejected P = tt

  -- What is returned, known by its equation.
  pub Holds-know {ℓ} :
      {A : Type ℓ} (P Q : A → Type 0) (o : Outcome A)
      → Holds W P o
      → ((a : A) → o ≡ ok a → P a → Q a)
      → Holds W Q o
  unfolding Holds
  Holds-know P Q (ok a) h k = k a refl h
  Holds-know P Q rejected h k = tt
  Holds-know P Q stuck h k = h
  Holds-know P Q fault h k = h

  pub scan-Holds :
      (bytes : Bytes) (len lo pos result shift : ℕ)
      → len ≤ pos + length bytes
      → lo ≤ pos
      → Holds W (Moved len lo) (scan bytes len pos result shift)
  unfolding scan Holds
  scan-Holds [] len lo pos result shift h k =
      let over : ltb pos len ≡ false = ground arith in rw over tt
  scan-Holds (byte ∷ rest) len lo pos result shift h k =
      elim (Bool-cases (ltb pos len && ltb shift 64)) [
        | inr e ↦ rw e tt
        | inl e ↦ elim (Bool-cases (bit_and byte 0x80 == 0)) [
          | inl e' ↦ rw (e, e') (ground arith, omega arith)
          | inr e' ↦
              rw (e, e')
                (scan-Holds rest len lo (suc pos) _ (shift + 7) (omega arith) (omega arith))
        ]
      ]

  pub read_varint-Holds :
      (mem : Bytes) (len pos : ℕ)
      → Holding mem len
      → Holds W (Moved len pos) (read_varint mem len pos)
  unfolding read_varint
  read_varint-Holds mem len pos (room, small) =
      scan-Holds (drop pos mem) len pos pos 0 0 (rw (length-drop pos mem) (omega arith))
        (omega arith)

  pub read_key-Holds :
      (mem : Bytes) (len pos : ℕ)
      → Holding mem len
      → Holds W (λ t. (t.2 ≤ len) × (pos < t.2)) (read_key mem len pos)
  unfolding read_key
  read_key-Holds mem len pos h =
      Holds-bind (Moved len pos) _ (read_varint mem len pos) _ (read_varint-Holds mem len pos h)
        (λ (key, pos') moved. unfold Holds in moved)

  pub slice_end :
      (pos len n pos' : ℕ)
      → pos' ≤ len
      → pos < pos'
      → Holds W (Sliced pos len) (
          if ltb (size_mod - 1) n || ltb len ((pos' + n) % size_mod)
          then rejected
          else ok (pos', n, (pos' + n) % size_mod))
  unfolding Holds
  slice_end pos len n pos' inside later =
      elim (Bool-cases (ltb (size_mod - 1) n || ltb len ((pos' + n) % size_mod))) [
        | inl e ↦ rw e tt
        | inr e ↦ rw e (record {
          after = later;
          starts = inside;
          ends = ground arith;
          word = ground arith;
          wraps = refl;
        })
      ]

  pub read_length_delimited-Holds :
      (mem : Bytes) (len pos : ℕ)
      → Holding mem len
      → Holds W (Sliced pos len) (read_length_delimited mem len pos)
  unfolding read_length_delimited
  read_length_delimited-Holds mem len pos h =
      Holds-bind (Moved len pos) _ (read_varint mem len pos) _ (read_varint-Holds mem len pos h)
        (λ (n, pos') (inside, later). slice_end pos len n pos' inside later)

  pub smart_dup_slice-Holds :
      (alloc : ℕ → Bool) (mem : Bytes) (pos len start n beyond : ℕ)
      → Limits alloc
      → Holding mem len
      → IsSlice pos len start n beyond
      → Holds W (λ t. Unit {0}) (smart_dup_slice alloc mem start n)
  unfolding smart_dup_slice Holds
  smart_dup_slice-Holds alloc mem pos len start n beyond limits (room, small) slice =
      elim (Bool-cases (alloc ((n + 1) % size_mod))) [
        | inr e ↦ rw e tt
        | inl e ↦
            let (some_room, bound) = limits ((n + 1) % size_mod) e in
            let inside : ltb (length (drop start mem)) n ≡ false =
              rw (length-drop start mem)
                (fits (length mem) pos len start n beyond room small slice some_room bound) in
            rw (e, inside) tt
      ]
    where
      fits :
          (total pos len start n beyond : ℕ)
          → len ≤ total
          → len < 2 ^ 62
          → IsSlice pos len start n beyond
          → 0 < (n + 1) % 2 ^ 64
          → (n + 1) % 2 ^ 64 < 2 ^ 62
          → ltb (total - start) n ≡ false
      fits total pos len start n beyond room small slice some_room bound =
          let short : n < 2 ^ 62 = omega (arith, slice.word) in
          let whole : start + n ≤ len = omega (arith, slice.wraps, slice.ends, slice.starts) in
          le→ltb (total - start) n (omega arith)

  pub read_fixed64_double-Holds :
      (mem : Bytes) (len pos : ℕ)
      → Holding mem len
      → pos ≤ len
      → Holds W
          (λ t. Moved len pos t × (skip_field mem len pos 1 ≡ ok t.1))
          (read_fixed64_double mem len pos)
  unfolding read_fixed64_double skip_field Holds
  read_fixed64_double-Holds mem len pos (room, small) inside =
      elim (Bool-cases (ltb len ((pos + 8) % size_mod))) [
        | inl e ↦ rw e tt
        | inr e ↦
            let next : (pos + 8) % size_mod ≤ len = ground arith in
            let later : pos < (pos + 8) % size_mod = omega arith in
            let there : 8 ≤ length (drop pos mem) = rw (length-drop pos mem) (omega arith) in
            let eight : (length (take 8 (drop pos mem)) == 8) ≡ true =
              rw (length-take 8 (drop pos mem) there) in
            rw (e, eight) ((next, later), refl)
      ]

  -- The cursor moves by `width`, if that stays inside.
  pub move-Holds :
      (len width pos : ℕ)
      → pos ≤ len
      → len < 2 ^ 62
      → width < 2 ^ 62
      → Holds W
          (λ p. (p ≤ len) × (pos ≤ p))
          (if ltb len ((pos + width) % size_mod) then rejected else ok ((pos + width) % size_mod))
  unfolding Holds
  move-Holds len width pos inside small narrow =
      elim (Bool-cases (ltb len ((pos + width) % size_mod))) [
        | inl e ↦ rw e tt
        | inr e ↦ rw e (ground arith, omega arith)
      ]
