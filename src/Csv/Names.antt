-- ===== src/Csv/Names.antt =====
-- File names made of device ids: they fit, and leave no directory.
use smartcity.Prelude.{
  length-take_le, All-take, ℕ, zero, suc, ◌≤◌, ◌<◌, ◌≡◌, refl, true, some, [], ◌∷◌, Bytes, All,
  length, take, codes, ◌==◌, if◌then◌else◌, Bool-cases, inl, inr, arith,
}
use smartcity.Csv.{is_safe, underscore, safe_loop, safe_filename}

abbrev pub IsSafe : ℕ → Type 0
IsSafe c = is_safe c ≡ true

safe_loop-IsSafe : (s : Bytes) (room : ℕ) → All IsSafe (safe_loop s room)
unfolding safe_loop
safe_loop-IsSafe [] room = tt
safe_loop-IsSafe (c ∷ s) zero = tt
safe_loop-IsSafe (c ∷ s) (suc room) = (kept, safe_loop-IsSafe s room)
  where
    kept : IsSafe (if is_safe c then c else underscore)
    kept = elim (Bool-cases (is_safe c)) [ inl e ↦ rw e e | inr e ↦ rw e (unfold is_safe in refl) ]

length-safe_loop : (s : Bytes) (room : ℕ) → length (safe_loop s room) ≤ room
unfolding safe_loop
length-safe_loop [] room = omega arith
length-safe_loop (c ∷ s) zero = omega arith
length-safe_loop (c ∷ s) (suc room) = omega (arith, length-safe_loop s room)

unknown-IsSafe : All IsSafe (codes "unknown")
unknown-IsSafe = unfold is_safe in (refl, (refl, (refl, (refl, (refl, (refl, (refl, tt)))))))

pub safe_filename-IsSafe :
    (s : Bytes) (size : ℕ)
    → 0 < size
    → (name : Bytes) × (safe_filename (some s) size ≡ some name)
      × (length name < size)
      × All IsSafe name
unfolding safe_filename
safe_filename-IsSafe s zero h = absurd (omega arith)
safe_filename-IsSafe s (suc room) h = elim (Bool-cases (length (safe_loop s room) == 0)) [
  | inl e ↦ (
    take room (codes "unknown"),
    rw e,
    omega (arith, length-take_le room (codes "unknown")),
    All-take IsSafe room (codes "unknown") unknown-IsSafe,
  )
  | inr e ↦
      (safe_loop s room, rw e, omega (arith, length-safe_loop s room), safe_loop-IsSafe s room)
]
