-- ===== src/Buffer/Growth.antt =====
-- The capacity loop: it ends, and with the least doubling that is enough.
use smartcity.Prelude.{
  ℕ, zero, suc, ◌*◌, ◌%◌, ◌^◌, ◌≤◌, ◌<◌, ◌≡◌, refl, ◌⊎◌, inl, inr, ltb, arith, Bool-cases,
}
use smartcity.Outcome.{ok}
use smartcity.Buffer.{grow, size_mod}
use native.Mathlib.Nat.{pow-suc}
use smartcity.Prelude.{ap}

-- For a request up to 2 ^ 63 and enough rounds the loop ends with a capacity that holds the
-- request, and that is either the one it began with or below twice the request.
pub grow_ends :
    (rounds c needed : ℕ)
    → 0 < c
    → needed ≤ 2 ^ 63
    → needed ≤ c * 2 ^ rounds
    → (r : ℕ) × (grow rounds c needed ≡ ok r) × (needed ≤ r) × ((r ≡ c) ⊎ (r < 2 * needed))
unfolding grow
grow_ends zero c needed pos small enough = (c, ground arith, omega arith, inl refl)
grow_ends (suc rounds) c needed pos small enough = elim (Bool-cases (ltb c needed)) [
  | inl more ↦
      let below : c < needed = ground arith in
      let (r, e, lo, hi) =
        grow_ends rounds (c * 2 % size_mod) needed (omega arith) small (wide below) in
      (r, rw more e, lo, inr (omega arith))
  | inr done ↦ (c, rw done, ground arith, inl refl)
]
  where
    wide : c < needed → needed ≤ c * 2 % size_mod * 2 ^ rounds
    wide below =
        let exact : c * 2 % size_mod ≡ c * 2 = omega arith in
        rw exact (omega (arith, ap (λ (t : ℕ). c * t) (pow-suc 2 rounds)))
