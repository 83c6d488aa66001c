-- ===== src/Actuator/StreetLight/Safety.antt =====
-- What the street light keeps to, whatever commands it is sent.
use smartcity.Prelude.{ℕ, ◌≡◌, refl, Bool, false, ◌⊎◌, some, arith}
use smartcity.Double.{Arithmetic, is_nan, is_zero, is_negative, lt_double, double_100}
use smartcity.CString.{smart_dup_cstring}
use smartcity.Message.{ControlCommand, ok_status, error_status}
use smartcity.Actuator.StreetLight.{
  StreetState, initial_street, build_state_text, run_command, handle_command,
}

-- The brightness is not below 0 and not above 100.
pub record IsStreet (s : StreetState) : Type 0 where
  pub low : lt_double s.brightness 0 ≡ false
  pub high : lt_double double_100 s.brightness ≡ false

module _ (fp : Arithmetic) (alloc : ℕ → Bool) where
  run_command-low :
      (s : StreetState) (cmd : ControlCommand)
      → lt_double s.brightness 0 ≡ false
      → lt_double (run_command fp s cmd).2.brightness 0 ≡ false
  unfolding run_command
  run_command-low s cmd h = ground arith

  run_command-high :
      (s : StreetState) (cmd : ControlCommand)
      → lt_double double_100 s.brightness ≡ false
      → lt_double double_100 (run_command fp s cmd).2.brightness ≡ false
  unfolding run_command
  run_command-high s cmd h = ground arith

  -- A command leaves a brightness that is not below 0 and not above 100.
  pub handle_command-IsStreet :
      (s : StreetState) (cmd : ControlCommand)
      → IsStreet s
      → IsStreet (handle_command fp alloc s cmd).1
  unfolding handle_command
  handle_command-IsStreet s cmd h = record {
    low = run_command-low s cmd h.low;
    high = run_command-high s cmd h.high;
  }

  -- The states that commands lead to from the state that `main` sets.
  pub data StreetReached : StreetState → Type 0 where
    start : StreetReached initial_street
    next :
        (s : StreetState) (cmd : ControlCommand)
        → StreetReached s
        → StreetReached (handle_command fp alloc s cmd).1

  -- In every state that commands lead to, the brightness is not below 0 and not above 100.
  pub StreetReached-IsStreet : (s : StreetState) → StreetReached s → IsStreet s
  StreetReached-IsStreet _ start =
      unfold lt_double is_nan is_zero is_negative in record { low = refl; high = refl }
  StreetReached-IsStreet _ (next s cmd before) =
      handle_command-IsStreet s cmd (StreetReached-IsStreet s before)

  run_command-status :
      (s : StreetState) (cmd : ControlCommand)
      → ((run_command fp s cmd).0 ≡ ok_status)
        ⊎ (((run_command fp s cmd).0 ≡ error_status) × ((run_command fp s cmd).2 ≡ s))
  unfolding run_command
  run_command-status s cmd = ground arith

  -- Each answer tells the new state, and its status is OK, or ERROR where the state is the old one.
  pub street_handle_command-reply :
      (s : StreetState) (cmd : ControlCommand)
      → let (r, s') = handle_command fp alloc s cmd in
        (r.is_active ≡ s'.active)
        × (r.state_text ≡ smart_dup_cstring alloc (some (build_state_text fp s')))
        × ((r.status ≡ ok_status) ⊎ ((r.status ≡ error_status) × (s' ≡ s)))
  unfolding handle_command
  street_handle_command-reply s cmd = (refl, refl, run_command-status s cmd)
