-- ===== src/Actuator/TrafficLight/Safety.antt =====
-- What the traffic light keeps to, whatever commands it is sent.
use smartcity.Prelude.{
  ℕ, ◌≡◌, refl, Bool, true, not, ◌&&◌, ◌⊎◌, inl, inr, some, Bytes, take, codes, str_eq→eq, arith,
}
use smartcity.CString.{smart_dup_cstring, or_empty}
use smartcity.Message.{ControlCommand, ok_status, error_status}
use smartcity.Actuator.TrafficLight.{
  TrafficState, initial_traffic, is_color, is_mode, build_state_text, run_command, handle_command,
}

-- A color and a mode that the light knows.
pub record IsTraffic (s : TrafficState) : Type 0 where
  pub color : is_color s.color ≡ true
  pub mode : is_mode s.mode ≡ true

one_of_three :
    (a b c : Bool) → not (not a && (not b && not c)) ≡ true → (a ≡ true) ⊎ ((b ≡ true) ⊎ (c ≡ true))
one_of_three a b c h = ground arith

one_of_two : (a b : Bool) → not (not a && not b) ≡ true → (a ≡ true) ⊎ (b ≡ true)
one_of_two a b h = ground arith

is_color-fits : (c : Bytes) → is_color c ≡ true → take 31 c ≡ c
unfolding is_color
is_color-fits c h = elim (one_of_three _ _ _ h) [
  | inl e ↦ let same = str_eq→eq c (codes "verde") e in rw same
  | inr (inl e) ↦ let same = str_eq→eq c (codes "amarelo") e in rw same
  | inr (inr e) ↦ let same = str_eq→eq c (codes "vermelho") e in rw same
]

is_mode-fits : (m : Bytes) → is_mode m ≡ true → take 31 m ≡ m
unfolding is_mode
is_mode-fits m h = elim (one_of_two _ _ h) [
  | inl e ↦ let same = str_eq→eq m (codes "automatico") e in rw same
  | inr e ↦ let same = str_eq→eq m (codes "manual") e in rw same
]

is_color-take : (c : Bytes) → is_color c ≡ true → is_color (take 31 c) ≡ true
is_color-take c h = rw (is_color-fits c h) h

is_mode-take : (m : Bytes) → is_mode m ≡ true → is_mode (take 31 m) ≡ true
is_mode-take m h = rw (is_mode-fits m h) h

run_command-color :
    (s : TrafficState) (cmd : ControlCommand)
    → is_color s.color ≡ true
    → is_color (run_command s cmd).2.color ≡ true
unfolding run_command
run_command-color s cmd h = ground (arith, is_color-take (or_empty cmd.text_value))

run_command-mode :
    (s : TrafficState) (cmd : ControlCommand)
    → is_mode s.mode ≡ true
    → is_mode (run_command s cmd).2.mode ≡ true
unfolding run_command
run_command-mode s cmd h =
    let manual : is_mode (codes "manual") ≡ true = unfold is_mode in refl in
    ground (arith, manual, is_mode-take (or_empty cmd.text_value))

-- A command leaves a known color and a known mode.
pub handle_command-IsTraffic :
    (alloc : ℕ → Bool) (s : TrafficState) (cmd : ControlCommand)
    → IsTraffic s
    → IsTraffic (handle_command alloc s cmd).1
unfolding handle_command
handle_command-IsTraffic alloc s cmd h = record {
  color = run_command-color s cmd h.color;
  mode = run_command-mode s cmd h.mode;
}

-- The states that commands lead to from the state that `main` sets.
pub data TrafficReached (alloc : ℕ → Bool) : TrafficState → Type 0 where
  start : TrafficReached alloc initial_traffic
  next :
      (s : TrafficState) (cmd : ControlCommand)
      → TrafficReached alloc s
      → TrafficReached alloc (handle_command alloc s cmd).1

run_command-status :
    (s : TrafficState) (cmd : ControlCommand)
    → ((run_command s cmd).0 ≡ ok_status)
      ⊎ (((run_command s cmd).0 ≡ error_status) × ((run_command s cmd).2 ≡ s))
unfolding run_command
run_command-status s cmd = ground arith

-- Each answer tells the new state, and its status is OK, or ERROR where the state is the old one.
pub traffic_handle_command-reply :
    (alloc : ℕ → Bool) (s : TrafficState) (cmd : ControlCommand)
    → let (r, s') = handle_command alloc s cmd in
      (r.is_active ≡ s'.active)
      × (r.state_text ≡ smart_dup_cstring alloc (some (build_state_text s')))
      × ((r.status ≡ ok_status) ⊎ ((r.status ≡ error_status) × (s' ≡ s)))
unfolding handle_command
traffic_handle_command-reply alloc s cmd = (refl, refl, run_command-status s cmd)
