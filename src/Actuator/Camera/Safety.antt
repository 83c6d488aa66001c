-- ===== src/Actuator/Camera/Safety.antt =====
-- What the camera keeps to, whatever commands it is sent.
use smartcity.Prelude.{
  length-take_le, not, ◌&&◌, ℕ, ◌≤◌, ◌<◌, ◌≡◌, refl, Bool, false, ◌⊎◌, none, some, [], ◌∷◌, take,
  length, arith,
}
use smartcity.Encode.{CString}
use smartcity.CString.{smart_dup_cstring, or_empty}
use smartcity.Message.{ControlCommand, ok_status, error_status}
use smartcity.Actuator.Camera.{
  CameraState, initial_camera, is_blank, build_state_text, run_command, handle_command,
}

-- It records only while it is on, and its direction is a text that the 64 bytes hold with the NUL.
pub record IsCamera (s : CameraState) : Type 0 where
  pub recording : (s.recording && not s.active) ≡ false
  pub direction : 1 ≤ length s.direction
  pub short : length s.direction < 64

nonblank-take : (t : CString) → is_blank t ≡ false → 1 ≤ length (take 63 (or_empty t))
unfolding is_blank
nonblank-take none h = absurd cc
nonblank-take (some []) h = absurd cc
nonblank-take (some (x ∷ c)) h = omega arith

run_command-recording :
    (s : CameraState) (cmd : ControlCommand)
    → (s.recording && not s.active) ≡ false
    → ((run_command s cmd).2.recording && not (run_command s cmd).2.active) ≡ false
unfolding run_command
run_command-recording s cmd h = ground arith

run_command-direction :
    (s : CameraState) (cmd : ControlCommand)
    → 1 ≤ length s.direction
    → 1 ≤ length (run_command s cmd).2.direction
unfolding run_command
run_command-direction s cmd h = ground (arith, nonblank-take cmd.text_value)

run_command-short :
    (s : CameraState) (cmd : ControlCommand)
    → length s.direction < 64
    → length (run_command s cmd).2.direction < 64
unfolding run_command
run_command-short s cmd h = ground (arith, length-take_le 63 (or_empty cmd.text_value))

-- A command leaves a camera that records only while it is on, and whose direction is not empty and
-- fits its 64 bytes.
pub handle_command-IsCamera :
    (alloc : ℕ → Bool) (s : CameraState) (cmd : ControlCommand)
    → IsCamera s
    → IsCamera (handle_command alloc s cmd).1
unfolding handle_command
handle_command-IsCamera alloc s cmd h = record {
  recording = run_command-recording s cmd h.recording;
  direction = run_command-direction s cmd h.direction;
  short = run_command-short s cmd h.short;
}

-- The states that commands lead to from the state that `main` sets.
pub data CameraReached (alloc : ℕ → Bool) : CameraState → Type 0 where
  start : CameraReached alloc initial_camera
  next :
      (s : CameraState) (cmd : ControlCommand)
      → CameraReached alloc s
      → CameraReached alloc (handle_command alloc s cmd).1

-- In every state that commands lead to, the camera records only while it is on, and its direction is
-- not empty and fits its 64 bytes.
pub CameraReached-IsCamera :
    (alloc : ℕ → Bool) (s : CameraState) → CameraReached alloc s → IsCamera s
CameraReached-IsCamera alloc _ start = record {
  recording = refl;
  direction = omega arith;
  short = omega arith;
}
CameraReached-IsCamera alloc _ (next s cmd before) =
    handle_command-IsCamera alloc s cmd (CameraReached-IsCamera alloc s before)

run_command-status :
    (s : CameraState) (cmd : ControlCommand)
    → ((run_command s cmd).0 ≡ ok_status)
      ⊎ (((run_command s cmd).0 ≡ error_status) × ((run_command s cmd).2 ≡ s))
unfolding run_command
run_command-status s cmd = ground arith

-- Each answer tells the new state, and its status is OK, or ERROR where the state is the old one.
pub camera_handle_command-reply :
    (alloc : ℕ → Bool) (s : CameraState) (cmd : ControlCommand)
    → let (r, s') = handle_command alloc s cmd in
      (r.is_active ≡ s'.active)
      × (r.state_text ≡ smart_dup_cstring alloc (some (build_state_text s')))
      × ((r.status ≡ ok_status) ⊎ ((r.status ≡ error_status) × (s' ≡ s)))
unfolding handle_command
camera_handle_command-reply alloc s cmd = (refl, refl, run_command-status s cmd)
