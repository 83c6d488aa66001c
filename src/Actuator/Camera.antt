-- ===== src/Actuator/Camera.antt =====
-- The camera of 2_c/actuator_camera.c.
pub mod Safety
use smartcity.Prelude.{
  ℕ, Bool, true, false, not, some, Option, none, [], ◌∷◌, ◌++◌, Bytes, take, codes, ◌==◌,
  if◌then◌else◌,
}
use smartcity.Encode.{CString}
use smartcity.CString.{smart_dup_cstring, or_empty}
use smartcity.Message.{
  ControlCommand, ControlResponse, DiscoveryResponse, zero_control_response, activate, deactivate,
  camera_start_recording, camera_stop_recording, camera_set_direction, camera, ok_status,
  error_status,
}
use smartcity.Outcome.{Outcome}
use smartcity.Actuator.{describe, serve_command, answer_discovery}

pub record CameraState : Type 0 where
  pub active : Bool
  pub recording : Bool
  pub direction : Bytes

-- What `main` sets.
abbrev pub initial_camera : CameraState
initial_camera = record { active = true; recording = false; direction = codes "Norte" }

-- `snprintf` into 128 bytes.
unfoldable pub build_state_text : CameraState → Bytes
build_state_text s = take 127 (
    (if s.active then codes "ligada" else codes "desligada")
    ++ (codes "; "
        ++ ((if s.recording then codes "gravando" else codes "sem gravacao")
            ++ (codes "; direcao=" ++ s.direction))))

-- `!text || text[0] == '\0'`
unfoldable pub is_blank : CString → Bool
is_blank none = true
is_blank (some []) = true
is_blank (some (c ∷ s)) = false

-- The status, the message and the new state; `strncpy` keeps 63 bytes.
unfoldable pub run_command : CameraState → ControlCommand → ℕ × Bytes × CameraState
unfolding is_blank
run_command s cmd =
    let turned : CameraState = record s { direction = take 63 (or_empty cmd.text_value) } in
    if cmd.command_type == activate
    then (ok_status, codes "Camera ligada", record s { active = true })
    else if cmd.command_type == deactivate
    then (ok_status, codes "Camera desligada", record s { active = false; recording = false })
    else if cmd.command_type == camera_start_recording
    then (if not s.active
        then (error_status, codes "Erro no comando: Camera desligada", s)
        else (ok_status, codes "Gravacao iniciada", record s { recording = true }))
    else if cmd.command_type == camera_stop_recording
    then (ok_status, codes "Gravacao parada", record s { recording = false })
    else if cmd.command_type == camera_set_direction
    then (if is_blank cmd.text_value
        then (error_status, codes "Erro no comando: Direcao obrigatoria", s)
        else (ok_status, take 127 (codes "Direcao alterada para " ++ turned.direction), turned))
    else (error_status, codes "Erro no comando: Comando invalido para camera", s)

unfoldable pub handle_command :
    (ℕ → Bool) → CameraState → ControlCommand → ControlResponse × CameraState
unfolding run_command build_state_text
handle_command alloc s cmd =
    let (status, message, s') = run_command s cmd in
    (
      record zero_control_response {
        status = status;
        message = smart_dup_cstring alloc (some message);
        sensor_id = smart_dup_cstring alloc (some (codes "camera-1"));
        is_active = s'.active;
        state_text = smart_dup_cstring alloc (some (build_state_text s'));
      },
      s',
    )

-- What the camera answers to a discovery request.
unfoldable pub discovery : (ℕ → Bool) → CameraState → CString → DiscoveryResponse
unfolding build_state_text
discovery alloc s local_ip =
    describe alloc (codes "camera-1") camera 9201 s.active (build_state_text s) local_ip

-- One pass of its `control_thread`, and of its `discovery_thread`.
unfoldable pub control_camera :
    (ℕ → Bool) → CameraState → Bytes → Outcome (Option Bytes × CameraState)
unfolding serve_command handle_command
control_camera alloc s raw = serve_command alloc (handle_command alloc) s raw

unfoldable pub discovery_camera :
    (ℕ → Bool) → CameraState → CString → Bytes → Outcome (Option (ℕ × Bytes))
unfolding answer_discovery discovery
discovery_camera alloc s local_ip raw = answer_discovery alloc (discovery alloc s local_ip) raw
