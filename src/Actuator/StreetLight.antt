-- ===== src/Actuator/StreetLight.antt =====
-- The street light of 2_c/actuator_street_light.c.
pub mod Safety
use smartcity.Prelude.{
  ℕ, Bool, true, false, ◌||◌, some, Option, ◌++◌, Bytes, take, codes, ◌==◌, if◌then◌else◌,
}
use smartcity.Double.{Double, Arithmetic, lt_double, double_70, double_100}
use smartcity.Encode.{CString}
use smartcity.CString.{smart_dup_cstring}
use smartcity.Message.{
  ControlCommand, ControlResponse, DiscoveryResponse, zero_control_response, activate, deactivate,
  street_light_set_brightness, street_light, ok_status, error_status,
}
use smartcity.Outcome.{Outcome}
use smartcity.Actuator.{describe, serve_command, answer_discovery}

pub record StreetState : Type 0 where
  pub active : Bool
  pub brightness : Double

-- What `main` sets.
abbrev pub initial_street : StreetState
initial_street = record { active = true; brightness = double_70 }

module _ (fp : Arithmetic) where
  -- `snprintf` into 128 bytes.
  unfoldable pub build_state_text : StreetState → Bytes
  build_state_text s = take 127 (
      (if s.active then codes "ligado" else codes "desligado")
      ++ (codes "; brilho=" ++ (fp.format_f0 s.brightness ++ codes "%")))

  -- The status, the message and the new state.
  unfoldable pub run_command : StreetState → ControlCommand → ℕ × Bytes × StreetState
  run_command s cmd =
      if cmd.command_type == activate
      then (ok_status, codes "Poste ligado", record s { active = true })
      else if cmd.command_type == deactivate
      then (ok_status, codes "Poste desligado", record s { active = false })
      else if cmd.command_type == street_light_set_brightness
      then (if lt_double cmd.value 0 || lt_double double_100 cmd.value
          then (error_status, codes "Erro no comando: Brilho deve estar entre 0 e 100", s)
          else (
            ok_status,
            take 127 (codes "Brilho alterado para " ++ (fp.format_f0 cmd.value ++ codes "%")),
            record s { brightness = cmd.value },
          ))
      else (error_status, codes "Erro no comando: Comando invalido para poste", s)

  unfoldable pub handle_command :
      (ℕ → Bool) → StreetState → ControlCommand → ControlResponse × StreetState
  unfolding run_command build_state_text
  handle_command alloc s cmd =
      let (status, message, s') = run_command s cmd in
      (
        record zero_control_response {
          status = status;
          message = smart_dup_cstring alloc (some message);
          sensor_id = smart_dup_cstring alloc (some (codes "poste-1"));
          is_active = s'.active;
          state_text = smart_dup_cstring alloc (some (build_state_text s'));
        },
        s',
      )

  -- What the street light answers to a discovery request.
  unfoldable pub discovery : (ℕ → Bool) → StreetState → CString → DiscoveryResponse
  unfolding build_state_text
  discovery alloc s local_ip =
      describe alloc (codes "poste-1") street_light 9203 s.active (build_state_text s) local_ip

  -- One pass of its `control_thread`, and of its `discovery_thread`.
  unfoldable pub control_street :
      (ℕ → Bool) → StreetState → Bytes → Outcome (Option Bytes × StreetState)
  unfolding serve_command handle_command
  control_street alloc s raw = serve_command alloc (handle_command alloc) s raw

  unfoldable pub discovery_street :
      (ℕ → Bool) → StreetState → CString → Bytes → Outcome (Option (ℕ × Bytes))
  unfolding answer_discovery discovery
  discovery_street alloc s local_ip raw = answer_discovery alloc (discovery alloc s local_ip) raw
