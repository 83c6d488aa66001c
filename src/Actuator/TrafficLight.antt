-- ===== src/Actuator/TrafficLight.antt =====
-- The traffic light of 2_c/actuator_traffic_light.c.
pub mod Safety
use smartcity.Prelude.{
  ℕ, Bool, true, false, ◌&&◌, not, some, Option, ◌++◌, Bytes, take, codes, str_eq, ◌==◌,
  if◌then◌else◌,
}
use smartcity.Encode.{CString}
use smartcity.CString.{smart_dup_cstring, or_empty}
use smartcity.Message.{
  ControlCommand, ControlResponse, DiscoveryResponse, zero_control_response, activate, deactivate,
  traffic_light_set_color, traffic_light_set_mode, traffic_light, ok_status, error_status,
}
use smartcity.Outcome.{Outcome}
use smartcity.Actuator.{describe, serve_command, answer_discovery}

pub record TrafficState : Type 0 where
  pub active : Bool
  pub color : Bytes
  pub mode : Bytes

-- What `main` sets.
abbrev pub initial_traffic : TrafficState
initial_traffic = record { active = true; color = codes "vermelho"; mode = codes "automatico" }

-- `snprintf` into 128 bytes.
unfoldable pub build_state_text : TrafficState → Bytes
build_state_text s = take 127 (
    (if s.active then codes "ligado" else codes "desligado")
    ++ (codes "; cor=" ++ (s.color ++ (codes "; modo=" ++ s.mode))))

unfoldable pub is_color : Bytes → Bool
is_color c = not (
    not (str_eq c (codes "verde"))
    && (not (str_eq c (codes "amarelo")) && not (str_eq c (codes "vermelho"))))

unfoldable pub is_mode : Bytes → Bool
is_mode m = not (not (str_eq m (codes "automatico")) && not (str_eq m (codes "manual")))

-- The status, the message and the new state; `strncpy` keeps 31 bytes.
unfoldable pub run_command : TrafficState → ControlCommand → ℕ × Bytes × TrafficState
unfolding is_color is_mode
run_command s cmd =
    let wish = or_empty cmd.text_value in
    let colored : TrafficState = record s { color = take 31 wish; mode = codes "manual" } in
    let moded : TrafficState = record s { mode = take 31 wish } in
    if cmd.command_type == activate
    then (ok_status, codes "Semaforo ligado", record s { active = true })
    else if cmd.command_type == deactivate
    then (ok_status, codes "Semaforo desligado", record s { active = false })
    else if cmd.command_type == traffic_light_set_color
    then (if not (is_color wish)
        then (error_status, codes "Erro no comando: Cor deve ser verde, amarelo ou vermelho", s)
        else (ok_status, take 127 (codes "Cor alterada para " ++ colored.color), colored))
    else if cmd.command_type == traffic_light_set_mode
    then (if not (is_mode wish)
        then (error_status, codes "Erro no comando: Modo deve ser automatico ou manual", s)
        else (ok_status, take 127 (codes "Modo alterado para " ++ moded.mode), moded))
    else (error_status, codes "Erro no comando: Comando invalido para semaforo", s)

unfoldable pub handle_command :
    (ℕ → Bool) → TrafficState → ControlCommand → ControlResponse × TrafficState
unfolding run_command build_state_text
handle_command alloc s cmd =
    let (status, message, s') = run_command s cmd in
    (
      record zero_control_response {
        status = status;
        message = smart_dup_cstring alloc (some message);
        sensor_id = smart_dup_cstring alloc (some (codes "semaforo-1"));
        is_active = s'.active;
        state_text = smart_dup_cstring alloc (some (build_state_text s'));
      },
      s',
    )

-- What the traffic light answers to a discovery request.
unfoldable pub discovery : (ℕ → Bool) → TrafficState → CString → DiscoveryResponse
unfolding build_state_text
discovery alloc s local_ip =
    describe alloc (codes "semaforo-1") traffic_light 9202 s.active (build_state_text s) local_ip

-- One pass of its `control_thread`, and of its `discovery_thread`.
unfoldable pub control_traffic :
    (ℕ → Bool) → TrafficState → Bytes → Outcome (Option Bytes × TrafficState)
unfolding serve_command handle_command
control_traffic alloc s raw = serve_command alloc (handle_command alloc) s raw

unfoldable pub discovery_traffic :
    (ℕ → Bool) → TrafficState → CString → Bytes → Outcome (Option (ℕ × Bytes))
unfolding answer_discovery discovery
discovery_traffic alloc s local_ip raw = answer_discovery alloc (discovery alloc s local_ip) raw
