-- ===== src/Gateway/Command.antt =====
-- Requests of clients, from 2_c/gateway.c: send_control_command, process_client_request and the
-- rounds of client_thread. The sockets and what other threads do while no lock is held are given.
use smartcity.Prelude.{
  ℕ, true, ◌%◌, ◌^◌, Bool, false, not, ◌||◌, some, none, Option, Bytes, length, codes, ◌==◌,
  if◌then◌else◌,
}
use smartcity.Outcome.{Outcome, ok, rejected, fault, stuck, ◌>>=◌}
use smartcity.Decode.{to_u32}
use smartcity.Transport.{Socket, smart_send_msg, smart_recv_msg}
use smartcity.Double.{Double, Arithmetic}
use smartcity.Encode.{CString}
use smartcity.CString.{smart_dup_cstring, text, or_empty}
use smartcity.Message.{
  ClientRequest, ClientResponse, ControlCommand, ControlResponse, CommandType, ok_status,
  error_status, actuator, activate, deactivate, set_frequency, set_threshold, list_sensors,
  avg_temperature, avg_co2, avg_humidity, max_reading, activate_sensor, deactivate_sensor,
  change_frequency, change_threshold, reading_history, send_control_command as send_control, exit,
}
use smartcity.Codec.ControlCommand.{smart_encode_control_command}
use smartcity.Codec.ControlResponse.{smart_parse_control_response}
use smartcity.Codec.ClientRequest.{smart_parse_client_request}
use smartcity.Codec.ClientResponse.{smart_encode_client_response}
use smartcity.Gateway.{SensorRecord, GatewayState, find_sensor, write_sensor}
use smartcity.Gateway.Queries.{
  plain_response, build_sensor_list_response, build_metric_response, build_max_response,
  build_history_response,
}

-- What the operating system does for a command: whether `socket` gives a socket, the connection that
-- `inet_pton` and `connect` open to an address and a port, if they do, and `send` and `recv` on it.
pub record Network : Type 1 where
  pub socket : Bool
  pub Link : Type 0
  pub link : Socket Link
  pub connect : Bytes → ℕ → Option Link

-- A step that may end the call with an error response.
pub data Attempt {ℓ} (A : Type ℓ) : Type ℓ where
  failed : Bytes → Attempt A
  done : A → Attempt A

abbrev pub not_found : Bytes
not_found = codes "Dispositivo nao encontrado"

module _ (alloc : ℕ → Bool) where
  -- The first critical section: the address and the port of an actuator.
  unfoldable pub find_target : GatewayState → CString → Attempt (CString × ℕ)
  unfolding find_sensor smart_dup_cstring
  find_target state sensor_id = elim (find_sensor state sensor_id) [
    | none ↦ failed not_found
    | some sensor ↦
        if not (sensor.info.device_kind == actuator) || sensor.info.control_tcp_port == 0
        then failed (codes "Fonte de dados nao controlavel")
        else done (smart_dup_cstring alloc sensor.info.sensor_ip, sensor.info.control_tcp_port)
  ]

  unfoldable pub after_answer : {S : Type 0} → Option Bytes × S → Outcome (Attempt Bytes)
  after_answer (none, s) = ok (failed (codes "Sem resposta do sensor"))
  after_answer (some raw, s) = ok (done raw)

  unfoldable pub after_command : {S : Type 0} → Socket S → Bool × S → Outcome (Attempt Bytes)
  unfolding after_answer
  after_command sock (false, s) = ok (failed (codes "Sem resposta do sensor"))
  after_command sock (true, s) = smart_recv_msg sock alloc s >>= after_answer

  unfoldable pub dial_target : Network → CString → ℕ → Bytes → Outcome (Attempt Bytes)
  unfolding after_command
  dial_target net none port payload = ok (failed (codes "Falha no comando"))
  dial_target net (some ip) port payload = elim (net.connect ip (port % 2 ^ 16)) [
    | none ↦ ok (failed (codes "Falha no comando"))
    | some s ↦
        smart_send_msg net.link s payload (to_u32 (length payload)) >>= after_command net.link
  ]

  -- Between the critical sections: the command goes out, and the reply comes in.
  unfoldable pub exchange_command : Network → ControlCommand → CString → ℕ → Outcome (Attempt Bytes)
  unfolding dial_target
  exchange_command net cmd ip port = elim (smart_encode_control_command alloc cmd) [
    | ok payload ↦
        if not net.socket
        then ok (failed (codes "Falha no socket"))
        else dial_target net ip port payload.contents
    | rejected ↦ ok (failed (codes "Falha ao montar comando"))
    | fault ↦ fault
    | stuck ↦ stuck
  ]

  -- What the actuator answered, written to the device.
  unfoldable pub apply_control : Double → ControlResponse → SensorRecord → SensorRecord
  unfolding smart_dup_cstring
  apply_control now r sensor = record sensor {
    info = record (sensor.info) {
      is_active = r.is_active;
      frequency_seconds = r.frequency_seconds;
      threshold = r.threshold;
      state_text = smart_dup_cstring alloc r.state_text;
    };
    last_seen = now;
  }

  -- From the reply on, with the second critical section. The reply is parsed with a round for each
  -- of its bytes.
  unfoldable pub finish_command :
      Double → GatewayState → CString → Bytes → Outcome (ClientResponse × GatewayState)
  unfolding write_sensor apply_control plain_response
  finish_command now state sensor_id raw =
      elim (smart_parse_control_response alloc (length raw) raw (length raw)) [
        | ok r ↦ ok (
          plain_response alloc r.status (or_empty r.message),
          write_sensor sensor_id (apply_control now r) state,
        )
        | rejected ↦
            ok (plain_response alloc error_status (codes "Erro ao decodificar resposta"), state)
        | fault ↦ fault
        | stuck ↦ stuck
      ]

  module _ (net : Network) (now : Double) (meanwhile : GatewayState → GatewayState) where
    -- `meanwhile` is what the other threads do between the two critical sections.
    unfoldable pub send_control_command :
        GatewayState
        → CString
        → CommandType
        → Double
        → CString
        → Outcome (ClientResponse × GatewayState)
    unfolding find_target exchange_command finish_command plain_response
    send_control_command state sensor_id command_type value text_value =
        let cmd : ControlCommand = record {
          command_type = command_type;
          sensor_id = sensor_id;
          value = value;
          text_value = text_value;
        } in
        elim (find_target state sensor_id) [
          | failed message ↦ ok (plain_response alloc error_status message, state)
          | done (ip, port) ↦ exchange_command net cmd ip port >>= λ reply. elim reply [
            | failed message ↦ ok (plain_response alloc error_status message, meanwhile state)
            | done raw ↦ finish_command now (meanwhile state) sensor_id raw
          ]
        ]

    module _ (fp : Arithmetic) where
      unfoldable pub process_client_request :
          GatewayState → ClientRequest → Outcome (ClientResponse × GatewayState)
      unfolding send_control_command build_sensor_list_response build_metric_response
          build_max_response build_history_response plain_response
      process_client_request state req =
          let type = req.request_type in
          let metric = λ (name : Bytes) (label : Bytes) (empty : Bytes).
            build_metric_response alloc fp state name label empty in
          let command = send_control_command state req.target_sensor_id in
          if type == list_sensors
          then ok (build_sensor_list_response alloc fp now state, state)
          else if type == avg_temperature
          then ok (
            metric (codes "temperature") (codes "Media de temperatura")
                (codes "Sem leituras de temperatura"),
            state,
          )
          else if type == avg_co2
          then ok (metric (codes "co2") (codes "Media de CO2") (codes "Sem leituras de CO2"), state)
          else if type == avg_humidity
          then ok (
            metric (codes "humidity") (codes "Media de umidade") (codes "Sem leituras de umidade"),
            state,
          )
          else if type == max_reading
          then ok (build_max_response alloc fp state, state)
          else if type == activate_sensor
          then command activate 0 (text "")
          else if type == deactivate_sensor
          then command deactivate 0 (text "")
          else if type == change_frequency
          then command set_frequency req.value (text "")
          else if type == change_threshold
          then command set_threshold req.value (text "")
          else if type == reading_history
          then ok (build_history_response alloc state, state)
          else if type == send_control
          then command req.command_type req.value req.text_value
          else if type == exit
          then ok (plain_response alloc ok_status (codes "Conexao encerrada"), state)
          else ok (plain_response alloc error_status (codes "Requisicao invalida"), state)

      -- One pass of the loop of `client_thread` on a message that came in: the reply that goes out, or
      -- none where the connection is closed without one, and whether the loop goes on.
      unfoldable pub serve : GatewayState → Bytes → Outcome (Option Bytes × Bool × GatewayState)
      unfolding process_client_request
      serve state raw = elim (smart_parse_client_request alloc (length raw) raw (length raw)) [
        | ok req ↦ process_client_request state req >>= λ (resp, state').
            elim (smart_encode_client_response alloc resp) [
              | ok payload ↦ ok (some payload.contents, not (req.request_type == exit), state')
              | rejected ↦ ok (none, false, state')
              | fault ↦ fault
              | stuck ↦ stuck
            ]
        | rejected ↦ ok (none, false, state)
        | fault ↦ fault
        | stuck ↦ stuck
      ]
