-- ===== src/Gateway/Control.antt =====
-- The gateway's commands to actuators, from end to end.
use mathlib.Core.Option
use smartcity.Prelude.{
  sym, [], ◌++◌, append-nil, refl, ap, ◌∙◌, Option, str_eq, str_eq_refl, if◌then◌else◌, ℕ, ◌%◌, ◌^◌,
  ◌<◌, ◌≡◌, ◌≢◌, Bool, true, false, not, ◌||◌, some, none, Bytes, length, codes, ◌==◌, arith,
}
use smartcity.Outcome.{ok, ◌>>=◌}
use smartcity.Double.{Double}
use smartcity.Encode.{CString}
use smartcity.CString.{smart_dup_cstring-granted, or_empty}
use smartcity.Message.{ClientResponse, ControlCommand, ControlResponse, actuator}
use smartcity.Decode.Stores.{sent, sent_double}
use smartcity.Codec.ControlCommand.RoundTrip.{
  IsControlCommand, control_command_bytes, received_control_command,
}
use smartcity.Codec.ControlResponse.RoundTrip.{
  IsControlResponse, control_response_bytes, received_control_response,
}
use smartcity.Actuator.{serve_command}
use smartcity.Actuator.Conversation.{command_sent, response_received, serve_command-bytes}
use smartcity.Decode.{to_u32}
use smartcity.Transport.{htonl, smart_send_msg}
use smartcity.Transport.Stream.{IsStream}
use smartcity.Transport.Sending.{smart_send_msg-whole}
use smartcity.Transport.Receiving.{smart_recv_msg-whole}
use smartcity.Gateway.{
  SensorRecord, GatewayState, find_sensor, write_sensor, first_with, write_first,
}
use smartcity.Gateway.Registry.Lookup.{first_with-write_first, has_id→eq}
use smartcity.Gateway.Queries.{plain_response}
use smartcity.Gateway.Command.{
  Network, after_command, after_answer, failed, done, find_target, dial_target, exchange_command,
  apply_control, finish_command, send_control_command,
}

pub write_sensor-readings :
    (id : CString) (f : SensorRecord → SensorRecord) (state : GatewayState)
    → (write_sensor id f state).readings ≡ state.readings
unfolding write_sensor
write_sensor-readings none f state = refl
write_sensor-readings (some s) f state = refl

-- A device that has what arrived of an actuator's answer.
abbrev pub mirrored : Double → ControlResponse → SensorRecord → SensorRecord
mirrored now m sensor = record sensor {
  info = record (sensor.info) {
    is_active = m.is_active;
    frequency_seconds = sent_double m.frequency_seconds;
    threshold = sent_double m.threshold;
    state_text = sent m.state_text;
  };
  last_seen = now;
}

-- The connection to the actuator: it is opened, and behind the command comes a message.
pub record Answers (net : Network) (ip : Bytes) (port : ℕ) (payload raw : Bytes) : Type 0 where
  pub socket : net.socket ≡ true
  pub start : net.Link
  pub opened : net.connect ip (port % 2 ^ 16) ≡ some start
  pub stream : IsStream net.link
  pub comes :
      (s : net.Link)
      → smart_send_msg net.link start payload (length payload) ≡ ok (true, s)
      → stream.incoming s ≡ htonl (length raw) ++ raw

module _ (alloc : ℕ → Bool) (granted : (n : ℕ) → alloc n ≡ true) where
  apply_control-mirrored :
      (now : Double) (m : ControlResponse) (sensor : SensorRecord)
      → apply_control alloc now (received_control_response m) sensor ≡ mirrored now m sensor
  unfolding apply_control received_control_response
  apply_control-mirrored now m sensor =
      rw (smart_dup_cstring-granted alloc (sent m.state_text) granted)

  find_sensor-mirrored :
      (now : Double) (m : ControlResponse) (state : GatewayState) (id : CString)
      → find_sensor
          (write_sensor id (apply_control alloc now (received_control_response m)) state)
          id
        ≡ Option.map (mirrored now m) (find_sensor state id)
  find_sensor-mirrored now m state none = unfold find_sensor in refl
  find_sensor-mirrored now m state (some s) =
      let f = apply_control alloc now (received_control_response m) in
      let changed : first_with s (write_first s f state.sensors) ≡ (
          if str_eq s s
          then Option.map f (first_with s state.sensors)
          else first_with s state.sensors) =
        first_with-write_first s s f state.sensors
          (λ r hit. unfold apply_control in has_id→eq s r hit) in
      let own : first_with s (write_first s f state.sensors)
          ≡ Option.map f (first_with s state.sensors) =
        changed ∙ rw (str_eq_refl s) in
      unfold find_sensor write_sensor in own ∙ same (first_with s state.sensors)
    where
      same :
          (o : Option SensorRecord)
          → Option.map (apply_control alloc now (received_control_response m)) o
            ≡ Option.map (mirrored now m) o
      same none = refl
      same (some r) = ap some (apply_control-mirrored now m r)

  module _ (net : Network) (now : Double) (meanwhile : GatewayState → GatewayState) where
    find_target-actuator :
        (state : GatewayState) (id : CString) (sensor : SensorRecord) (ip : Bytes)
        → find_sensor state id ≡ some sensor
        → sensor.info.device_kind ≡ actuator
        → sensor.info.control_tcp_port ≢ 0
        → sensor.info.sensor_ip ≡ some ip
        → find_target alloc state id ≡ done (some ip, sensor.info.control_tcp_port)
    find_target-actuator state id sensor ip found kind port own =
        let open_way : (not (sensor.info.device_kind == actuator)
              || sensor.info.control_tcp_port == 0)
            ≡ false =
          ground arith in
        unfold find_target in
        rw (found, find_target, open_way, own, smart_dup_cstring-granted alloc (some ip) granted)

    dial_target-answered :
        (ip : Bytes) (port : ℕ) (payload raw : Bytes)
        → length payload < 2 ^ 31
        → length raw < 2 ^ 31
        → Answers net ip port payload raw
        → dial_target alloc net (some ip) port payload ≡ ok (done raw)
    unfolding dial_target after_command after_answer
    dial_target-answered ip port payload raw small small' a =
        let word : to_u32 (length payload) ≡ length payload = omega arith in
        let (s1, sent, gone) = smart_send_msg-whole net.link a.stream a.start payload small in
        let (s2, got, left) =
          smart_recv_msg-whole net.link a.stream alloc s1 raw [] small' (granted _)
            (a.comes s1 sent ∙ sym (append-nil _)) in
        rw (a.opened, dial_target, word, sent, ◌>>=◌, after_command, got)

    with_socket : {A : Type 0} (b : Bool) (x y : A) → b ≡ true → (if not b then x else y) ≡ y
    with_socket true x y e = refl
    with_socket false x y e = absurd cc

    exchange_command-replied :
        (cmd : ControlCommand) (ip : Bytes) (port : ℕ) (raw : Bytes)
        → IsControlCommand cmd
        → length (control_command_bytes cmd) < 2 ^ 31
        → length raw < 2 ^ 31
        → Answers net ip port (control_command_bytes cmd) raw
        → exchange_command alloc net cmd (some ip) port ≡ ok (done raw)
    exchange_command-replied cmd ip port raw h small small' a =
        let (b, e, c) = command_sent alloc (λ n _. granted n) cmd h (omega arith) in
        let step : exchange_command alloc net cmd (some ip) port ≡ (
            if not net.socket
            then ok (failed (codes "Falha no socket"))
            else dial_target alloc net (some ip) port b.contents) =
          unfold exchange_command in rw (e, exchange_command) in
        step
        ∙ with_socket net.socket _ _ a.socket
        ∙ ap (dial_target alloc net (some ip) port) c
        ∙ dial_target-answered ip port (control_command_bytes cmd) raw small small' a

    -- With an allocator that refuses nothing: where the device is an actuator with an address and a
    -- port, and answers the bytes of the command with the bytes of `m`, the client is told the status
    -- and the message of `m`, and the device, in the table as the other threads left it, is given
    -- what arrived of `m` and the present time.
    pub send_control_command-reply :
        (state : GatewayState) (cmd : ControlCommand) (sensor : SensorRecord) (ip : Bytes)
        (m : ControlResponse)
        → find_sensor state cmd.sensor_id ≡ some sensor
        → sensor.info.device_kind ≡ actuator
        → sensor.info.control_tcp_port ≢ 0
        → sensor.info.sensor_ip ≡ some ip
        → IsControlCommand cmd
        → length (control_command_bytes cmd) < 2 ^ 31
        → Answers net ip sensor.info.control_tcp_port
            (control_command_bytes cmd)
            (control_response_bytes m)
        → IsControlResponse m
        → length (control_response_bytes m) < 2 ^ 31
        → send_control_command alloc net now meanwhile state cmd.sensor_id cmd.command_type
            cmd.value cmd.text_value
          ≡ ok (
            plain_response alloc m.status (or_empty (sent m.message)),
            write_sensor cmd.sensor_id
                (apply_control alloc now (received_control_response m))
                (meanwhile state),
          )
    send_control_command-reply state cmd sensor ip m found kind port own h small answer hm small' =
        let target = find_target-actuator state cmd.sensor_id sensor ip found kind port own in
        let exchanged =
          exchange_command-replied cmd ip sensor.info.control_tcp_port (control_response_bytes m) h
            small small' answer in
        let parsed = response_received alloc (λ n _. granted n) m hm (omega arith) in
        unfold send_control_command finish_command received_control_response in
        rw (target, send_control_command, exchanged, parsed, finish_command)

    -- With an allocator that refuses nothing, for a device of the table that is an actuator with an
    -- address and a port, where `connect` opens a stream to it, and, once the bytes of the command are
    -- sent, what is to come on it is what the actuator's connection loop answers to them: where command
    -- and answer are texts without NUL and numbers within their types, of less than 2 ^ 31 bytes, the
    -- actuator handles the command as it arrives, the client is told the status and the message of its
    -- answer, the readings stay as other threads left them, and so does the device, but for what
    -- arrived of the answer and the present time.
    pub send_control_command-actuator {ℓ} :
        {S : Type ℓ} (handle : S → ControlCommand → ControlResponse × S) (s : S)
        (state : GatewayState) (cmd : ControlCommand) (sensor : SensorRecord) (ip : Bytes)
        → let (m, s') = handle s (received_control_command cmd) in
          find_sensor state cmd.sensor_id ≡ some sensor
          → sensor.info.device_kind ≡ actuator
          → sensor.info.control_tcp_port ≢ 0
          → sensor.info.sensor_ip ≡ some ip
          → IsControlCommand cmd
          → length (control_command_bytes cmd) < 2 ^ 31
          → ((out : Bytes) (after : S)
              → serve_command alloc handle s (control_command_bytes cmd) ≡ ok (some out, after)
              → Answers net ip sensor.info.control_tcp_port (control_command_bytes cmd) out)
          → IsControlResponse m
          → length (control_response_bytes m) < 2 ^ 31
          → (serve_command alloc handle s (control_command_bytes cmd)
              ≡ ok (some (control_response_bytes m), s'))
            × (resp : ClientResponse) × (after : GatewayState) × (send_control_command alloc net now
                  meanwhile state cmd.sensor_id cmd.command_type cmd.value cmd.text_value
                ≡ ok (resp, after))
            × (resp.status ≡ m.status)
            × (resp.message ≡ some (or_empty (sent m.message)))
            × (after.readings ≡ (meanwhile state).readings)
            × (find_sensor after cmd.sensor_id
                ≡ Option.map (mirrored now m) (find_sensor (meanwhile state) cmd.sensor_id))
    send_control_command-actuator handle s state cmd sensor ip found kind port own h small brings hm
          small' =
        let served =
          serve_command-bytes alloc (λ n _. granted n) handle s cmd h (omega arith) hm
            (omega arith) in
        (
          served,
          _,
          _,
          send_control_command-reply state cmd sensor ip _ found kind port own h small
              (brings _ _ served) hm small',
          (unfold plain_response in refl),
          (unfold plain_response in smart_dup_cstring-granted alloc (some _) granted),
          write_sensor-readings cmd.sensor_id _ (meanwhile state),
          find_sensor-mirrored now _ (meanwhile state) cmd.sensor_id,
        )
