-- ===== src/Gateway/Events/Requests.antt =====
-- What a client's request does to the tables is a sequence of events.
use smartcity.Prelude.{
  ℕ, ◌≡◌, refl, sym, ap, ◌∙◌, Bool, true, false, List, [], ◌∷◌, ◌++◌, Bytes, length, if◌then◌else◌,
  ◌==◌, ◌⊎◌, inl, inr,
}
use smartcity.Outcome.{Outcome, ok, rejected, fault, stuck, ◌>>=◌, Outcome-cases}
use smartcity.Double.{Double, Arithmetic}
use smartcity.Encode.{CString}
use smartcity.CString.{text}
use smartcity.Message.{
  activate, deactivate, set_frequency, set_threshold, list_sensors, avg_temperature, avg_co2,
  avg_humidity, max_reading, activate_sensor, deactivate_sensor, change_frequency, change_threshold,
  reading_history, send_control_command as send_control, exit, ClientRequest, ClientResponse,
  CommandType, ControlResponse, ControlCommand,
}
use smartcity.Codec.ControlResponse.{smart_parse_control_response}
use smartcity.Gateway.{GatewayState, write_sensor}
use smartcity.Gateway.Command.{
  apply_control, Network, Attempt, failed, done, find_target, exchange_command, finish_command,
  send_control_command, process_client_request,
}
use smartcity.Gateway.Events.{Event, commanded, happen, run}

module _ (alloc : ℕ → Bool) where
  -- The device that the table has under `id` is sent a command for it, and answers `r`.
  pub record Replied (net : Network) (state : GatewayState) (id : CString) (r : ControlResponse)
      : Type 0 where
    pub ip : CString
    pub port : ℕ
    pub cmd : ControlCommand
    pub raw : Bytes
    pub target : find_target alloc state id ≡ done (ip, port)
    pub names : cmd.sensor_id ≡ id
    pub exchanged : exchange_command alloc net cmd ip port ≡ ok (done raw)
    pub parsed : smart_parse_control_response alloc (length raw) raw (length raw) ≡ ok r

  -- The events of a request on the device `id` in the tables `state`, where `others` happen between
  -- its critical sections.
  pub data Caused (net : Network) (now : Double) (others : List Event) (state : GatewayState)
      (id : CString) : List Event → Type 0 where
    nothing : Caused net now others state id []
    only_others : Caused net now others state id others
    then_answer :
        (r : ControlResponse)
        → Replied net state id r
        → Caused net now others state id (others ++ (commanded now id r ∷ []))

  pub run-append :
      (xs ys : List Event) (state : GatewayState)
      → run alloc (xs ++ ys) state ≡ run alloc ys (run alloc xs state)
  unfolding run
  run-append [] ys state = refl
  run-append (x ∷ xs) ys state = run-append xs ys (happen alloc x state)

  run-commanded :
      (now : Double) (id : CString) (r : ControlResponse) (state : GatewayState)
      → run alloc (commanded now id r ∷ []) state
        ≡ write_sensor id (apply_control alloc now r) state
  unfolding run happen
  run-commanded now id r state = refl

  -- The state behind the answer, if there is one, comes of a sequence of events that `C` allows.
  pub data Evolves {ℓ} {A : Type ℓ} (C : List Event → Type 0) (state : GatewayState)
      : Outcome (A × GatewayState) → Type ℓ where
    by :
        (a : A) (after : GatewayState) (events : List Event)
        → C events
        → after ≡ run alloc events state
        → Evolves C state (ok (a, after))
    no_answer : Evolves C state rejected
    no_access : Evolves C state fault
    no_end : Evolves C state stuck

  Attempt-cases {ℓ} :
      {A : Type ℓ} (o : Attempt A) → ((m : Bytes) × (o ≡ failed m)) ⊎ ((a : A) × (o ≡ done a))
  Attempt-cases (failed m) = inl (m, refl)
  Attempt-cases (done a) = inr (a, refl)

  unchanged {ℓ} :
      {A : Type ℓ} (C : List Event → Type 0) (a : A) (state : GatewayState)
      → C []
      → Evolves C state (ok (a, state))
  unchanged C a state c = by a state [] c (unfold run in refl)

  if-Evolves {ℓ} :
      {A : Type ℓ} (C : List Event → Type 0) (state : GatewayState) (b : Bool)
      (x y : Outcome (A × GatewayState))
      → Evolves C state x
      → Evolves C state y
      → Evolves C state (if b then x else y)
  if-Evolves C state true x y h k = h
  if-Evolves C state false x y h k = k

  finish_command-Evolves :
      (net : Network) (now : Double) (events : List Event) (state : GatewayState) (id : CString)
      (raw : Bytes)
      → ((r : ControlResponse)
          → smart_parse_control_response alloc (length raw) raw (length raw) ≡ ok r
          → Replied net state id r)
      → Evolves
          (Caused net now events state id)
          state
          (finish_command alloc now (run alloc events state) id raw)
  finish_command-Evolves net now events state id raw replied =
      elim (Outcome-cases (smart_parse_control_response alloc (length raw) raw (length raw))) [
        | inl (r, e) ↦
            let last =
              run-append events (commanded now id r ∷ []) state
              ∙ run-commanded now id r (run alloc events state) in
            unfold finish_command in
            rw (e, finish_command)
              (by _ _ (events ++ (commanded now id r ∷ [])) (then_answer r (replied r e))
                (sym last))
        | inr (inl e) ↦
            unfold finish_command in rw (e, finish_command) (by _ _ events only_others refl)
        | inr (inr (inl e)) ↦ unfold finish_command in rw (e, finish_command) no_access
        | inr (inr (inr e)) ↦ unfold finish_command in rw (e, finish_command) no_end
      ]

  module _ (net : Network) (now : Double) (others : List Event) where
    -- `others` are the events of other threads between the two critical sections.
    abbrev meanwhile : GatewayState → GatewayState
    meanwhile = run alloc others

    send_control_command-Evolves :
        (state : GatewayState) (id : CString) (command_type : CommandType) (value : Double)
        (text_value : CString)
        → Evolves
            (Caused net now others state id)
            state
            (send_control_command alloc net now meanwhile state id command_type value text_value)
    send_control_command-Evolves state id command_type value text_value =
        elim (Attempt-cases (find_target alloc state id)) [
          | inl (message, e) ↦
              unfold send_control_command in
              rw (e, send_control_command) (unchanged _ _ state nothing)
          | inr ((ip, port), e) ↦ elim (Outcome-cases (exchange_command alloc net cmd ip port)) [
            | inl (reply, e') ↦ elim (Attempt-cases reply) [
              | inl (message, e'') ↦
                  unfold send_control_command in
                  rw (e, send_control_command, e', ◌>>=◌, e'', send_control_command)
                    (by _ _ others only_others refl)
              | inr (raw, e'') ↦
                  unfold send_control_command in
                  rw (e, send_control_command, e', ◌>>=◌, e'', send_control_command)
                    (finish_command-Evolves net now others state id raw (λ r parsed. record {
                      ip = ip;
                      port = port;
                      cmd = cmd;
                      raw = raw;
                      target = e;
                      names = refl;
                      exchanged = e' ∙ ap ok e'';
                      parsed = parsed;
                    }))
            ]
            | inr (inl e') ↦
                unfold send_control_command in rw (e, send_control_command, e', ◌>>=◌) no_answer
            | inr (inr (inl e')) ↦
                unfold send_control_command in rw (e, send_control_command, e', ◌>>=◌) no_access
            | inr (inr (inr e')) ↦
                unfold send_control_command in rw (e, send_control_command, e', ◌>>=◌) no_end
          ]
        ]
      where
        cmd : ControlCommand
        cmd = record {
          command_type = command_type;
          sensor_id = id;
          value = value;
          text_value = text_value;
        }

    module _ (fp : Arithmetic) where
      process_client_request-Evolves :
          (state : GatewayState) (req : ClientRequest)
          → Evolves
              (Caused net now others state req.target_sensor_id)
              state
              (process_client_request alloc net now meanwhile fp state req)
      unfolding process_client_request
      process_client_request-Evolves state req =
          branch (req.request_type == list_sensors) _ _ (unchanged _ _ state nothing) (
            branch (req.request_type == avg_temperature) _ _ (unchanged _ _ state nothing) (
              branch (req.request_type == avg_co2) _ _ (unchanged _ _ state nothing) (
                branch (req.request_type == avg_humidity) _ _ (unchanged _ _ state nothing) (
                  branch (req.request_type == max_reading) _ _ (unchanged _ _ state nothing) (
                    branch (req.request_type == activate_sensor) _ _ (command activate 0 (text ""))
                      (branch (req.request_type == deactivate_sensor) _ _
                        (command deactivate 0 (text ""))
                        (branch (req.request_type == change_frequency) _ _
                          (command set_frequency req.value (text ""))
                          (branch (req.request_type == change_threshold) _ _
                            (command set_threshold req.value (text ""))
                            (branch (req.request_type == reading_history) _ _
                              (unchanged _ _ state nothing)
                              (branch (req.request_type == send_control) _ _
                                (command req.command_type req.value req.text_value)
                                (branch (req.request_type == exit) _ _ (unchanged _ _ state nothing)
                                  (unchanged _ _ state nothing))))))))))))
        where
          branch :
              (b : Bool) (x y : Outcome (ClientResponse × GatewayState))
              → Evolves (Caused net now others state req.target_sensor_id) state x
              → Evolves (Caused net now others state req.target_sensor_id) state y
              → Evolves
                  (Caused net now others state req.target_sensor_id)
                  state
                  (if b then x else y)
          branch = if-Evolves (Caused net now others state req.target_sensor_id) state

          command :
              (t : CommandType) (v : Double) (c : CString)
              → Evolves
                  (Caused net now others state req.target_sensor_id)
                  state
                  (send_control_command alloc net now meanwhile state req.target_sensor_id t v c)
          command = send_control_command-Evolves state req.target_sensor_id

      Evolves-ok {ℓ} :
          {A : Type ℓ} {C : List Event → Type 0} {state : GatewayState}
          {o : Outcome (A × GatewayState)} {a : A} {after : GatewayState}
          → Evolves C state o
          → o ≡ ok (a, after)
          → (events : List Event) × C events × (after ≡ run alloc events state)
      Evolves-ok (by a' after' events c e) h = (events, c, cc)
      Evolves-ok no_answer h = absurd cc
      Evolves-ok no_access h = absurd cc
      Evolves-ok no_end h = absurd cc

      -- Whatever the allocator and the network do, and whatever events of other threads fall between
      -- its critical sections: where a request is answered, nothing happened to the tables, or the
      -- events of the others did, or these and behind them one command, with the answer that the
      -- device that the request names gave to a command for it.
      pub process_client_request-run :
          (state after : GatewayState) (req : ClientRequest) (resp : ClientResponse)
          → process_client_request alloc net now meanwhile fp state req ≡ ok (resp, after)
          → (events : List Event) × Caused net now others state req.target_sensor_id events
            × (after ≡ run alloc events state)
      process_client_request-run state after req resp h =
          Evolves-ok (process_client_request-Evolves state req) h
