-- ===== src/Actuator.antt =====
-- What the three actuators share: the reply to a command that came in on a connection, as in the
-- loop of `control_thread`, and the reply to a discovery request, as in the loop of
-- `discovery_thread`, in 2_c/actuator_traffic_light.c, 2_c/actuator_camera.c and
-- 2_c/actuator_street_light.c. `local_ip` is what smart_get_local_ip returned.
pub mod TrafficLight
pub mod Camera
pub mod StreetLight
pub mod Conversation
use smartcity.Prelude.{
  ℕ, ◌%◌, ◌^◌, Bool, none, some, Option, Bytes, length, ◌==◌, if◌then◌else◌, codes,
}
use smartcity.Outcome.{Outcome, ok, rejected, fault, stuck, ◌>>=◌}
use smartcity.Decode.{to_u32}
use smartcity.Transport.{Socket, smart_recv_msg, smart_send_msg}
use smartcity.Encode.{CString}
use smartcity.CString.{smart_dup_cstring}
use smartcity.Message.{
  ControlCommand, ControlResponse, DiscoveryRequest, DiscoveryResponse, zero_sensor_info,
  zero_control_response, actuator,
}
use smartcity.Codec.ControlCommand.{smart_parse_control_command}
use smartcity.Codec.ControlResponse.{smart_encode_control_response}
use smartcity.Codec.DiscoveryRequest.{smart_parse_discovery_request}
use smartcity.Codec.SensorInfo.{smart_encode_discovery_response}

-- SMARTCITY_DISCOVERY_RESPONSE_PORT and SMARTCITY_MULTICAST_PORT
abbrev pub discovery_response_port_default : ℕ
discovery_response_port_default = 10001

abbrev pub loopback : Bytes
loopback = codes "127.0.0.1"

-- `local_ip ? local_ip : smart_dup_cstring("127.0.0.1")`
abbrev pub address_or_loopback : (ℕ → Bool) → CString → CString
address_or_loopback alloc none = smart_dup_cstring alloc (some loopback)
address_or_loopback alloc (some ip) = some ip

module _ (alloc : ℕ → Bool) where
  -- From a message to the reply in a pass of `control_thread`: a message that does not parse, or a
  -- reply that cannot be encoded, closes the connection without an answer.
  unfoldable pub serve_command {ℓ} :
      {S : Type ℓ}
      → (S → ControlCommand → ControlResponse × S)
      → S
      → Bytes
      → Outcome (Option Bytes × S)
  serve_command handle state raw =
      elim (smart_parse_control_command alloc (length raw) raw (length raw)) [
        | ok cmd ↦
            let (resp, state') = handle state cmd in
            elim (smart_encode_control_response alloc resp) [
              | ok payload ↦ ok (some payload.contents, state')
              | rejected ↦ ok (none, state')
              | fault ↦ fault
              | stuck ↦ stuck
            ]
        | rejected ↦ ok (none, state)
        | fault ↦ fault
        | stuck ↦ stuck
      ]

  unfoldable pub command_answered {ℓ} :
      {C : Type 0} {S : Type ℓ} → Socket C → C → Option Bytes × S → Outcome (C × S)
  command_answered sock c (none, state) = ok (c, state)
  command_answered sock c (some out, state) =
      smart_send_msg sock c out (to_u32 (length out)) >>= λ (sent, c'). ok (c', state)

  unfoldable pub command_received {ℓ} :
      {C : Type 0} {S : Type ℓ}
      → Socket C
      → (S → ControlCommand → ControlResponse × S)
      → S
      → Option Bytes × C
      → Outcome (C × S)
  unfolding serve_command command_answered
  command_received sock handle state (none, c) = ok (c, state)
  command_received sock handle state (some raw, c) =
      serve_command handle state raw >>= command_answered sock c

  -- A pass of `control_thread` on an accepted connection, up to the `closesocket` behind it; whether the
  -- reply could be sent is not looked at.
  unfoldable pub control_pass {ℓ} :
      {C : Type 0} {S : Type ℓ}
      → Socket C
      → (S → ControlCommand → ControlResponse × S)
      → S
      → C
      → Outcome (C × S)
  unfolding command_received
  control_pass sock handle state c =
      smart_recv_msg sock alloc c >>= command_received sock handle state

  -- The description that an actuator sends of itself.
  unfoldable pub describe : Bytes → ℕ → ℕ → Bool → Bytes → CString → DiscoveryResponse
  describe id type port active state_text local_ip = record zero_sensor_info {
    sensor_id = smart_dup_cstring alloc (some id);
    sensor_type = type;
    sensor_ip = address_or_loopback alloc local_ip;
    control_tcp_port = port;
    is_active = active;
    device_kind = actuator;
    state_text = smart_dup_cstring alloc (some state_text);
  }

  -- The port, cut to the 16 bits of `htons`, and the payload of the answer; none where the request does not parse or the answer
  -- cannot be encoded.
  unfoldable pub answer_discovery : DiscoveryResponse → Bytes → Outcome (Option (ℕ × Bytes))
  answer_discovery resp raw =
      elim (smart_parse_discovery_request alloc (length raw) raw (length raw)) [
        | ok req ↦
            let port =
              if req.discovery_response_port == 0
              then discovery_response_port_default
              else req.discovery_response_port in
            elim (smart_encode_discovery_response alloc resp) [
              | ok payload ↦ ok (some (port % 2 ^ 16, payload.contents))
              | rejected ↦ ok none
              | fault ↦ fault
              | stuck ↦ stuck
            ]
        | rejected ↦ ok none
        | fault ↦ fault
        | stuck ↦ stuck
      ]
