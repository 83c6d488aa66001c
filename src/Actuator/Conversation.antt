-- ===== src/Actuator/Conversation.antt =====
-- A command on the wire, from the bytes that come in to the bytes that go out.
use smartcity.Prelude.{
  ℕ, ◌%◌, ◌^◌, ◌<◌, ◌≡◌, sym, ◌∙◌, Bool, some, [], append-nil, length, arith, ◌==◌, if◌then◌else◌,
}
use smartcity.Outcome.{ok}
use smartcity.Buffer.{Buffer, smart_buffer_init}
use smartcity.Buffer.Append.{Grants, Appended-total}
use smartcity.Message.{ControlCommand, ControlResponse, DiscoveryRequest, DiscoveryResponse}
use smartcity.Codec.ControlCommand.{smart_encode_control_command, smart_parse_control_command}
use smartcity.Codec.ControlCommand.RoundTrip.{
  IsControlCommand, control_command_bytes, received_control_command, control_command-Writes,
  smart_parse_control_command-bytes,
}
use smartcity.Codec.ControlResponse.{smart_encode_control_response, smart_parse_control_response}
use smartcity.Codec.ControlResponse.RoundTrip.{
  IsControlResponse, control_response_bytes, received_control_response, control_response-Writes,
  smart_parse_control_response-bytes,
}
use smartcity.Codec.DiscoveryRequest.{smart_parse_discovery_request}
use smartcity.Codec.DiscoveryRequest.RoundTrip.{
  IsDiscoveryRequest, discovery_request_bytes, received_discovery_request,
  smart_parse_discovery_request-bytes,
}
use smartcity.Codec.SensorInfo.{smart_encode_discovery_response}
use smartcity.Codec.SensorInfo.RoundTrip.{IsSensorInfo, sensor_info_bytes, sensor_info-Writes}
use smartcity.Actuator.{serve_command, answer_discovery, discovery_response_port_default}

module _ (alloc : ℕ → Bool) (grants : Grants alloc) where
  pub command_sent :
      (m : ControlCommand)
      → IsControlCommand m
      → length (control_command_bytes m) < 2 ^ 62
      → (b : Buffer) × (smart_encode_control_command alloc m ≡ ok b)
        × (b.contents ≡ control_command_bytes m)
  unfolding smart_encode_control_command smart_buffer_init
  command_sent m h small =
      Appended-total alloc grants
        (control_command-Writes alloc m h smart_buffer_init (omega arith) (omega arith))

  pub command_parsed :
      (m : ControlCommand)
      → IsControlCommand m
      → length (control_command_bytes m) < 2 ^ 62
      → smart_parse_control_command alloc
          (length (control_command_bytes m))
          (control_command_bytes m)
          (length (control_command_bytes m))
        ≡ ok (received_control_command m)
  command_parsed m h small =
      sym (rw append-nil)
      ∙ smart_parse_control_command-bytes alloc m (length (control_command_bytes m)) [] grants h
          small (omega arith)

  pub response_sent :
      (m : ControlResponse)
      → IsControlResponse m
      → length (control_response_bytes m) < 2 ^ 62
      → (b : Buffer) × (smart_encode_control_response alloc m ≡ ok b)
        × (b.contents ≡ control_response_bytes m)
  unfolding smart_encode_control_response smart_buffer_init
  response_sent m h small =
      Appended-total alloc grants
        (control_response-Writes alloc m h smart_buffer_init (omega arith) (omega arith))

  pub response_received :
      (m : ControlResponse)
      → IsControlResponse m
      → length (control_response_bytes m) < 2 ^ 62
      → smart_parse_control_response alloc
          (length (control_response_bytes m))
          (control_response_bytes m)
          (length (control_response_bytes m))
        ≡ ok (received_control_response m)
  response_received m h small =
      sym (rw append-nil)
      ∙ smart_parse_control_response-bytes alloc m (length (control_response_bytes m)) [] grants h
          small (omega arith)

  pub description_sent :
      (m : DiscoveryResponse)
      → IsSensorInfo m
      → length (sensor_info_bytes m) < 2 ^ 62
      → (b : Buffer) × (smart_encode_discovery_response alloc m ≡ ok b)
        × (b.contents ≡ sensor_info_bytes m)
  unfolding smart_encode_discovery_response smart_buffer_init
  description_sent m h small =
      Appended-total alloc grants
        (sensor_info-Writes alloc m h smart_buffer_init (omega arith) (omega arith))

  -- Where the allocator refuses no request below 2 ^ 63, and command and answer are texts without
  -- NUL, numbers within their types and less than 2 ^ 62 bytes: to the bytes of a command the
  -- connection answers with the bytes of what the handler answers to the command as it arrives, and
  -- the state becomes the handler's.
  pub serve_command-bytes {ℓ} :
      {S : Type ℓ} (handle : S → ControlCommand → ControlResponse × S) (s : S) (m : ControlCommand)
      → IsControlCommand m
      → length (control_command_bytes m) < 2 ^ 62
      → IsControlResponse (handle s (received_control_command m)).0
      → length (control_response_bytes (handle s (received_control_command m)).0) < 2 ^ 62
      → serve_command alloc handle s (control_command_bytes m)
        ≡ ok (
          some (control_response_bytes (handle s (received_control_command m)).0),
          (handle s (received_control_command m)).1,
        )
  serve_command-bytes handle s m h small hr small' =
      let (b, e, c) = response_sent (handle s (received_control_command m)).0 hr small' in
      unfold serve_command in rw (command_parsed m h small, serve_command, e, serve_command, c)

  -- Where the allocator refuses no request below 2 ^ 63, and request and description are texts
  -- without NUL, numbers within their types and less than 2 ^ 62 bytes: to a discovery request goes
  -- out the description of the actuator, to the port of the request cut to 16 bits, or to 10001
  -- where that port is 0.
  pub answer_discovery-bytes :
      (resp : DiscoveryResponse) (m : DiscoveryRequest)
      → IsDiscoveryRequest m
      → length (discovery_request_bytes m) < 2 ^ 62
      → IsSensorInfo resp
      → length (sensor_info_bytes resp) < 2 ^ 62
      → answer_discovery alloc resp (discovery_request_bytes m)
        ≡ ok (
            some (
              (if m.discovery_response_port == 0
                    then discovery_response_port_default
                    else m.discovery_response_port)
                  % 2 ^ 16,
              sensor_info_bytes resp,
            ))
  answer_discovery-bytes resp m h small hr small' =
      let raw = discovery_request_bytes m in
      let received : smart_parse_discovery_request alloc (length raw) raw (length raw)
          ≡ ok (received_discovery_request m) =
        sym (rw append-nil)
        ∙ smart_parse_discovery_request-bytes alloc m (length (discovery_request_bytes m)) [] grants
            h small (omega arith) in
      let (b, e, c) = description_sent resp hr small' in
      unfold answer_discovery received_discovery_request in
      rw (received, answer_discovery, e, answer_discovery, c)
