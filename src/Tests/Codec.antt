-- ===== src/Tests/Codec.antt =====
-- The round trips, each on a message, with a byte behind it in memory.
use smartcity.Prelude.{refl, [], ◌∷◌, ◌++◌, ◌≡◌, length, arith}
use smartcity.Outcome.{ok}
use smartcity.Buffer.{Buffer}
use smartcity.Tests.{
  generous, reading, reading_valid, device, device_valid, to_green, to_green_valid, now_green,
  now_green_valid, probe, probe_valid, list_request, list_request_valid, listing, listing_valid,
}
use smartcity.Tests.Sizes.{
  reading_small, device_small, to_green_small, now_green_small, probe_small, list_request_small,
  listing_small,
}
use smartcity.Codec.SensorReading.{smart_encode_sensor_reading, smart_parse_sensor_reading}
use smartcity.Codec.SensorReading.RoundTrip.{
  received_sensor_reading, smart_parse-smart_encode_sensor_reading,
}
use smartcity.Codec.SensorInfo.{smart_encode_discovery_response, smart_parse_discovery_response}
use smartcity.Codec.SensorInfo.RoundTrip.{
  received_sensor_info, smart_parse-smart_encode_discovery_response,
}
use smartcity.Codec.ControlCommand.{smart_encode_control_command, smart_parse_control_command}
use smartcity.Codec.ControlCommand.RoundTrip.{
  received_control_command, smart_parse-smart_encode_control_command,
}
use smartcity.Codec.ControlResponse.{smart_encode_control_response, smart_parse_control_response}
use smartcity.Codec.ControlResponse.RoundTrip.{
  received_control_response, smart_parse-smart_encode_control_response,
}
use smartcity.Codec.DiscoveryRequest.{smart_encode_discovery_request, smart_parse_discovery_request}
use smartcity.Codec.DiscoveryRequest.RoundTrip.{
  received_discovery_request, smart_parse-smart_encode_discovery_request,
}
use smartcity.Codec.ClientRequest.{smart_encode_client_request, smart_parse_client_request}
use smartcity.Codec.ClientRequest.RoundTrip.{
  received_client_request, smart_parse-smart_encode_client_request,
}
use smartcity.Codec.ClientResponse.{smart_encode_client_response, smart_parse_client_response}
use smartcity.Codec.ClientResponse.RoundTrip.{
  received_client_response, smart_parse-smart_encode_client_response,
}

sensor_reading_example :
    (b : Buffer) × (smart_encode_sensor_reading generous reading ≡ ok b)
    × (smart_parse_sensor_reading generous 250 (b.contents ++ (7 ∷ [])) (length b.contents)
        ≡ ok (received_sensor_reading reading))
sensor_reading_example =
    smart_parse-smart_encode_sensor_reading generous reading 250 (7 ∷ []) (λ n _. refl)
      reading_valid (omega (arith, reading_small)) reading_small

discovery_response_example :
    (b : Buffer) × (smart_encode_discovery_response generous device ≡ ok b)
    × (smart_parse_discovery_response generous 250 (b.contents ++ (7 ∷ [])) (length b.contents)
        ≡ ok (received_sensor_info device))
discovery_response_example =
    smart_parse-smart_encode_discovery_response generous device 250 (7 ∷ []) (λ n _. refl)
      device_valid (omega (arith, device_small)) device_small

control_command_example :
    (b : Buffer) × (smart_encode_control_command generous to_green ≡ ok b)
    × (smart_parse_control_command generous 250 (b.contents ++ (7 ∷ [])) (length b.contents)
        ≡ ok (received_control_command to_green))
control_command_example =
    smart_parse-smart_encode_control_command generous to_green 250 (7 ∷ []) (λ n _. refl)
      to_green_valid (omega (arith, to_green_small)) to_green_small

control_response_example :
    (b : Buffer) × (smart_encode_control_response generous now_green ≡ ok b)
    × (smart_parse_control_response generous 250 (b.contents ++ (7 ∷ [])) (length b.contents)
        ≡ ok (received_control_response now_green))
control_response_example =
    smart_parse-smart_encode_control_response generous now_green 250 (7 ∷ []) (λ n _. refl)
      now_green_valid (omega (arith, now_green_small)) now_green_small

discovery_request_example :
    (b : Buffer) × (smart_encode_discovery_request generous probe ≡ ok b)
    × (smart_parse_discovery_request generous 250 (b.contents ++ (7 ∷ [])) (length b.contents)
        ≡ ok (received_discovery_request probe))
discovery_request_example =
    smart_parse-smart_encode_discovery_request generous probe 250 (7 ∷ []) (λ n _. refl) probe_valid
      (omega (arith, probe_small)) probe_small

client_request_example :
    (b : Buffer) × (smart_encode_client_request generous list_request ≡ ok b)
    × (smart_parse_client_request generous 250 (b.contents ++ (7 ∷ [])) (length b.contents)
        ≡ ok (received_client_request list_request))
client_request_example =
    smart_parse-smart_encode_client_request generous list_request 250 (7 ∷ []) (λ n _. refl)
      list_request_valid (omega (arith, list_request_small)) list_request_small

client_response_example :
    (b : Buffer) × (smart_encode_client_response generous listing ≡ ok b)
    × (smart_parse_client_response generous 250 (b.contents ++ (7 ∷ [])) (length b.contents)
        ≡ ok (received_client_response listing))
client_response_example =
    smart_parse-smart_encode_client_response generous (λ n. refl) listing 250 (7 ∷ []) listing_valid
      (omega (arith, listing_small)) listing_small
