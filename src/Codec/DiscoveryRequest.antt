-- ===== src/Codec/DiscoveryRequest.antt =====
-- DiscoveryRequest on the wire: the writer and the reader of 2_c/smartcity_common.c.
pub mod RoundTrip
use smartcity.Prelude.{ℕ, Bool, not, Bytes, ◌==◌, if◌then◌else◌, ◌%◌, ◌^◌}
use smartcity.Outcome.{Outcome, ◌>>=◌}
use smartcity.Buffer.{Buffer, smart_buffer_init}
use smartcity.Double.{is_zero}
use smartcity.Encode.{
  when, buffer_append_string_field, buffer_append_varint_field, buffer_append_double_field,
}
use smartcity.Decode.{
  Switch, string_case, varint_case, double_case, unknown_case, field_loop, to_u32,
}
use smartcity.Message.{DiscoveryRequest, zero_discovery_request}

module _ (alloc : ℕ → Bool) where
  unfoldable pub discovery_request_fields : DiscoveryRequest → Buffer → Outcome Buffer
  discovery_request_fields m b₀ = do
    b₁ ← buffer_append_string_field alloc b₀ 1 m.gateway_id
    b₂ ← buffer_append_string_field alloc b₁ 2 m.request_timestamp
    b₃ ←
        when (not (m.gateway_udp_port == 0))
          (λ b. buffer_append_varint_field alloc b 3 m.gateway_udp_port) b₂
    when (not (m.discovery_response_port == 0))
        (λ b. buffer_append_varint_field alloc b 4 m.discovery_response_port) b₃

  unfoldable pub smart_encode_discovery_request : DiscoveryRequest → Outcome Buffer
  unfolding discovery_request_fields
  smart_encode_discovery_request m = discovery_request_fields m smart_buffer_init

  -- The body of the loop of `smart_parse_discovery_request`.
  unfoldable pub discovery_request_switch : Switch DiscoveryRequest
  unfolding string_case varint_case double_case unknown_case
  discovery_request_switch field_number wire_type mem len pos m =
      if field_number == 1
      then string_case alloc (λ v. record m { gateway_id = v }) wire_type mem len pos
      else if field_number == 2
      then string_case alloc (λ v. record m { request_timestamp = v }) wire_type mem len pos
      else if field_number == 3
      then varint_case (λ v. record m { gateway_udp_port = to_u32 v }) wire_type mem len pos
      else if field_number == 4
      then varint_case (λ v. record m { discovery_response_port = to_u32 v }) wire_type mem len pos
      else unknown_case m wire_type mem len pos

  unfoldable pub smart_parse_discovery_request : ℕ → Bytes → ℕ → Outcome DiscoveryRequest
  unfolding field_loop discovery_request_switch
  smart_parse_discovery_request rounds mem len =
      field_loop discovery_request_switch rounds mem len 0 zero_discovery_request
