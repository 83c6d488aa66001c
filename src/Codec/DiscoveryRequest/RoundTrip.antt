-- ===== src/Codec/DiscoveryRequest/RoundTrip.antt =====
-- What was written of a DiscoveryRequest is read back, whatever follows it in memory.
use smartcity.Prelude.{
  ℕ, ◌^◌, ◌≤◌, ◌<◌, ◌≡◌, refl, ◌∙◌, Bool, not, ◌++◌, Bytes, length, ◌==◌, arith,
}
use smartcity.Outcome.{ok}
use smartcity.Buffer.{Buffer, smart_buffer_init}
use smartcity.Buffer.Append.{Grants, Writes, Writes-then, Appended-total}
use smartcity.Encode.Shape.{
  string_bytes, varint_field_bytes, only, string-Writes, varint_field-Writes, when-Writes,
}
use smartcity.Decode.{Switch, to_u32}
use smartcity.Decode.Fields.{IsText, Consumes-then, field_loop-Consumes}
use smartcity.Decode.Stores.{sent, kept_word-zero, text-Consumes, word-Consumes}
use smartcity.Message.{DiscoveryRequest, zero_discovery_request}
use smartcity.Codec.DiscoveryRequest.{
  discovery_request_fields, smart_encode_discovery_request, smart_parse_discovery_request,
  discovery_request_switch,
}

-- Texts without NUL, and numbers within their C types.
pub record IsDiscoveryRequest (m : DiscoveryRequest) : Type 0 where
  pub gateway_id : IsText m.gateway_id
  pub request_timestamp : IsText m.request_timestamp
  pub gateway_udp_port : m.gateway_udp_port < 2 ^ 32
  pub discovery_response_port : m.discovery_response_port < 2 ^ 32

-- The bytes of the message.
unfoldable pub discovery_request_bytes : DiscoveryRequest → Bytes
discovery_request_bytes m =
    string_bytes 1 m.gateway_id
    ++ (string_bytes 2 m.request_timestamp
        ++ (only (not (m.gateway_udp_port == 0)) (varint_field_bytes 3 m.gateway_udp_port)
            ++ (only (not (m.discovery_response_port == 0))
                (varint_field_bytes 4 m.discovery_response_port))))

-- The message as it arrives.
unfoldable pub received_discovery_request : DiscoveryRequest → DiscoveryRequest
received_discovery_request m = record {
  gateway_id = sent m.gateway_id;
  request_timestamp = sent m.request_timestamp;
  gateway_udp_port = m.gateway_udp_port;
  discovery_response_port = m.discovery_response_port;
}

module _ (alloc : ℕ → Bool) where
  pub discovery_request-Writes :
      (m : DiscoveryRequest)
      → IsDiscoveryRequest m
      → Writes alloc (discovery_request_fields alloc m) (discovery_request_bytes m)
  unfolding discovery_request_bytes discovery_request_fields
  discovery_request-Writes m h =
      Writes-then alloc (string-Writes alloc 1 m.gateway_id (omega arith)) (
        Writes-then alloc (string-Writes alloc 2 m.request_timestamp (omega arith)) (
          Writes-then alloc
            (when-Writes alloc (not (m.gateway_udp_port == 0)) (
              varint_field-Writes alloc 3 m.gateway_udp_port (omega arith)
                (omega (arith, h.gateway_udp_port))))
            (when-Writes alloc (not (m.discovery_response_port == 0)) (
              varint_field-Writes alloc 4 m.discovery_response_port (omega arith)
                (omega (arith, h.discovery_response_port))))))

  -- The reader, run on these bytes with a round for each byte, returns the message as it arrives.
  pub smart_parse_discovery_request-bytes :
      (m : DiscoveryRequest) (rounds : ℕ) (tail : Bytes)
      → Grants alloc
      → IsDiscoveryRequest m
      → length (discovery_request_bytes m) < 2 ^ 62
      → length (discovery_request_bytes m) ≤ rounds
      → smart_parse_discovery_request alloc rounds
          (discovery_request_bytes m ++ tail)
          (length (discovery_request_bytes m))
        ≡ ok (received_discovery_request m)
  unfolding smart_parse_discovery_request discovery_request_bytes received_discovery_request
  smart_parse_discovery_request-bytes m rounds tail grants h small enough =
      field_loop-Consumes switch tail zero_discovery_request rounds
        (Consumes-then switch
          (text-Consumes switch alloc 1 (λ s. s.gateway_id) (λ v s. record s { gateway_id = v })
            m.gateway_id grants (omega arith, refl, refl) h.gateway_id (λ s. refl)
            (λ mem len pos s. refl))
          (Consumes-then switch
            (text-Consumes switch alloc 2 (λ s. s.request_timestamp)
              (λ v s. record s { request_timestamp = v }) m.request_timestamp grants
              (omega arith, refl, refl) h.request_timestamp (λ s. refl) (λ mem len pos s. refl))
            (Consumes-then switch
              (word-Consumes switch 3 to_u32 (λ s. s.gateway_udp_port)
                (λ v s. record s { gateway_udp_port = v }) m.gateway_udp_port
                (omega arith, refl, refl) (omega (arith, h.gateway_udp_port))
                (omega (arith, h.gateway_udp_port)) (λ s. refl) (λ mem len pos s. refl))
              (word-Consumes switch 4 to_u32 (λ s. s.discovery_response_port)
                (λ v s. record s { discovery_response_port = v }) m.discovery_response_port
                (omega arith, refl, refl) (omega (arith, h.discovery_response_port))
                (omega (arith, h.discovery_response_port)) (λ s. refl) (λ mem len pos s. refl)))))
        small enough
      ∙ rw (kept_word-zero m.gateway_udp_port, kept_word-zero m.discovery_response_port)
    where
      switch : Switch DiscoveryRequest
      switch = discovery_request_switch alloc

  -- Where the allocator refuses no request below 2 ^ 63, a message of texts without NUL, of numbers
  -- within their types and of less than 2 ^ 62 bytes is encoded, and its bytes, whatever follows
  -- them, are read back in as many rounds as bytes or more, as `received_discovery_request`
  -- says: "" as NULL, and all else as it was.
  pub smart_parse-smart_encode_discovery_request :
      (m : DiscoveryRequest) (rounds : ℕ) (tail : Bytes)
      → Grants alloc
      → IsDiscoveryRequest m
      → length (discovery_request_bytes m) < 2 ^ 62
      → length (discovery_request_bytes m) ≤ rounds
      → (b : Buffer) × (smart_encode_discovery_request alloc m ≡ ok b)
        × (smart_parse_discovery_request alloc rounds (b.contents ++ tail) (length b.contents)
            ≡ ok (received_discovery_request m))
  unfolding smart_encode_discovery_request smart_buffer_init
  smart_parse-smart_encode_discovery_request m rounds tail grants h small enough =
      let (b, encoded, e) =
        Appended-total alloc grants
          (discovery_request-Writes m h smart_buffer_init (omega arith) (omega arith)) in
      (b, encoded, rw e (smart_parse_discovery_request-bytes m rounds tail grants h small enough))
