-- ===== src/Gateway/Answers.antt =====
-- What the gateway answers to clients: the list of devices, and a request on the wire.
use smartcity.Prelude.{
  ℕ, ◌^◌, ◌<◌, ◌≡◌, sym, ◌∙◌, Bool, true, not, ◌&&◌, some, [], append-nil, length, ◌==◌, arith,
}
use smartcity.Outcome.{ok, ◌>>=◌}
use smartcity.Buffer.{Buffer, smart_buffer_init}
use smartcity.Buffer.Append.{Appended-total}
use smartcity.Double.{Double, Arithmetic}
use smartcity.Message.{SensorInfo, ClientRequest, ClientResponse, exit}
use smartcity.Codec.ClientRequest.{smart_parse_client_request}
use smartcity.Codec.ClientRequest.RoundTrip.{
  IsClientRequest, client_request_bytes, received_client_request, smart_parse_client_request-bytes,
}
use smartcity.Codec.ClientResponse.{smart_encode_client_response}
use smartcity.Codec.ClientResponse.RoundTrip.{
  IsClientResponse, client_response_bytes, client_response-Writes,
}
use smartcity.Gateway.{SensorRecord, GatewayState}
use smartcity.Gateway.Queries.{recently_seen}
use smartcity.Gateway.Command.{Network, process_client_request, serve}

-- A device as the list shows it: active only where it was seen recently.
abbrev pub shown : Arithmetic → Double → SensorRecord → SensorInfo
shown fp now r = record (r.info) { is_active = r.info.is_active && recently_seen fp now r }

module _ (alloc : ℕ → Bool) (granted : (n : ℕ) → alloc n ≡ true) where
  answer_sent :
      (m : ClientResponse)
      → IsClientResponse m
      → length (client_response_bytes m) < 2 ^ 62
      → (b : Buffer) × (smart_encode_client_response alloc m ≡ ok b)
        × (b.contents ≡ client_response_bytes m)
  unfolding smart_encode_client_response smart_buffer_init
  answer_sent m h small =
      Appended-total alloc (λ n _. granted n)
        (client_response-Writes alloc m h smart_buffer_init (omega arith) (omega arith))

  module _ (net : Network) (now : Double) (meanwhile : GatewayState → GatewayState) where
    -- With an allocator that refuses nothing, and a request and a response of texts without NUL, of
    -- numbers within their types and of less than 2 ^ 62 bytes: the bytes of the request are answered
    -- with those of the response to the request that arrives, the table becomes the one that goes
    -- with it, and the loop goes on unless the request is EXIT.
    pub serve-request :
        (fp : Arithmetic) (state after : GatewayState) (req : ClientRequest) (resp : ClientResponse)
        → IsClientRequest req
        → length (client_request_bytes req) < 2 ^ 62
        → process_client_request alloc net now meanwhile fp state (received_client_request req)
          ≡ ok (resp, after)
        → IsClientResponse resp
        → length (client_response_bytes resp) < 2 ^ 62
        → serve alloc net now meanwhile fp state (client_request_bytes req)
          ≡ ok (some (client_response_bytes resp), not (req.request_type == exit), after)
    serve-request fp state after req resp h small processed hr small' =
        let raw = client_request_bytes req in
        let received : smart_parse_client_request alloc (length raw) raw (length raw)
            ≡ ok (received_client_request req) =
          sym (rw append-nil)
          ∙ smart_parse_client_request-bytes alloc req (length raw) [] (λ n _. granted n) h small
              (omega arith) in
        let (b, e, c) = answer_sent resp hr small' in
        unfold serve received_client_request in rw (received, serve, processed, ◌>>=◌, e, serve, c)
