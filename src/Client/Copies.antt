-- ===== src/Client/Copies.antt =====
-- 2_c/client.c has its own copies of functions of 2_c/smartcity_common.c. What both do is the same.
use smartcity.Prelude.{ℕ, ◌<◌, ◌≡◌, refl, Bool, true, false, Bytes}
use smartcity.Outcome.{bind-same}
use smartcity.Message.{ClientRequest}
use smartcity.Codec.ClientRequest.{smart_encode_client_request}
use smartcity.Codec.ClientResponse.{smart_parse_client_response}
use smartcity.Transport.{Socket, htonl, then_payload, smart_send_msg}
use smartcity.Client.Writer.{encode_client_request}
use smartcity.Client.Writer.Equal.{encode_client_request-smart}
use smartcity.Client.Response.{parse_client_response}
use smartcity.Client.Response.Equal.{parse_client_response-smart}
use smartcity.Client.Messages.{after_header, send_msg}
use smartcity.Client.Framing.{send_all-same, buffer_append_u32_be-htonl}

module _ (alloc : ℕ → Bool) {S : Type 0} (sock : Socket S) where
  after_header-same :
      (payload : Bytes) (n : ℕ) (t : Bool × S)
      → after_header alloc sock payload n t ≡ then_payload sock payload n t
  unfolding after_header then_payload
  after_header-same payload n (false, s) = refl
  after_header-same payload n (true, s) = send_all-same alloc sock s payload n

  send_msg-smart :
      (s : S) (payload : Bytes) (n : ℕ)
      → send_msg alloc sock s payload n ≡ smart_send_msg sock s payload n
  unfolding send_msg smart_send_msg
  send_msg-smart s payload n =
      rw (buffer_append_u32_be-htonl n)
        (bind-same (send_all-same alloc sock s (htonl n) 4) (after_header-same payload n))

  -- Whatever the allocator and the connection do: for a request with a type, `encode_client_request`
  -- makes what smart_encode_client_request makes or fails as it does; for any bytes that claim any
  -- length, `parse_client_response` reads what smart_parse_client_response reads or fails as it does;
  -- and `send_msg` leaves any connection as smart_send_msg would, with the same result.
  pub client_copies-same :
      (req : ClientRequest) (rounds : ℕ) (mem : Bytes) (len : ℕ) (s : S) (payload : Bytes) (n : ℕ)
      → 0 < req.request_type
      → (encode_client_request alloc req ≡ smart_encode_client_request alloc req)
        × (parse_client_response alloc rounds mem len
            ≡ smart_parse_client_response alloc rounds mem len)
        × (send_msg alloc sock s payload n ≡ smart_send_msg sock s payload n)
  client_copies-same req rounds mem len s payload n typed = (
    encode_client_request-smart alloc req typed,
    parse_client_response-smart alloc rounds mem len,
    send_msg-smart s payload n,
  )
