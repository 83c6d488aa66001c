-- ===== src/Client/Conversation.antt =====
-- A pass of the loop of `main` in 2_c/client.c, with client_thread of 2_c/gateway.c at the other end of
-- the connection.
use smartcity.Prelude.{
  ℕ, ◌^◌, ◌≤◌, ◌<◌, ◌≡◌, sym, ◌∙◌, Bool, true, not, some, Option, [], ◌++◌, append-nil, Bytes,
  length, ◌==◌, arith,
}
use smartcity.Outcome.{ok, ◌>>=◌}
use smartcity.Buffer.{Buffer, smart_buffer_init}
use smartcity.Buffer.Append.{Appended-total}
use smartcity.Double.{Double, IsDouble, Arithmetic}
use smartcity.Decode.{to_u32}
use smartcity.Message.{ClientRequest, ClientResponse, exit}
use smartcity.Codec.ClientRequest.{smart_encode_client_request}
use smartcity.Codec.ClientRequest.RoundTrip.{
  IsClientRequest, client_request_bytes, received_client_request, client_request-Writes,
}
use smartcity.Codec.ClientResponse.RoundTrip.{
  IsClientResponse, client_response_bytes, received_client_response,
  smart_parse_client_response-bytes,
}
use smartcity.Gateway.{GatewayState}
use smartcity.Gateway.Command.{Network, process_client_request, serve}
use smartcity.Gateway.Answers.{serve-request}
use smartcity.Transport.{Socket, htonl}
use smartcity.Transport.Stream.{IsStream}
use smartcity.Client.Input.{read_line, parse_int_line}
use smartcity.Client.Menu.{build_request}
use smartcity.Client.Response.{parse_client_response}
use smartcity.Client.Response.Equal.{parse_client_response-smart}
use smartcity.Client.Writer.{encode_client_request}
use smartcity.Client.Writer.Equal.{encode_client_request-smart}
use smartcity.Client.Messages.{send_msg, recv_msg}
use smartcity.Client.Session.{answered, after_request, after_reply, ask, turned, with_request, turn}
use smartcity.Client.Asked.{build_request-IsClientRequest}
use smartcity.Client.Framing.{send_msg-whole, recv_msg-whole}

module _ (alloc : ℕ → Bool) (granted : (n : ℕ) → alloc n ≡ true) where
  request_encoded :
      (req : ClientRequest)
      → IsClientRequest req
      → 0 < req.request_type
      → length (client_request_bytes req) ≤ 608
      → (b : Buffer) × (smart_encode_client_request alloc req ≡ ok b)
        × (b.contents ≡ client_request_bytes req)
  unfolding smart_encode_client_request smart_buffer_init
  request_encoded req h typed small =
      Appended-total alloc (λ n _. granted n)
        (client_request-Writes alloc req h smart_buffer_init (omega arith) (omega arith))

  response_parsed :
      (resp : ClientResponse)
      → IsClientResponse resp
      → length (client_response_bytes resp) < 2 ^ 31
      → parse_client_response alloc
          (length (client_response_bytes resp))
          (client_response_bytes resp)
          (length (client_response_bytes resp))
        ≡ ok (received_client_response resp)
  response_parsed resp h small =
      let raw = client_response_bytes resp in
      parse_client_response-smart alloc (length raw) raw (length raw)
      ∙ sym (rw append-nil)
      ∙ smart_parse_client_response-bytes alloc granted resp (length raw) [] h (omega arith)
          (omega arith)

  module _ {S : Type 0} (sock : Socket S) (stream : IsStream sock) where
    open stream use {incoming, outgoing}

    ask_steps :
        (req : ClientRequest) (b : Buffer) (raw reply : Bytes) (resp : ClientResponse) (s s1 s2 : S)
        → encode_client_request alloc req ≡ ok b
        → b.contents ≡ raw
        → length raw < 2 ^ 32
        → send_msg alloc sock s raw (length raw) ≡ ok (true, s1)
        → recv_msg alloc sock s1 ≡ ok (some reply, s2)
        → parse_client_response alloc (length reply) reply (length reply) ≡ ok resp
        → ask alloc sock req s ≡ ok (some resp, s2)
    unfolding ask after_request after_reply
    ask_steps req b raw reply resp s s1 s2 e c small sent got parsed =
        let word : to_u32 (length raw) ≡ length raw = omega arith in
        rw (e, ask, c, word, sent, ◌>>=◌, after_request, got, after_reply, parsed)

    ask-answered :
        (req : ClientRequest) (resp : ClientResponse) (s : S) (later : Bytes)
        → IsClientRequest req
        → 0 < req.request_type
        → length (client_request_bytes req) ≤ 608
        → IsClientResponse resp
        → length (client_response_bytes resp) < 2 ^ 31
        → ((s' : S)
            → send_msg alloc sock s (client_request_bytes req) (length (client_request_bytes req))
              ≡ ok (true, s')
            → incoming s'
              ≡ (htonl (length (client_response_bytes resp)) ++ client_response_bytes resp)
                ++ later)
        → (s' : S) × (ask alloc sock req s ≡ ok (some (received_client_response resp), s'))
          × (incoming s' ≡ later)
    ask-answered req resp s later h typed short k small comes =
        let (b, e, c) = request_encoded req h typed short in
        let (s1, sent, gone) =
          send_msg-whole alloc sock stream s (client_request_bytes req) (omega arith) in
        let (s2, got, left) =
          recv_msg-whole alloc sock stream s1 (client_response_bytes resp) later small (granted _)
            (comes s1 sent) in
        (
          s2,
          ask_steps req b (client_request_bytes req) (client_response_bytes resp)
              (received_client_response resp) s s1 s2
              (encode_client_request-smart alloc req typed ∙ e) c (omega arith) sent got
              (response_parsed resp k small),
          left,
        )

    turn_steps :
        (strtod : Bytes → Option (Double × Bytes)) (input line left left' : Bytes) (option : ℕ)
        (req : ClientRequest) (resp : ClientResponse) (s s' : S)
        → read_line 64 input ≡ some (line, left)
        → parse_int_line line ≡ some option
        → build_request alloc strtod option left ≡ (some req, left')
        → ask alloc sock req s ≡ ok (some resp, s')
        → turn alloc sock strtod input s ≡ ok (answered resp (not (option == 11)), left', s')
    unfolding turn with_request turned
    turn_steps strtod input line left left' option req resp s s' typed chose built told =
        rw (typed, turn, chose, turn, built, with_request, told, ◌>>=◌, turned)

    -- With an allocator that refuses nothing and a `strtod` that returns doubles: the user types a line
    -- with an entry of the menu, and what `build_request` asks for then. The gateway answers the
    -- request that arrives with `resp`, of texts without NUL and numbers within their types and of less
    -- than 2 ^ 31 bytes; and once the client has sent the bytes of its request, the reply of
    -- `client_thread` to them is what is to come on the connection. Then `client_thread` answers the bytes that the client sends
    -- with those of `resp`, and the pass of the client's loop ends with `resp`, as it arrives, for the
    -- user, goes on unless the entry was 11, and leaves no byte of the reply unread.
    pub turn-answered :
        (strtod : Bytes → Option (Double × Bytes))
        → ((text rest : Bytes) (v : Double) → strtod text ≡ some (v, rest) → IsDouble v)
        → (net : Network) (now : Double) (meanwhile : GatewayState → GatewayState) (fp : Arithmetic)
          (state after : GatewayState) (input line left left' : Bytes) (option : ℕ)
          (req : ClientRequest) (resp : ClientResponse) (s : S)
        → read_line 64 input ≡ some (line, left)
        → parse_int_line line ≡ some option
        → build_request alloc strtod option left ≡ (some req, left')
        → process_client_request alloc net now meanwhile fp state (received_client_request req)
          ≡ ok (resp, after)
        → IsClientResponse resp
        → length (client_response_bytes resp) < 2 ^ 31
        → ((reply : Bytes) (goes_on : Bool) (s' : S)
            → send_msg alloc sock s (client_request_bytes req) (length (client_request_bytes req))
              ≡ ok (true, s')
            → serve alloc net now meanwhile fp state (client_request_bytes req)
              ≡ ok (some reply, goes_on, after)
            → incoming s' ≡ htonl (length reply) ++ reply)
        → (s' : S) × (serve alloc net now meanwhile fp state (client_request_bytes req)
            ≡ ok (some (client_response_bytes resp), not (req.request_type == exit), after))
          × (turn alloc sock strtod input s
              ≡ ok (answered (received_client_response resp) (not (option == 11)), left', s'))
          × (incoming s' ≡ [])
    turn-answered strtod doubles net now meanwhile fp state after input line left left' option req
          resp s typed chose built processed k small comes =
        let (valid, some_type, short) =
          build_request-IsClientRequest alloc strtod doubles option left left' req built in
        let served =
          serve-request alloc granted net now meanwhile fp state after req resp valid (omega arith)
            processed k (omega arith) in
        let (s', told, rest) =
          ask-answered req resp s [] valid some_type short k small
            (λ s1 sent. comes _ _ s1 sent served ∙ sym (append-nil _)) in
        (
          s',
          served,
          turn_steps strtod input line left left' option req (received_client_response resp) s s'
              typed chose built told,
          rest,
        )
