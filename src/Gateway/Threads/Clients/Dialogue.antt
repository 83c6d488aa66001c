-- ===== src/Gateway/Threads/Clients/Dialogue.antt =====
-- A client that sends its requests one after the other, the last one EXIT, is answered in that order.
use smartcity.Prelude.{
  ℕ, ◌^◌, ◌<◌, ◌≡◌, sym, ap, ◌∙◌, Bool, true, false, not, some, List, [], ◌∷◌, ◌++◌, append_assoc,
  append-nil, Bytes, length, if◌then◌else◌, ◌==◌, arith,
}
use smartcity.Outcome.{ok, ◌>>=◌}
use smartcity.Double.{Arithmetic}
use smartcity.Decode.{to_u32}
use smartcity.Message.{ClientRequest, ClientResponse, exit}
use smartcity.Codec.ClientRequest.RoundTrip.{
  IsClientRequest, client_request_bytes, received_client_request,
}
use smartcity.Codec.ClientResponse.RoundTrip.{IsClientResponse, client_response_bytes}
use smartcity.Gateway.{GatewayState}
use smartcity.Gateway.Command.{process_client_request, serve}
use smartcity.Gateway.Answers.{serve-request}
use smartcity.Gateway.Events.{run}
use smartcity.Transport.{Socket, htonl, smart_recv_msg, smart_send_msg}
use smartcity.Transport.Stream.{IsStream}
use smartcity.Transport.Sending.{smart_send_msg-whole}
use smartcity.Transport.Receiving.{smart_recv_msg-whole}
use smartcity.Transport.Duplex.{IsDuplex, smart_send_msg-unread, smart_recv_msg-unsent}
use smartcity.Gateway.Threads.Clients.{
  Pass, reply_sent, message_served, message_received, client_thread,
}

-- A message behind its length.
abbrev pub frame : Bytes → Bytes
frame payload = htonl (length payload) ++ payload

abbrev pub asked : List ClientRequest → Bytes
asked [] = []
asked (req ∷ reqs) = frame (client_request_bytes req) ++ asked reqs

abbrev pub told : List ClientResponse → Bytes
told [] = []
told (resp ∷ resps) = frame (client_response_bytes resp) ++ told resps

module _ (alloc : ℕ → Bool) (fp : Arithmetic) where
  -- One request in its pass: both messages are of texts without NUL and of numbers within their types,
  -- and below 2 ^ 31 bytes.
  pub record Exchanged (p : Pass) (req : ClientRequest) (g : GatewayState) (resp : ClientResponse)
      (g' : GatewayState) : Type 0 where
    pub valid : IsClientRequest req
    pub small : length (client_request_bytes req) < 2 ^ 31
    pub processed :
        process_client_request alloc p.net p.now
          (run alloc p.others)
          fp
          (run alloc p.before g)
          (received_client_request req)
        ≡ ok (resp, g')
    pub answer_valid : IsClientResponse resp
    pub answer_small : length (client_response_bytes resp) < 2 ^ 31

  -- The answers to requests in their order, up to EXIT.
  pub data Dialogue
      : List Pass
        → List ClientRequest
        → GatewayState
        → List ClientResponse
        → GatewayState
        → Type 1 where
    last :
        (p : Pass) (rest : List Pass) (req : ClientRequest) (g : GatewayState)
        (resp : ClientResponse) (g' : GatewayState)
        → Exchanged p req g resp g'
        → (req.request_type == exit) ≡ true
        → Dialogue (p ∷ rest) (req ∷ []) g (resp ∷ []) g'
    more :
        (p : Pass) (rest : List Pass) (req : ClientRequest) (reqs : List ClientRequest)
        (g g₁ : GatewayState) (resp : ClientResponse) (resps : List ClientResponse)
        (g' : GatewayState)
        → Exchanged p req g resp g₁
        → (req.request_type == exit) ≡ false
        → Dialogue rest reqs g₁ resps g'
        → Dialogue (p ∷ rest) (req ∷ reqs) g (resp ∷ resps) g'

  module _ (granted : (n : ℕ) → alloc n ≡ true) {S : Type 0} (sock : Socket S)
      (stream : IsStream sock) (duplex : IsDuplex sock stream) where
    open stream use {incoming, outgoing}

    pass_steps :
        (p : Pass) (rest : List Pass) (s s₁ s₂ : S) (g g₁ : GatewayState) (raw out : Bytes)
        (goes_on : Bool)
        → smart_recv_msg sock alloc s ≡ ok (some raw, s₁)
        → serve alloc p.net p.now (run alloc p.others) fp (run alloc p.before g) raw
          ≡ ok (some out, goes_on, g₁)
        → length out < 2 ^ 32
        → smart_send_msg sock s₁ out (length out) ≡ ok (true, s₂)
        → client_thread alloc fp sock (p ∷ rest) s g
          ≡ (if goes_on then client_thread alloc fp sock rest s₂ g₁ else ok (s₂, g₁))
    unfolding client_thread message_received message_served reply_sent
    pass_steps p rest s s₁ s₂ g g₁ raw out goes_on got served small sent =
        let word : to_u32 (length out) ≡ length out = omega arith in
        rw (got, message_received, served, ◌>>=◌, message_served, word, sent, reply_sent)

    pass_answered :
        (p : Pass) (rest : List Pass) (req : ClientRequest) (g : GatewayState)
        (resp : ClientResponse) (g₁ : GatewayState) (s : S) (later : Bytes)
        → Exchanged p req g resp g₁
        → incoming s ≡ frame (client_request_bytes req) ++ later
        → (s₂ : S) × (client_thread alloc fp sock (p ∷ rest) s g ≡ (
            if not (req.request_type == exit)
            then client_thread alloc fp sock rest s₂ g₁
            else ok (s₂, g₁)))
          × (incoming s₂ ≡ later)
          × (outgoing s₂ ≡ outgoing s ++ frame (client_response_bytes resp))
    pass_answered p rest req g resp g₁ s later x comes =
        let raw = client_request_bytes req in
        let out = client_response_bytes resp in
        let (s₁, got, left) =
          smart_recv_msg-whole sock stream alloc s raw later x.small (granted (length raw)) comes in
        let (s₂, sent, gone) = smart_send_msg-whole sock stream s₁ out x.answer_small in
        let served =
          serve-request alloc granted p.net p.now (run alloc p.others) fp (run alloc p.before g) g₁
            req resp x.valid (omega (arith, x.small)) x.processed x.answer_valid
            (omega (arith, x.answer_small)) in
        (
          s₂,
          pass_steps p rest s s₁ s₂ g g₁ raw out (not (req.request_type == exit)) got served
              (omega (arith, x.answer_small)) sent,
          smart_send_msg-unread sock stream duplex s₁ s₂ out (length out) true sent ∙ left,
          gone
              ∙ ap (λ t. t ++ frame out)
                  (smart_recv_msg-unsent sock stream duplex alloc s s₁ (some raw) got),
        )

    -- With an allocator that refuses nothing, on an open connection, where each request and each answer
    -- consists of texts without NUL and of numbers within their types and has less than 2 ^ 31 bytes on
    -- the wire: where a client sends requests, the last of them EXIT, and these are the answers that
    -- process_client_request gives to them as they arrive, one after the other, `client_thread` ends;
    -- it has sent exactly the answers, in their order, has left what came behind the requests, and the
    -- tables are those behind the last answer.
    pub client_thread-answers :
        (passes : List Pass) (reqs : List ClientRequest) (g : GatewayState)
        (resps : List ClientResponse) (g' : GatewayState) (s : S) (later : Bytes)
        → Dialogue passes reqs g resps g'
        → incoming s ≡ asked reqs ++ later
        → (s' : S) × (client_thread alloc fp sock passes s g ≡ ok (s', g'))
          × (incoming s' ≡ later)
          × (outgoing s' ≡ outgoing s ++ told resps)
    client_thread-answers _ _ _ _ _ s later (last p rest req g resp g' x leaves) comes =
        let (s₂, e, left, gone) =
          pass_answered p rest req g resp g' s later x
            (comes ∙ ap (λ t. t ++ later) (append-nil _)) in
        (s₂, e ∙ rw leaves, left, gone ∙ ap (λ t. outgoing s ++ t) (sym (append-nil _)))
    client_thread-answers _ _ _ _ _ s later (more p rest req reqs g g₁ resp resps g' x stays next)
          comes =
        let (s₂, e, left, gone) =
          pass_answered p rest req g resp g₁ s (asked reqs ++ later) x
            (comes ∙ append_assoc (frame (client_request_bytes req)) (asked reqs) later) in
        let (s', e', left', gone') =
          client_thread-answers rest reqs g₁ resps g' s₂ later next left in
        (
          s',
          e ∙ (rw stays) ∙ e',
          left',
          gone'
              ∙ ap (λ t. t ++ told resps) gone
              ∙ append_assoc (outgoing s) (frame (client_response_bytes resp)) (told resps),
        )
