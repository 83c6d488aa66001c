-- ===== src/Gateway/Threads/Clients/Interleaving.antt =====
-- What a whole connection does to the gateway's tables, among what the other threads do.
use smartcity.Prelude.{
  ℕ, ◌≡◌, refl, sym, ap, subst, ◌∙◌, Bool, true, false, not, none, some, Option, List, [], ◌∷◌,
  ◌++◌, Bytes, length, ◌==◌,
}
use smartcity.Outcome.{
  Outcome, ok, rejected, fault, stuck, ◌>>=◌, Yields, Yields-ok, Yields-of_ok, Yields-bind,
  Yields-intro, Yields-map,
}
use smartcity.Buffer.{Buffer}
use smartcity.Double.{Arithmetic}
use smartcity.Decode.{to_u32}
use smartcity.Message.{ClientRequest, ClientResponse, exit}
use smartcity.Codec.ClientRequest.{smart_parse_client_request}
use smartcity.Codec.ClientResponse.{smart_encode_client_response}
use smartcity.Gateway.{GatewayState}
use smartcity.Gateway.Command.{process_client_request, serve}
use smartcity.Gateway.Events.{Event, run}
use smartcity.Gateway.Events.Requests.{Caused, run-append, process_client_request-run}
use smartcity.Transport.{Socket, smart_recv_msg, smart_send_msg}
use smartcity.Gateway.Threads.Clients.{
  Pass, reply_sent, message_served, message_received, client_thread,
}

known-Yields {ℓ κ μ} :
    {A : Type ℓ} {B : Type κ} (Q : B → Type μ) (o : Outcome A) (f : A → Outcome B)
    → ((a : A) → o ≡ ok a → Yields Q (f a))
    → Yields Q (o >>= f)
unfolding Yields
known-Yields Q (ok a) f k = k a refl
known-Yields Q rejected f k = tt
known-Yields Q fault f k = tt
known-Yields Q stuck f k = tt

module _ (alloc : ℕ → Bool) where
  -- The events of a message in the tables `g`: none where it is refused, or those of its request.
  pub data Served (p : Pass) (g : GatewayState) (raw : Bytes) : List Event → Type 1 where
    refused :
        smart_parse_client_request alloc (length raw) raw (length raw) ≡ rejected
        → Served p g raw []
    accepted :
        (req : ClientRequest) (es : List Event)
        → smart_parse_client_request alloc (length raw) raw (length raw) ≡ ok req
        → Caused alloc p.net p.now p.others g req.target_sensor_id es
        → Served p g raw es

  -- The tables `g'` come of one message in the tables `g`.
  Requested : Pass → GatewayState → Bytes → GatewayState → Type 1
  Requested p g raw g' = (es : List Event) × Served p g raw es × (g' ≡ run alloc es g)

  module _ {S : Type 0} (sock : Socket S) where
    -- The events of a connection from the state `s` of its socket and the tables `g` on: for each
    -- message that came in, those before it and those of its request.
    pub data Session : List Pass → S → GatewayState → List Event → Type 1 where
      closed :
          (p : Pass) (rest : List Pass) (s s₁ : S) (g : GatewayState)
          → smart_recv_msg sock alloc s ≡ ok (none, s₁)
          → Session (p ∷ rest) s g p.before
      last :
          (p : Pass) (rest : List Pass) (s s₁ : S) (g : GatewayState) (raw : Bytes)
          (es : List Event)
          → smart_recv_msg sock alloc s ≡ ok (some raw, s₁)
          → Served p (run alloc p.before g) raw es
          → Session (p ∷ rest) s g (p.before ++ es)
      more :
          (p : Pass) (rest : List Pass) (s s₁ s₂ : S) (g : GatewayState) (raw out : Bytes)
          (sent : Bool) (es later : List Event)
          → smart_recv_msg sock alloc s ≡ ok (some raw, s₁)
          → Served p (run alloc p.before g) raw es
          → smart_send_msg sock s₁ out (to_u32 (length out)) ≡ ok (sent, s₂)
          → Session rest s₂ (run alloc es (run alloc p.before g)) later
          → Session (p ∷ rest) s g (p.before ++ (es ++ later))

  module _ (fp : Arithmetic) where
    made : Bool → GatewayState → Outcome Buffer → Outcome (Option Bytes × Bool × GatewayState)
    made goes_on g o = elim o [
      | ok payload ↦ ok (some payload.contents, goes_on, g)
      | rejected ↦ ok (none, false, g)
      | fault ↦ fault
      | stuck ↦ stuck
    ]

    made-Yields :
        (P : GatewayState → Type 1) (goes_on : Bool) (g : GatewayState) (o : Outcome Buffer)
        → P g
        → Yields (λ (u : Option Bytes × Bool × GatewayState). P u.2) (made goes_on g o)
    unfolding made Yields
    made-Yields P goes_on g (ok payload) h = h
    made-Yields P goes_on g rejected h = h
    made-Yields P goes_on g fault h = tt
    made-Yields P goes_on g stuck h = tt

    module _ (p : Pass) (g : GatewayState) (raw : Bytes) where
      parsed-Requested :
          (o : Outcome ClientRequest)
          → smart_parse_client_request alloc (length raw) raw (length raw) ≡ o
          → Yields
              (λ (u : Option Bytes × Bool × GatewayState). Requested p g raw u.2)
              (elim o [
                | ok req ↦
                    process_client_request alloc p.net p.now (run alloc p.others) fp g req
                    >>= λ (resp, g').
                        made
                          (not (req.request_type == exit))
                          g'
                          (smart_encode_client_response alloc resp)
                | rejected ↦ ok (none, false, g)
                | fault ↦ fault
                | stuck ↦ stuck
              ])
      unfolding Yields Requested
      parsed-Requested (ok req) parsed =
          Yields-bind (λ (t : ClientResponse × GatewayState). Requested p g raw t.1) _
            (process_client_request alloc p.net p.now (run alloc p.others) fp g req) _
            (Yields-intro (λ (t : ClientResponse × GatewayState). Requested p g raw t.1) _
              (λ (resp, g') e.
                let (es, caused, e') =
                  process_client_request-run alloc p.net p.now p.others fp g g' req resp e in
                (es, accepted req es parsed caused, e')))
            (λ (resp, g') h.
              made-Yields (Requested p g raw) (not (req.request_type == exit)) g'
                (smart_encode_client_response alloc resp) h)
      parsed-Requested rejected parsed = ([], refused parsed, unfold run in refl)
      parsed-Requested fault parsed = tt
      parsed-Requested stuck parsed = tt

      serve-Requested :
          Yields
            (λ (u : Option Bytes × Bool × GatewayState). Requested p g raw u.2)
            (serve alloc p.net p.now (run alloc p.others) fp g raw)
      unfolding serve made
      serve-Requested =
          parsed-Requested (smart_parse_client_request alloc (length raw) raw (length raw)) refl

    module _ {S : Type 0} (sock : Socket S) where
      Ran : List Pass → S → GatewayState → S × GatewayState → Type 1
      Ran passes s g (s', g') =
          (events : List Event) × Session sock passes s g events × (g' ≡ run alloc events g)

      -- The tables behind one message, and then those behind the others.
      sent-Ran :
          (p : Pass) (rest : List Pass) (s s₁ : S) (g g' : GatewayState) (raw out : Bytes)
          (goes_on : Bool) (t : Bool × S)
          → smart_recv_msg sock alloc s ≡ ok (some raw, s₁)
          → smart_send_msg sock s₁ out (to_u32 (length out)) ≡ ok t
          → Requested p (run alloc p.before g) raw g'
          → ((s : S) → Yields (Ran rest s g') (client_thread alloc fp sock rest s g'))
          → Yields
              (Ran (p ∷ rest) s g)
              (reply_sent alloc fp sock goes_on g' (client_thread alloc fp sock rest) t)
      unfolding reply_sent Yields Ran Requested
      sent-Ran p rest s s₁ g g' raw out false (sent, s₂) got gone (es, served, e) next = (
        p.before ++ es,
        last p rest s s₁ g raw es got served,
        e ∙ sym (run-append alloc p.before es g),
      )
      sent-Ran p rest s s₁ g g' raw out true (sent, s₂) got gone (es, served, e) next =
          Yields-map (Ran rest s₂ g') (Ran (p ∷ rest) s g) (client_thread alloc fp sock rest s₂ g')
            (next s₂)
            (λ t (later, session, e'). (
              p.before ++ (es ++ later),
              more p rest s s₁ s₂ g raw out sent es later got served gone
                  (subst (λ h. Session sock rest s₂ h later) e session),
              e'
                  ∙ ap (run alloc later) e
                  ∙ sym (run-append alloc es later (run alloc p.before g))
                  ∙ sym (run-append alloc p.before (es ++ later) g),
            ))

      served-Ran :
          (p : Pass) (rest : List Pass) (g : GatewayState) (s s₁ : S) (raw : Bytes)
          (u : Option Bytes × Bool × GatewayState)
          → smart_recv_msg sock alloc s ≡ ok (some raw, s₁)
          → Requested p (run alloc p.before g) raw u.2
          → ((s : S) (g' : GatewayState)
              → Yields (Ran rest s g') (client_thread alloc fp sock rest s g'))
          → Yields
              (Ran (p ∷ rest) s g)
              (message_served alloc fp sock s₁ (client_thread alloc fp sock rest) u)
      unfolding message_served Requested Ran
      served-Ran p rest g s s₁ raw (none, goes_on, g') got (es, served, e) next =
          Yields-of_ok (Ran (p ∷ rest) s g) (s₁, g')
            (
              p.before ++ es,
              last p rest s s₁ g raw es got served,
              e ∙ sym (run-append alloc p.before es g),
            )
      served-Ran p rest g s s₁ raw (some out, goes_on, g') got h next =
          let o = smart_send_msg sock s₁ out (to_u32 (length out)) in
          known-Yields (Ran (p ∷ rest) s g) o _
            (λ t gone. sent-Ran p rest s s₁ g g' raw out goes_on t got gone h (λ s'. next s' g'))

      received-Ran :
          (p : Pass) (rest : List Pass) (g : GatewayState) (s : S) (t : Option Bytes × S)
          → smart_recv_msg sock alloc s ≡ ok t
          → ((s : S) (g' : GatewayState)
              → Yields (Ran rest s g') (client_thread alloc fp sock rest s g'))
          → Yields
              (Ran (p ∷ rest) s g)
              (message_received alloc fp sock p g (client_thread alloc fp sock rest) t)
      unfolding message_received Ran
      received-Ran p rest g s (none, s₁) got next =
          Yields-of_ok (Ran (p ∷ rest) s g) (s₁, run alloc p.before g)
            (p.before, closed p rest s s₁ g got, refl)
      received-Ran p rest g s (some raw, s₁) got next =
          Yields-bind
            (λ (u : Option Bytes × Bool × GatewayState). Requested p (run alloc p.before g) raw u.2)
            (Ran (p ∷ rest) s g)
            (serve alloc p.net p.now (run alloc p.others) fp (run alloc p.before g) raw) _
            (serve-Requested p (run alloc p.before g) raw)
            (λ u h. served-Ran p rest g s s₁ raw u got h next)

      client_thread-Ran :
          (passes : List Pass) (s : S) (g : GatewayState)
          → Yields (Ran passes s g) (client_thread alloc fp sock passes s g)
      unfolding client_thread
      client_thread-Ran [] s g = unfold Yields in tt
      client_thread-Ran (p ∷ rest) s g =
          let o = smart_recv_msg sock alloc s in
          known-Yields (Ran (p ∷ rest) s g) o _
            (λ t got. received-Ran p rest g s t got (λ s' g'. client_thread-Ran rest s' g'))

      -- Whatever the allocator does, whatever `socket`, `connect`, `send` and `recv` answer in each pass,
      -- and whatever other threads do while the thread of a client waits for its messages and between
      -- the critical sections of its commands: when the connection has ended, the tables are those
      -- behind a sequence of events that follows the messages in the order in which they were received.
      -- For each it has the others' events before it; and, for a message that parses, nothing more, the
      -- others' events between its critical sections, or these and behind them the answer that the
      -- device of the request, found in the tables of that moment, sent back on a command for it.
      pub client_thread-run :
          (passes : List Pass) (s s' : S) (g g' : GatewayState)
          → client_thread alloc fp sock passes s g ≡ ok (s', g')
          → (events : List Event) × Session sock passes s g events × (g' ≡ run alloc events g)
      unfolding Ran
      client_thread-run passes s s' g g' e =
          Yields-ok (Ran passes s g) (client_thread-Ran passes s g) e
