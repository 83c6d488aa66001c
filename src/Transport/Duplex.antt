-- ===== src/Transport/Duplex.antt =====
-- The two directions of a connection: smart_send_msg of 2_c/smartcity_common.c leaves what is to come,
-- and smart_recv_msg what went out.
use smartcity.Prelude.{
  ℕ, zero, suc, ◌+◌, ◌-◌, ◌%◌, ◌≡◌, refl, ◌∙◌, Bool, true, false, not, some, none, Option, [], ◌++◌,
  Bytes, length, drop, ltb,
}
use smartcity.Outcome.{
  Outcome, ok, fault, stuck, Yields, Yields-ok, Yields-of_ok, Yields-bind, Yields-if,
}
use smartcity.Buffer.{size_mod}
use smartcity.Transport.{
  Socket, to_int, htonl, ntohl, after_send, send_loop, smart_send_all, after_recv, recv_loop,
  smart_recv_exact, then_payload, smart_send_msg, then_message, smart_recv_msg,
}
use smartcity.Transport.Stream.{IsStream}

-- What is to come does not depend on what is sent: the other end has sent it, or will anyway.
pub record IsDuplex {S : Type 0} (sock : Socket S) (stream : IsStream sock) : Type 0 where
  pub send_keeps :
      (s : S) (mem : Bytes) (n : ℕ) → stream.incoming (sock.send s mem n).1 ≡ stream.incoming s
  pub recv_keeps : (s : S) (n : ℕ) → stream.outgoing (sock.recv s n).1 ≡ stream.outgoing s

module _ {S : Type 0} (sock : Socket S) (stream : IsStream sock)
    (duplex : IsDuplex sock stream) where
  open stream use {incoming, outgoing}

  Unread : Bytes → Bool × S → Type 0
  Unread v (sent, s) = incoming s ≡ v

  Unsent : Bytes → Option Bytes × S → Type 0
  Unsent v (got, s) = outgoing s ≡ v

  after_send-Unread :
      (v : Bytes) (rest : ℕ → S → Outcome (Bool × S)) (t : Option ℕ × S)
      → incoming t.1 ≡ v
      → ((chunk : ℕ) (s : S) → incoming s ≡ v → Yields (Unread v) (rest chunk s))
      → Yields (Unread v) (after_send sock rest t)
  unfolding after_send Unread Yields
  after_send-Unread v rest (none, s) h k = h
  after_send-Unread v rest (some chunk, s) h k = k chunk s h

  send_loop-Unread :
      (rounds : ℕ) (v : Bytes) (s : S) (mem : Bytes) (size sent : ℕ)
      → incoming s ≡ v
      → Yields (Unread v) (send_loop sock rounds s mem size sent)
  unfolding send_loop
  send_loop-Unread zero v s mem size sent h =
      Yields-if (Unread v) (ltb sent size) stuck (ok (true, s)) (unfold Yields in tt)
        (unfold Yields Unread in h)
  send_loop-Unread (suc rounds) v s mem size sent h =
      Yields-if (Unread v) (ltb sent size) _ (ok (true, s))
        (after_send-Unread v
          (λ chunk s'. send_loop sock rounds s' mem size ((sent + chunk) % size_mod))
          (sock.send s (drop sent mem) (to_int (size - sent)))
          (duplex.send_keeps s (drop sent mem) (to_int (size - sent)) ∙ h)
          (λ chunk s' h'. send_loop-Unread rounds v s' mem size ((sent + chunk) % size_mod) h'))
        (unfold Yields Unread in h)

  pub smart_send_msg-unread :
      (s s' : S) (payload : Bytes) (n : ℕ) (done : Bool)
      → smart_send_msg sock s payload n ≡ ok (done, s')
      → incoming s' ≡ incoming s
  unfolding smart_send_msg smart_send_all Unread then_payload
  smart_send_msg-unread s s' payload n done e =
      Yields-ok (Unread v)
        (Yields-bind (Unread v) (Unread v) (smart_send_all sock s (htonl n) 4) _
          (send_loop-Unread 4 v s (htonl n) 4 0 refl) then_sent)
        e
    where
      v : Bytes
      v = incoming s

      then_sent : (t : Bool × S) → Unread v t → Yields (Unread v) (then_payload sock payload n t)
      then_sent (false, t) h = Yields-of_ok (Unread v) (false, t) h
      then_sent (true, t) h = send_loop-Unread n v t payload n 0 h

  after_recv-Unsent :
      (v : Bytes) (room : ℕ) (rest : Bytes → S → Outcome (Option Bytes × S)) (t : Option Bytes × S)
      → outgoing t.1 ≡ v
      → ((chunk : Bytes) (s : S) → outgoing s ≡ v → Yields (Unsent v) (rest chunk s))
      → Yields (Unsent v) (after_recv sock room rest t)
  unfolding after_recv Unsent
  after_recv-Unsent v room rest (none, s) h k = Yields-of_ok (Unsent v) (none, s) h
  after_recv-Unsent v room rest (some chunk, s) h k =
      Yields-if (Unsent v) (ltb room (length chunk)) fault (rest chunk s) (unfold Yields in tt)
        (k chunk s h)

  recv_loop-Unsent :
      (rounds : ℕ) (v : Bytes) (s : S) (size : ℕ) (got : Bytes)
      → outgoing s ≡ v
      → Yields (Unsent v) (recv_loop sock rounds s size got)
  unfolding recv_loop
  recv_loop-Unsent zero v s size got h =
      Yields-if (Unsent v) (ltb (length got) size) stuck (ok (some got, s)) (unfold Yields in tt)
        (unfold Yields Unsent in h)
  recv_loop-Unsent (suc rounds) v s size got h =
      Yields-if (Unsent v) (ltb (length got) size) _ (ok (some got, s))
        (after_recv-Unsent v (size - length got)
          (λ chunk s'. recv_loop sock rounds s' size (got ++ chunk))
          (sock.recv s (to_int (size - length got)))
          (duplex.recv_keeps s (to_int (size - length got)) ∙ h)
          (λ chunk s' h'. recv_loop-Unsent rounds v s' size (got ++ chunk) h'))
        (unfold Yields Unsent in h)

  pub smart_recv_msg-unsent :
      (alloc : ℕ → Bool) (s s' : S) (got : Option Bytes)
      → smart_recv_msg sock alloc s ≡ ok (got, s')
      → outgoing s' ≡ outgoing s
  unfolding smart_recv_msg smart_recv_exact Unsent then_message
  smart_recv_msg-unsent alloc s s' got e =
      Yields-ok (Unsent v)
        (Yields-bind (Unsent v) (Unsent v) (smart_recv_exact sock s 4) _
          (recv_loop-Unsent 4 v s 4 [] refl) then_got)
        e
    where
      v : Bytes
      v = outgoing s

      then_got : (t : Option Bytes × S) → Unsent v t → Yields (Unsent v) (then_message sock alloc t)
      then_got (none, t) h = Yields-of_ok (Unsent v) (none, t) h
      then_got (some bytes, t) h =
          Yields-if (Unsent v) (not (alloc (ntohl bytes))) (ok (none, t)) _
            (Yields-of_ok (Unsent v) (none, t) h)
            (recv_loop-Unsent (ntohl bytes) v t (ntohl bytes) [] h)
