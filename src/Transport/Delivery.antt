-- ===== src/Transport/Delivery.antt =====
-- A message from one end of a TCP connection to the other, by smart_send_msg and smart_recv_msg of
-- 2_c/smartcity_common.c.
use smartcity.Prelude.{
  ℕ, ◌^◌, ◌<◌, ◌≡◌, refl, ap, ◌∙◌, Bool, true, some, ◌++◌, Bytes, length, drop-append, drop,
}
use smartcity.Outcome.{ok}
use smartcity.Transport.{Socket, htonl, smart_send_msg, smart_recv_msg}
use smartcity.Transport.Stream.{IsStream}
use smartcity.Transport.Sending.{smart_send_msg-whole}
use smartcity.Transport.Receiving.{smart_recv_msg-whole}

module _ {S R : Type 0} (sender : Socket S) (receiver : Socket R) (out : IsStream sender)
    (into : IsStream receiver) where
  -- A message of less than 2 ^ 31 bytes that `smart_send_msg` sends on an open connection is what
  -- `smart_recv_msg` returns at the other end, when its `malloc` succeeds: however `send` and `recv`
  -- cut the bytes, both calls end with success, and the bytes that come behind the message, `later`,
  -- are left for the next call. `wire b` is a receiver to which the bytes `b` are to come.
  pub smart_recv_msg-smart_send_msg :
      (alloc : ℕ → Bool) (wire : Bytes → R)
      → ((b : Bytes) → into.incoming (wire b) ≡ b)
      → (s : S) (payload later : Bytes) → length payload < 2 ^ 31
      → alloc (length payload) ≡ true
      → (s' : S) × (r' : R) × (smart_send_msg sender s payload (length payload) ≡ ok (true, s'))
        × (smart_recv_msg receiver alloc
              (wire (drop (length (out.outgoing s)) (out.outgoing s') ++ later))
            ≡ ok (some payload, r'))
        × (into.incoming r' ≡ later)
  smart_recv_msg-smart_send_msg alloc wire carries s payload later small granted =
      let (s', sent, gone) = smart_send_msg-whole sender out s payload small in
      let new =
        drop-append (length (out.outgoing s)) (out.outgoing s) (htonl (length payload) ++ payload)
          refl in
      let there : into.incoming (wire (drop (length (out.outgoing s)) (out.outgoing s') ++ later))
          ≡ (htonl (length payload) ++ payload) ++ later =
        carries _ ∙ ap (λ t. t ++ later) (ap (drop (length (out.outgoing s))) gone ∙ new) in
      let (r', received, left) =
        smart_recv_msg-whole receiver into alloc _ payload later small granted there in
      (s', r', sent, received, left)
