-- ===== src/Gateway/Threads/Clients.antt =====
-- client_thread of 2_c/gateway.c from the first message of a client to the end of the connection.
pub mod Interleaving
pub mod Dialogue
use smartcity.Prelude.{ℕ, Bool, none, some, Option, List, [], ◌∷◌, Bytes, length, if◌then◌else◌}
use smartcity.Outcome.{Outcome, ok, stuck, ◌>>=◌}
use smartcity.Double.{Double, Arithmetic}
use smartcity.Decode.{to_u32}
use smartcity.Gateway.{GatewayState}
use smartcity.Gateway.Command.{Network, serve}
use smartcity.Gateway.Events.{Event, run}
use smartcity.Transport.{Socket, smart_recv_msg, smart_send_msg}

-- What goes on beside a pass of the loop: the events of other threads while it waits for a message,
-- the time at which it serves it, what the operating system does for its command, if it sends one,
-- and the events between the two critical sections of a command.
pub record Pass : Type 1 where
  pub before : List Event
  pub now : Double
  pub net : Network
  pub others : List Event

module _ (alloc : ℕ → Bool) (fp : Arithmetic) {S : Type 0} (sock : Socket S) where
  -- Behind `smart_send_msg`, whose result is not looked at.
  unfoldable pub reply_sent :
      Bool
      → GatewayState
      → (S → GatewayState → Outcome (S × GatewayState))
      → Bool × S
      → Outcome (S × GatewayState)
  reply_sent goes_on g next (sent, s) = if goes_on then next s g else ok (s, g)

  unfoldable pub message_served :
      S
      → (S → GatewayState → Outcome (S × GatewayState))
      → Option Bytes × Bool × GatewayState
      → Outcome (S × GatewayState)
  unfolding reply_sent
  message_served s next (none, goes_on, g) = ok (s, g)
  message_served s next (some out, goes_on, g) =
      smart_send_msg sock s out (to_u32 (length out)) >>= reply_sent goes_on g next

  unfoldable pub message_received :
      Pass
      → GatewayState
      → (S → GatewayState → Outcome (S × GatewayState))
      → Option Bytes × S
      → Outcome (S × GatewayState)
  unfolding message_served
  message_received p g next (none, s) = ok (s, run alloc p.before g)
  message_received p g next (some raw, s) =
      serve alloc p.net p.now (run alloc p.others) fp (run alloc p.before g) raw
      >>= message_served s next

  -- The loop, for as many passes as are given.
  unfoldable pub client_thread : List Pass → S → GatewayState → Outcome (S × GatewayState)
  unfolding message_received
  client_thread [] s g = stuck
  client_thread (p ∷ rest) s g =
      smart_recv_msg sock alloc s >>= message_received p g (client_thread rest)
