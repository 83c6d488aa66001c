-- ===== src/Gateway/Threads/Datagrams.antt =====
-- The loops of udp_server_thread and discovery_response_thread in 2_c/gateway.c, for as many passes as
-- are given.
pub mod Heard
pub mod Ends
use smartcity.Prelude.{ℕ, Bool, none, some, Option, List, [], ◌∷◌, ◌++◌, Bytes}
use smartcity.Outcome.{Outcome, ok, ◌>>=◌}
use smartcity.Double.{Double, Arithmetic}
use smartcity.Gateway.{GatewayState}
use smartcity.Gateway.Events.{Event, run}
use smartcity.Gateway.Threads.{receive_reading_datagram, receive_discovery_datagram}
use smartcity.Csv.Rows.{Files}

-- A pass: the events of other threads while it waits, the time, the files, and the datagram; none
-- where `recvfrom` fails.
pub record Arrival : Type 0 where
  pub before : List Event
  pub now : Double
  pub files : Files
  pub datagram : Option Bytes

-- `if (received > 0)`: the datagram, where there is a byte of it.
abbrev pub when_received : Option Bytes → Option Bytes
when_received none = none
when_received (some []) = none
when_received (some (c ∷ raw)) = some (c ∷ raw)

-- What is appended to a file, if anything is, before what later passes append.
abbrev pub appended_first : Option (Bytes × Bytes) → List (Bytes × Bytes) → List (Bytes × Bytes)
appended_first none later = later
appended_first (some a) later = a ∷ later

module _ (alloc : ℕ → Bool) where
  -- The tables, and what is appended to which file.
  unfoldable pub udp_server_thread :
      Arithmetic → List Arrival → GatewayState → Outcome (GatewayState × List (Bytes × Bytes))
  udp_server_thread fp [] g = ok (g, [])
  udp_server_thread fp (a ∷ rest) g = elim (when_received a.datagram) [
    | none ↦ udp_server_thread fp rest (run alloc a.before g)
    | some raw ↦
        receive_reading_datagram alloc fp a.files a.now (run alloc a.before g) raw
        >>= λ (g', appended).
            udp_server_thread fp rest g' >>= λ (g'', later). ok (g'', appended_first appended later)
  ]

  unfoldable pub discovery_response_thread : List Arrival → GatewayState → Outcome GatewayState
  discovery_response_thread [] g = ok g
  discovery_response_thread (a ∷ rest) g = elim (when_received a.datagram) [
    | none ↦ discovery_response_thread rest (run alloc a.before g)
    | some raw ↦ receive_discovery_datagram alloc a.now (run alloc a.before g) raw >>= λ g'.
        discovery_response_thread rest g'
  ]
