-- ===== src/Tests/Datagrams.antt =====
-- The theorem on the UDP threads of the gateway, for a datagram of each kind between others.
use smartcity.Prelude.{◌≡◌, refl, some, none, [], ◌∷◌, false, true}
use smartcity.Outcome.{ok}
use smartcity.Csv.Rows.{Files}
use smartcity.Decode.{scan, read_varint, read_key, read_length_delimited, skip_field}
use smartcity.Decode.Safety.{IsForward, forward}
use smartcity.Gateway.Events.{run}
use smartcity.Gateway.Threads.Datagrams.{Arrival, udp_server_thread, discovery_response_thread}
use smartcity.Gateway.Threads.Datagrams.Heard.{heard_readings, heard_devices, saved}
use smartcity.Gateway.Threads.Datagrams.Ends.{udp_threads-heard}
use smartcity.Tests.{toy, le_of_leb}
use smartcity.Tests.Wire.{modest, modest-Limits}
use smartcity.Tests.Gateway.{known}
use smartcity.Tests.Threads.{story}

abbrev new_disk : Files
new_disk = record { is_file = λ path. false; opens = λ path. true }

-- Nothing, behind what other threads did.
abbrev silence : Arrival
silence = record { before = story; now = 6; files = new_disk; datagram = none }

-- A datagram without a byte.
abbrev empty : Arrival
empty = record { before = []; now = 7; files = new_disk; datagram = some [] }

-- No message.
abbrev noise : Arrival
noise = record { before = []; now = 7; files = new_disk; datagram = some (255 ∷ []) }

-- A message with an id and nothing else.
abbrev named : Arrival
named = record { before = []; now = 8; files = new_disk; datagram = some (10 ∷ 2 ∷ 116 ∷ 50 ∷ []) }

noise-IsForward : IsForward (255 ∷ []) 1
unfolding forward read_key read_varint scan
noise-IsForward = refl

named-IsForward : IsForward (10 ∷ 2 ∷ 116 ∷ 50 ∷ []) 4
unfolding forward read_key read_varint scan skip_field read_length_delimited
named-IsForward = refl

udp_threads-heard_example :
    (udp_server_thread modest toy (silence ∷ noise ∷ empty ∷ named ∷ []) known
      ≡ ok (
        run modest (heard_readings modest (silence ∷ noise ∷ empty ∷ named ∷ [])) known,
        saved modest toy (silence ∷ noise ∷ empty ∷ named ∷ []),
      ))
    × (discovery_response_thread modest (named ∷ noise ∷ []) known
        ≡ ok (run modest (heard_devices modest (named ∷ noise ∷ [])) known))
udp_threads-heard_example =
    udp_threads-heard modest modest-Limits toy (silence ∷ noise ∷ empty ∷ named ∷ [])
      (named ∷ noise ∷ []) known
      (
        tt,
        (
          (le_of_leb _ _ refl, noise-IsForward),
          (
            (le_of_leb _ _ refl, unfold forward in refl),
            ((le_of_leb _ _ refl, named-IsForward), tt),
          ),
        ),
      )
      ((le_of_leb _ _ refl, named-IsForward), ((le_of_leb _ _ refl, noise-IsForward), tt))
