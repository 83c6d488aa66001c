-- ===== src/Gateway/Threads/Datagrams/Ends.antt =====
-- The UDP threads of the gateway get through their datagrams.
use smartcity.Prelude.{
  ℕ, ◌≤◌, ◌≡◌, refl, ap, ◌∙◌, Bool, none, some, Option, List, [], ◌∷◌, Bytes, All, length, inl, inr,
  arith,
}
use smartcity.Outcome.{Outcome, ok, ◌>>=◌, Yields-ok}
use smartcity.Double.{Double, Arithmetic}
use smartcity.Decode.Safety.{Limits, Holding, IsForward}
use smartcity.Codec.Safety.{parsers_end}
use smartcity.Gateway.{GatewayState, receive_reading, update_sensor}
use smartcity.Csv.Rows.{persist_reading_csv}
use smartcity.Gateway.Events.{run}
use smartcity.Gateway.Threads.{receive_reading_datagram, receive_discovery_datagram}
use smartcity.Gateway.Threads.Datagrams.{
  Arrival, when_received, appended_first, udp_server_thread, discovery_response_thread,
}
use smartcity.Gateway.Threads.Datagrams.Heard.{
  heard_readings, heard_devices, saved, DevicesAre, devices_heard, ReadingsAre, readings_heard,
}

-- A datagram that fits the buffer and in which no field, of those that skip_field goes through one
-- after the other, moves the cursor back.
abbrev pub IsSteady : Option Bytes → Type 0
IsSteady none = Unit {0}
IsSteady (some raw) = (length raw ≤ 65535) × IsForward raw (length raw)

abbrev pub AreSteady : List Arrival → Type 0
AreSteady arrivals = All (λ (a : Arrival). IsSteady a.datagram) arrivals

module _ (alloc : ℕ → Bool) (limits : Limits alloc) where
  holding : (raw : Bytes) → length raw ≤ 65535 → Holding raw (length raw)
  holding raw small = (omega arith, omega arith)

  reading_ends :
      (fp : Arithmetic) (a : Arrival) (g : GatewayState) (raw : Bytes)
      → IsSteady (some raw)
      → (t : GatewayState × Option (Bytes × Bytes)) × (receive_reading_datagram alloc fp a.files
            a.now g raw
          ≡ ok t)
  unfolding receive_reading_datagram
  reading_ends fp a g raw (small, forward) =
      let n = length raw in
      elim (parsers_end alloc limits raw n (holding raw small) n forward (omega arith)).0 [
        | inl (m, e) ↦ (
          (receive_reading alloc a.now g m, persist_reading_csv alloc fp a.files m),
          rw (e, receive_reading_datagram),
        )
        | inr e ↦ ((g, none), rw (e, receive_reading_datagram))
      ]

  device_ends :
      (now : Double) (g : GatewayState) (raw : Bytes)
      → IsSteady (some raw)
      → (g' : GatewayState) × (receive_discovery_datagram alloc now g raw ≡ ok g')
  unfolding receive_discovery_datagram
  device_ends now g raw (small, forward) =
      let n = length raw in
      elim (parsers_end alloc limits raw n (holding raw small) n forward (omega arith)).1 [
        | inl (m, e) ↦ (update_sensor alloc now g m, rw (e, receive_discovery_datagram))
        | inr e ↦ (g, rw (e, receive_discovery_datagram))
      ]

  reading_pass-ends :
      (fp : Arithmetic) (a : Arrival) (d : Option Bytes) (rest : List Arrival) (g : GatewayState)
      → IsSteady d
      → ((g' : GatewayState)
          → (t : GatewayState × List (Bytes × Bytes)) × (udp_server_thread alloc fp rest g' ≡ ok t))
      → (t : GatewayState × List (Bytes × Bytes)) × (◌≡◌
          {A = Outcome (GatewayState × List (Bytes × Bytes))}
          (elim (when_received d) [
            | none ↦ udp_server_thread alloc fp rest g
            | some raw ↦ receive_reading_datagram alloc fp a.files a.now g raw >>= λ (g', appended).
                udp_server_thread alloc fp rest g' >>= λ (g'', later).
                ok (g'', appended_first appended later)
          ])
          (ok t))
  reading_pass-ends fp a none rest g h next = next g
  reading_pass-ends fp a (some []) rest g h next = next g
  reading_pass-ends fp a (some (c ∷ raw)) rest g h next =
      let ((g', appended), e) = reading_ends fp a g (c ∷ raw) h in
      let ((g'', later), e') = next g' in ((g'', appended_first appended later), rw (e, ◌>>=◌, e'))

  udp_server_thread-ends :
      (fp : Arithmetic) (arrivals : List Arrival) (g : GatewayState)
      → AreSteady arrivals
      → (t : GatewayState × List (Bytes × Bytes)) × (udp_server_thread alloc fp arrivals g ≡ ok t)
  unfolding udp_server_thread
  udp_server_thread-ends fp [] g h = ((g, []), refl)
  udp_server_thread-ends fp (a ∷ rest) g h =
      reading_pass-ends fp a a.datagram rest (run alloc a.before g) h.0
        (λ g'. udp_server_thread-ends fp rest g' h.1)

  device_pass-ends :
      (now : Double) (d : Option Bytes) (rest : List Arrival) (g : GatewayState)
      → IsSteady d
      → ((g' : GatewayState)
          → (g'' : GatewayState) × (discovery_response_thread alloc rest g' ≡ ok g''))
      → (g'' : GatewayState) × (◌≡◌ {A = Outcome GatewayState}
          (elim (when_received d) [
            | none ↦ discovery_response_thread alloc rest g
            | some raw ↦ receive_discovery_datagram alloc now g raw >>= λ g'.
                discovery_response_thread alloc rest g'
          ])
          (ok g''))
  device_pass-ends now none rest g h next = next g
  device_pass-ends now (some []) rest g h next = next g
  device_pass-ends now (some (c ∷ raw)) rest g h next =
      let (g', e) = device_ends now g (c ∷ raw) h in
      let (g'', e') = next g' in (g'', rw (e, ◌>>=◌) e')

  discovery_response_thread-ends :
      (arrivals : List Arrival) (g : GatewayState)
      → AreSteady arrivals
      → (g' : GatewayState) × (discovery_response_thread alloc arrivals g ≡ ok g')
  unfolding discovery_response_thread
  discovery_response_thread-ends [] g h = (g, refl)
  discovery_response_thread-ends (a ∷ rest) g h =
      device_pass-ends a.now a.datagram rest (run alloc a.before g) h.0
        (λ g'. discovery_response_thread-ends rest g' h.1)

  -- Where requests that are granted are for 1 to 2 ^ 62 - 1 bytes, and datagrams are of at most 65535
  -- bytes, in which no field, of those that skip_field goes through, moves the cursor back: both
  -- threads get through any sequence of datagrams, whatever other threads do while they wait. The
  -- tables are those after the events of the others and, in the order of the datagrams, one event for
  -- each that has a byte and is a reading, or for each that has a byte and is a description; the other
  -- datagrams leave no trace. What is appended to the files is what persist_reading_csv makes of the
  -- same readings, in the same order.
  pub udp_threads-heard :
      (fp : Arithmetic) (readings devices : List Arrival) (g : GatewayState)
      → AreSteady readings
      → AreSteady devices
      → (udp_server_thread alloc fp readings g
          ≡ ok (run alloc (heard_readings alloc readings) g, saved alloc fp readings))
        × (discovery_response_thread alloc devices g
            ≡ ok (run alloc (heard_devices alloc devices) g))
  udp_threads-heard fp readings devices g h k =
      let ((g₁, kept), e) = udp_server_thread-ends fp readings g h in
      let (g₂, d) = discovery_response_thread-ends devices g k in
      let (tables, written) =
        Yields-ok (ReadingsAre alloc fp (heard_readings alloc readings) (saved alloc fp readings) g)
          (readings_heard alloc fp readings g) e in
      let found =
        Yields-ok (DevicesAre alloc (heard_devices alloc devices) g) (devices_heard alloc devices g)
          d in
      (e ∙ (λ i. ok (tables i, written i)), d ∙ ap ok found)
