-- ===== src/Gateway/Threads/Datagrams/Heard.antt =====
-- What any sequence of datagrams does to the gateway's tables, among what the other threads do.
use smartcity.Prelude.{
  ℕ, ◌≡◌, refl, sym, ap, ◌∙◌, Bool, none, some, Option, List, [], ◌∷◌, ◌++◌, Bytes, length,
}
use smartcity.Outcome.{
  Outcome, ok, rejected, fault, stuck, ◌>>=◌, Yields, Yields-of_ok, Yields-bind, Yields-map,
}
use smartcity.Double.{Double, Arithmetic}
use smartcity.Message.{SensorReading, SensorInfo}
use smartcity.Codec.SensorReading.{smart_parse_sensor_reading}
use smartcity.Codec.SensorInfo.{smart_parse_discovery_response}
use smartcity.Gateway.{GatewayState, update_sensor, receive_reading}
use smartcity.Gateway.Events.{Event, announced, measured, happen, run}
use smartcity.Gateway.Events.Requests.{run-append}
use smartcity.Gateway.Threads.{receive_reading_datagram, receive_discovery_datagram}
use smartcity.Csv.Rows.{Files, persist_reading_csv}
use smartcity.Gateway.Threads.Datagrams.{
  Arrival, when_received, appended_first, udp_server_thread, discovery_response_thread,
}

-- What was parsed, if anything was.
abbrev pub parsed {ℓ} : {A : Type ℓ} → Outcome A → List A
parsed (ok a) = a ∷ []
parsed rejected = []
parsed fault = []
parsed stuck = []

module _ (alloc : ℕ → Bool) where
  abbrev pub readings_of : Option Bytes → List SensorReading
  readings_of none = []
  readings_of (some []) = []
  readings_of (some (c ∷ raw)) =
      parsed (smart_parse_sensor_reading alloc (length (c ∷ raw)) (c ∷ raw) (length (c ∷ raw)))

  abbrev pub devices_of : Option Bytes → List SensorInfo
  devices_of none = []
  devices_of (some []) = []
  devices_of (some (c ∷ raw)) =
      parsed (smart_parse_discovery_response alloc (length (c ∷ raw)) (c ∷ raw) (length (c ∷ raw)))

  abbrev pub events_of {ℓ} : {A : Type ℓ} → (A → Event) → List A → List Event → List Event
  events_of event [] later = later
  events_of event (x ∷ xs) later = event x ∷ events_of event xs later

  -- The events of the passes: those of the other threads, and one for each datagram that is a message.
  abbrev pub heard_readings : List Arrival → List Event
  heard_readings [] = []
  heard_readings (a ∷ rest) =
      a.before ++ events_of (measured a.now) (readings_of a.datagram) (heard_readings rest)

  abbrev pub heard_devices : List Arrival → List Event
  heard_devices [] = []
  heard_devices (a ∷ rest) =
      a.before ++ events_of (announced a.now) (devices_of a.datagram) (heard_devices rest)

  -- What the passes append to files: what persist_reading_csv does for each reading.
  abbrev pub saved_then :
      Arithmetic → Files → List SensorReading → List (Bytes × Bytes) → List (Bytes × Bytes)
  saved_then fp files [] later = later
  saved_then fp files (r ∷ rs) later =
      appended_first (persist_reading_csv alloc fp files r) (saved_then fp files rs later)

  abbrev pub saved : Arithmetic → List Arrival → List (Bytes × Bytes)
  saved fp [] = []
  saved fp (a ∷ rest) = saved_then fp a.files (readings_of a.datagram) (saved fp rest)

  device_received :
      (now : Double) (g : GatewayState) (raw : Bytes) (later : List Event)
      → Yields
          (λ g'.
            run alloc later g'
            ≡ run alloc
                (events_of
                  (announced now)
                  (parsed (smart_parse_discovery_response alloc (length raw) raw (length raw)))
                  later)
                g)
          (receive_discovery_datagram alloc now g raw)
  unfolding receive_discovery_datagram Yields run happen
  device_received now g raw later =
      received (smart_parse_discovery_response alloc (length raw) raw (length raw))
    where
      received :
          (o : Outcome SensorInfo)
          → Yields
              (λ g'. run alloc later g' ≡ run alloc (events_of (announced now) (parsed o) later) g)
              (elim o [
                | ok resp ↦ ok (update_sensor alloc now g resp)
                | rejected ↦ ok g
                | fault ↦ fault
                | stuck ↦ stuck
              ])
      received (ok resp) = refl
      received rejected = refl
      received fault = tt
      received stuck = tt

  abbrev pub DevicesAre : List Event → GatewayState → GatewayState → Type 0
  DevicesAre events g g' = g' ≡ run alloc events g

  device_pass :
      (now : Double) (d : Option Bytes) (rest : List Arrival) (g : GatewayState)
      → ((g' : GatewayState)
          → Yields (DevicesAre (heard_devices rest) g') (discovery_response_thread alloc rest g'))
      → Yields
          (DevicesAre (events_of (announced now) (devices_of d) (heard_devices rest)) g)
          (elim (when_received d) [
            | none ↦ discovery_response_thread alloc rest g
            | some raw ↦ receive_discovery_datagram alloc now g raw >>= λ g'.
                discovery_response_thread alloc rest g'
          ])
  device_pass now none rest g next = next g
  device_pass now (some []) rest g next = next g
  device_pass now (some (c ∷ raw)) rest g next =
      Yields-bind _
        (DevicesAre (events_of (announced now) (devices_of (some (c ∷ raw))) (heard_devices rest))
          g)
        (receive_discovery_datagram alloc now g (c ∷ raw)) _
        (device_received now g (c ∷ raw) (heard_devices rest))
        (λ g' e. Yields-map (DevicesAre (heard_devices rest) g') _ _ (next g') (λ g'' e'. e' ∙ e))

  pub devices_heard :
      (arrivals : List Arrival) (g : GatewayState)
      → Yields (DevicesAre (heard_devices arrivals) g) (discovery_response_thread alloc arrivals g)
  unfolding discovery_response_thread
  devices_heard [] g = unfold Yields run in refl
  devices_heard (a ∷ rest) g =
      let later = events_of (announced a.now) (devices_of a.datagram) (heard_devices rest) in
      Yields-map (DevicesAre later (run alloc a.before g)) (DevicesAre (heard_devices (a ∷ rest)) g)
        _ (device_pass a.now a.datagram rest (run alloc a.before g) (devices_heard rest))
        (λ g' e. e ∙ sym (run-append alloc a.before later g))

  module _ (fp : Arithmetic) where
    reading_received :
        (files : Files) (now : Double) (g : GatewayState) (raw : Bytes) (later : List Event)
        (kept : List (Bytes × Bytes))
        → Yields
            (λ (t : GatewayState × Option (Bytes × Bytes)).
              (run alloc later t.0
                ≡ run alloc
                    (events_of
                      (measured now)
                      (parsed (smart_parse_sensor_reading alloc (length raw) raw (length raw)))
                      later)
                    g)
              × (appended_first t.1 kept
                  ≡ saved_then fp files
                      (parsed (smart_parse_sensor_reading alloc (length raw) raw (length raw)))
                      kept))
            (receive_reading_datagram alloc fp files now g raw)
    unfolding receive_reading_datagram Yields run happen
    reading_received files now g raw later kept =
        received (smart_parse_sensor_reading alloc (length raw) raw (length raw))
      where
        received :
            (o : Outcome SensorReading)
            → Yields
                (λ (t : GatewayState × Option (Bytes × Bytes)).
                  (run alloc later t.0 ≡ run alloc (events_of (measured now) (parsed o) later) g)
                  × (appended_first t.1 kept ≡ saved_then fp files (parsed o) kept))
                (elim o [
                  | ok r ↦ ok (receive_reading alloc now g r, persist_reading_csv alloc fp files r)
                  | rejected ↦ ok (g, none)
                  | fault ↦ fault
                  | stuck ↦ stuck
                ])
        received (ok r) = (refl, refl)
        received rejected = (refl, refl)
        received fault = tt
        received stuck = tt

    abbrev pub ReadingsAre :
        List Event
        → List (Bytes × Bytes)
        → GatewayState
        → GatewayState × List (Bytes × Bytes)
        → Type 0
    ReadingsAre events kept g t = (t.0 ≡ run alloc events g) × (t.1 ≡ kept)

    reading_pass :
        (a : Arrival) (d : Option Bytes) (rest : List Arrival) (g : GatewayState)
        → ((g' : GatewayState)
            → Yields
                (ReadingsAre (heard_readings rest) (saved fp rest) g')
                (udp_server_thread alloc fp rest g'))
        → Yields
            (ReadingsAre
              (events_of (measured a.now) (readings_of d) (heard_readings rest))
              (saved_then fp a.files (readings_of d) (saved fp rest))
              g)
            (elim (when_received d) [
              | none ↦ udp_server_thread alloc fp rest g
              | some raw ↦
                  receive_reading_datagram alloc fp a.files a.now g raw >>= λ (g', appended).
                  udp_server_thread alloc fp rest g' >>= λ (g'', later).
                  ok (g'', appended_first appended later)
            ])
    reading_pass a none rest g next = next g
    reading_pass a (some []) rest g next = next g
    reading_pass a (some (c ∷ raw)) rest g next =
        Yields-bind _
          (ReadingsAre
            (events_of (measured a.now) (readings_of (some (c ∷ raw))) (heard_readings rest))
            (saved_then fp a.files (readings_of (some (c ∷ raw))) (saved fp rest)) g)
          (receive_reading_datagram alloc fp a.files a.now g (c ∷ raw)) _
          (reading_received a.files a.now g (c ∷ raw) (heard_readings rest) (saved fp rest))
          (λ (g', appended) (e, k).
            Yields-bind (ReadingsAre (heard_readings rest) (saved fp rest) g') _
              (udp_server_thread alloc fp rest g') _ (next g')
              (λ (g'', later) (e', k').
                Yields-of_ok
                  (ReadingsAre
                    (events_of (measured a.now) (readings_of (some (c ∷ raw)))
                      (heard_readings rest))
                    (saved_then fp a.files (readings_of (some (c ∷ raw))) (saved fp rest)) g)
                  (g'', appended_first appended later)
                  (e' ∙ e, ap (appended_first appended) k' ∙ k)))

    pub readings_heard :
        (arrivals : List Arrival) (g : GatewayState)
        → Yields
            (ReadingsAre (heard_readings arrivals) (saved fp arrivals) g)
            (udp_server_thread alloc fp arrivals g)
    unfolding udp_server_thread
    readings_heard [] g = unfold Yields run in (refl, refl)
    readings_heard (a ∷ rest) g =
        let later = events_of (measured a.now) (readings_of a.datagram) (heard_readings rest) in
        Yields-map (ReadingsAre later (saved fp (a ∷ rest)) (run alloc a.before g))
          (ReadingsAre (heard_readings (a ∷ rest)) (saved fp (a ∷ rest)) g) _
          (reading_pass a a.datagram rest (run alloc a.before g) (readings_heard rest))
          (λ (g', kept) (e, k). (e ∙ sym (run-append alloc a.before later g), k))
