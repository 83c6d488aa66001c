-- ===== src/Gateway/Threads/Measuring.antt =====
-- Readings on the wire, from the bytes of a datagram to the gateway's table.
use smartcity.Prelude.{
  ℕ, ◌^◌, ◌<◌, ◌≡◌, refl, sym, ◌∙◌, Bool, true, List, [], ◌∷◌, ◌++◌, append-nil, append_assoc, map,
  Bytes, All, length, arith, Option,
}
use smartcity.Outcome.{Outcome, ok, ◌>>=◌}
use smartcity.Double.{Double, Arithmetic}
use smartcity.Message.{SensorReading}
use smartcity.Codec.SensorReading.{smart_parse_sensor_reading}
use smartcity.Codec.SensorReading.RoundTrip.{
  IsSensorReading, sensor_reading_bytes, received_sensor_reading, smart_parse_sensor_reading-bytes,
}
use smartcity.Gateway.{GatewayState, receive_reading}
use smartcity.Gateway.Readings.{receive_reading_lem}
use smartcity.Csv.Rows.{Files, persist_reading_csv}
use smartcity.Gateway.Threads.{receive_reading_datagram}

-- A reading that can stand on the wire.
pub record IsSendable (r : SensorReading) : Type 0 where
  pub valid : IsSensorReading r
  pub small : length (sensor_reading_bytes r) < 2 ^ 62

module _ (alloc : ℕ → Bool) (fp : Arithmetic) (files : Files) (now : Double) where
  -- The tables behind datagrams that come in one after the other.
  unfoldable pub deliver : GatewayState → List Bytes → Outcome GatewayState
  deliver g [] = ok g
  deliver g (raw ∷ rest) =
      receive_reading_datagram alloc fp files now g raw >>= λ (g', _). deliver g' rest

  module _ (granted : (n : ℕ) → alloc n ≡ true) where
    datagram_received :
        (g : GatewayState) (r : SensorReading)
        → IsSendable r
        → receive_reading_datagram alloc fp files now g (sensor_reading_bytes r)
          ≡ ok (
            receive_reading alloc now g (received_sensor_reading r),
            persist_reading_csv alloc fp files (received_sensor_reading r),
          )
    datagram_received g r h =
        let raw = sensor_reading_bytes r in
        let parsed : smart_parse_sensor_reading alloc (length raw) raw (length raw)
            ≡ ok (received_sensor_reading r) =
          sym (rw append-nil)
          ∙ smart_parse_sensor_reading-bytes alloc r (length raw) [] (λ n _. granted n) h.valid
              h.small (omega arith) in
        unfold receive_reading_datagram in rw (parsed, receive_reading_datagram)

    deliver_one :
        (g g' : GatewayState) (row : Option (Bytes × Bytes)) (raw : Bytes) (rest : List Bytes)
        → receive_reading_datagram alloc fp files now g raw ≡ ok (g', row)
        → deliver g (raw ∷ rest) ≡ deliver g' rest
    unfolding deliver
    deliver_one g g' row raw rest e = rw e

    pub deliver-readings :
        (rs : List SensorReading) (g : GatewayState)
        → All IsSendable rs
        → (after : GatewayState) × (deliver g (map sensor_reading_bytes rs) ≡ ok after)
          × (after.readings ≡ g.readings ++ map received_sensor_reading rs)
    deliver-readings [] g h = (g, (unfold deliver in refl), sym (append-nil g.readings))
    deliver-readings (r ∷ rest) g h =
        let g' = receive_reading alloc now g (received_sensor_reading r) in
        let (after, e, k) = deliver-readings rest g' h.1 in
        let one = (receive_reading_lem alloc granted now g (received_sensor_reading r) []).0 in
        (after, deliver_one g g' _ _ _ (datagram_received g r h.0) ∙ e, k ∙ rw (one, append_assoc))
