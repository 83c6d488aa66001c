-- ===== src/Sensor/Temperature.antt =====
-- The temperature sensor of 2_c/sensor_temperature.c. `fraction` is `(double)rand() / RAND_MAX`, and
-- `ms` what smart_unix_time_ms returned.
use smartcity.Prelude.{ℕ, Bool, false, Option, List, [], ◌∷◌, Bytes, codes}
use smartcity.Outcome.{Outcome}
use smartcity.Double.{Double, Arithmetic}
use smartcity.Encode.{CString}
use smartcity.CString.{text}
use smartcity.Message.{SensorReading, DiscoveryResponse, temperature_sensor}
use smartcity.Sensor.{SensorState, describe, round2, send_readings}

abbrev pub double_18 : Double
double_18 = 0x4032_0000_0000_0000

abbrev pub double_16 : Double
double_16 = 0x4030_0000_0000_0000

-- What it answers to a discovery request.
unfoldable pub temperature_description : (ℕ → Bool) → CString → DiscoveryResponse
unfolding describe
temperature_description alloc local_ip =
    describe alloc (codes "temp-1") temperature_sensor 0 (codes "Temperatura via UDP") local_ip

unfoldable pub temperature_reading : Arithmetic → Double → ℕ → SensorReading
unfolding round2
temperature_reading fp fraction ms = record {
  sensor_id = text "temp-1";
  sensor_type = temperature_sensor;
  value = round2 fp (fp.add double_18 (fp.mul fraction double_16));
  unit = text "C";
  timestamp_unix_ms = ms;
  alert = false;
  alert_message = text "";
  metric = text "temperature";
}

-- One pass of `send_readings_loop`.
unfoldable pub send_temperature :
    (ℕ → Bool) → Arithmetic → SensorState → Double → ℕ → Outcome (Option (Bytes × ℕ × List Bytes))
unfolding temperature_reading send_readings
send_temperature alloc fp s fraction ms =
    send_readings alloc s (temperature_reading fp fraction ms ∷ [])
