-- ===== src/Sensor/AirQuality.antt =====
-- The air quality sensor of 2_c/sensor_air_quality.c. The two fractions are `(double)rand() /
-- RAND_MAX`, and `ms` and `ms'` what smart_unix_time_ms returned for the two readings.
use smartcity.Prelude.{
  ℕ, Bool, false, some, none, Option, List, [], ◌∷◌, Bytes, codes, if◌then◌else◌,
}
use smartcity.Outcome.{Outcome}
use smartcity.Double.{Double, Arithmetic, lt_double, double_900}
use smartcity.Encode.{CString}
use smartcity.CString.{text}
use smartcity.Message.{SensorReading, DiscoveryResponse, air_quality_sensor}
use smartcity.Sensor.{SensorState, describe, round2, send_readings}

abbrev pub double_400 : Double
double_400 = 0x4079_0000_0000_0000

abbrev pub double_800 : Double
double_800 = 0x4089_0000_0000_0000

abbrev pub double_35 : Double
double_35 = 0x4041_8000_0000_0000

abbrev pub double_50 : Double
double_50 = 0x4049_0000_0000_0000

-- What it answers to a discovery request.
unfoldable pub air_description : (ℕ → Bool) → CString → DiscoveryResponse
unfolding describe
air_description alloc local_ip =
    describe alloc (codes "air-1") air_quality_sensor double_900 (codes "CO2 e umidade via UDP")
      local_ip

unfoldable pub make_reading : ℕ → Bytes → Double → Bytes → Bool → CString → SensorReading
make_reading ms metric value unit alert alert_message = record {
  sensor_id = text "air-1";
  sensor_type = air_quality_sensor;
  value = value;
  unit = some unit;
  timestamp_unix_ms = ms;
  alert = alert;
  alert_message = elim alert_message [ none ↦ text "" | some m ↦ some m ];
  metric = some metric;
}

-- `double_900` is the limit of `co2 > 900.0`.
unfoldable pub air_readings : Arithmetic → Double → Double → ℕ → ℕ → List SensorReading
unfolding round2 make_reading
air_readings fp fraction fraction' ms ms' =
    let co2 = round2 fp (fp.add double_400 (fp.mul fraction double_800)) in
    let humidity = round2 fp (fp.add double_35 (fp.mul fraction' double_50)) in
    let alert = lt_double double_900 co2 in
    let message = if alert then text "CO2 acima do limiar (900.00)" else text "" in
    make_reading ms (codes "co2") co2 (codes "ppm") alert message
    ∷ make_reading ms' (codes "humidity") humidity (codes "%") false (text "")
    ∷ []

-- One pass of `send_readings_loop`.
unfoldable pub send_air :
    (ℕ → Bool)
    → Arithmetic
    → SensorState
    → Double
    → Double
    → ℕ
    → ℕ
    → Outcome (Option (Bytes × ℕ × List Bytes))
unfolding air_readings send_readings
send_air alloc fp s fraction fraction' ms ms' =
    send_readings alloc s (air_readings fp fraction fraction' ms ms')
