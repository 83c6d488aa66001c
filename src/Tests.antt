-- ===== src/Tests.antt =====
-- The theorems at concrete inputs, and what the witnesses share: an allocator that refuses nothing,
-- texts, and messages.
pub mod Line
pub mod Sizes
pub mod Codec
pub mod Gateway
pub mod Actuator
pub mod Wire
pub mod Csv
pub mod Threads
pub mod Clients
pub mod Datagrams
pub mod Screen
pub mod Client
use smartcity.Prelude.{
  ℕ, zero, suc, ◌+◌, ◌<◌, ◌≤◌, ◌^◌, ◌≡◌, refl, Bool, true, false, ◌&&◌, some, none, Option, List,
  [], ◌∷◌, Bytes, All, ltb, leb, codes, String, arith,
}
use smartcity.Encode.{CString}
use smartcity.Codec.SensorReading.RoundTrip.{IsSensorReading}
use smartcity.Codec.SensorInfo.RoundTrip.{IsSensorInfo}
use smartcity.Codec.ControlCommand.RoundTrip.{IsControlCommand}
use smartcity.Codec.ControlResponse.RoundTrip.{IsControlResponse}
use smartcity.Codec.DiscoveryRequest.RoundTrip.{IsDiscoveryRequest}
use smartcity.Codec.ClientRequest.RoundTrip.{IsClientRequest}
use smartcity.Codec.ClientResponse.RoundTrip.{IsClientResponse}
use smartcity.CString.{text, or_empty}
use smartcity.Decode.Fields.{IsText}
use smartcity.Double.{Arithmetic}
use smartcity.Message.{
  SensorInfo, SensorReading, ControlCommand, ControlResponse, ClientRequest, ClientResponse,
  DiscoveryRequest, zero_sensor_info, temperature_sensor, traffic_light, actuator, ok_status,
  traffic_light_set_color, list_sensors,
}
use smartcity.Double.{double_10, double_70, double_3, double_2}

abbrev pub generous : ℕ → Bool
generous n = true

pub generous_grants : (n : ℕ) → generous n ≡ true
generous_grants n = refl

pub lt_of_ltb : (a b : ℕ) → ltb a b ≡ true → a < b
lt_of_ltb a b h = ground arith

pub le_of_leb : (a b : ℕ) → leb a b ≡ true → a ≤ b
le_of_leb a b h = ground arith

abbrev pub nonzero : Bytes → Bool
nonzero [] = true
nonzero (c ∷ s) = ltb 0 c && nonzero s

pub All-of_nonzero : (s : Bytes) → nonzero s ≡ true → All (λ c. 0 < c) s
All-of_nonzero [] h = tt
All-of_nonzero (c ∷ s) h = (ground arith, All-of_nonzero s (ground arith))

pub IsText-of_nonzero : (c : CString) → nonzero (or_empty c) ≡ true → IsText c
IsText-of_nonzero none h = tt
IsText-of_nonzero (some s) h = All-of_nonzero s h

-- An arithmetic that the witnesses run with.
abbrev pub toy : Arithmetic
toy = record {
  add = λ a b. a + b;
  sub = λ a b. a;
  mul = λ a b. a;
  div = λ a b. a;
  of_count = λ n. n;
  truncate = λ a. a;
  format_g15 = λ x. codes "1.5";
  format_f0 = λ x. codes "70";
}

abbrev pub reading : SensorReading
reading = record {
  sensor_id = text "t1";
  sensor_type = temperature_sensor;
  value = double_70;
  unit = text "C";
  timestamp_unix_ms = 1000;
  alert = true;
  alert_message = text "";
  metric = text "temperature";
}

abbrev pub device : SensorInfo
device = record {
  sensor_id = text "semaforo-1";
  sensor_type = traffic_light;
  sensor_ip = text "10.0.0.7";
  control_tcp_port = 9202;
  is_active = true;
  frequency_seconds = double_10;
  threshold = 0;
  device_kind = actuator;
  state_text = text "ligado";
}

abbrev pub to_green : ControlCommand
to_green = record {
  command_type = traffic_light_set_color;
  sensor_id = text "semaforo-1";
  value = 0;
  text_value = text "verde";
}

abbrev pub now_green : ControlResponse
now_green = record {
  status = ok_status;
  message = text "Cor alterada para verde";
  sensor_id = text "semaforo-1";
  is_active = true;
  frequency_seconds = 0;
  threshold = 0;
  state_text = text "ligado; cor=verde; modo=manual";
}

abbrev pub probe : DiscoveryRequest
probe = record {
  gateway_id = text "gateway-1";
  request_timestamp = text "1700000000";
  gateway_udp_port = 10002;
  discovery_response_port = 0;
}

abbrev pub list_request : ClientRequest
list_request = record {
  request_type = list_sensors;
  target_sensor_id = none;
  value = 0;
  command_type = 0;
  text_value = text "";
}

abbrev pub listing : ClientResponse
listing = record {
  status = ok_status;
  message = text "Sensores listados";
  sensors = device ∷ [];
  metric_value = 0;
  readings = reading ∷ [];
}

pub reading_valid : IsSensorReading reading
reading_valid = record {
  sensor_id = IsText-of_nonzero reading.sensor_id refl;
  sensor_type = lt_of_ltb _ _ refl;
  value = lt_of_ltb _ _ refl;
  unit = IsText-of_nonzero reading.unit refl;
  timestamp_unix_ms = lt_of_ltb _ _ refl;
  alert_message = IsText-of_nonzero reading.alert_message refl;
  metric = IsText-of_nonzero reading.metric refl;
}

pub device_valid : IsSensorInfo device
device_valid = record {
  sensor_id = IsText-of_nonzero device.sensor_id refl;
  sensor_type = lt_of_ltb _ _ refl;
  sensor_ip = IsText-of_nonzero device.sensor_ip refl;
  control_tcp_port = lt_of_ltb _ _ refl;
  frequency_seconds = lt_of_ltb _ _ refl;
  threshold = lt_of_ltb _ _ refl;
  device_kind = lt_of_ltb _ _ refl;
  state_text = IsText-of_nonzero device.state_text refl;
}

pub to_green_valid : IsControlCommand to_green
to_green_valid = record {
  command_type = lt_of_ltb _ _ refl;
  sensor_id = IsText-of_nonzero to_green.sensor_id refl;
  value = lt_of_ltb _ _ refl;
  text_value = IsText-of_nonzero to_green.text_value refl;
}

pub now_green_valid : IsControlResponse now_green
now_green_valid = record {
  status = lt_of_ltb _ _ refl;
  message = IsText-of_nonzero now_green.message refl;
  sensor_id = IsText-of_nonzero now_green.sensor_id refl;
  frequency_seconds = lt_of_ltb _ _ refl;
  threshold = lt_of_ltb _ _ refl;
  state_text = IsText-of_nonzero now_green.state_text refl;
}

pub probe_valid : IsDiscoveryRequest probe
probe_valid = record {
  gateway_id = IsText-of_nonzero probe.gateway_id refl;
  request_timestamp = IsText-of_nonzero probe.request_timestamp refl;
  gateway_udp_port = lt_of_ltb _ _ refl;
  discovery_response_port = lt_of_ltb _ _ refl;
}

pub list_request_valid : IsClientRequest list_request
list_request_valid = record {
  request_type = lt_of_ltb _ _ refl;
  target_sensor_id = IsText-of_nonzero list_request.target_sensor_id refl;
  value = lt_of_ltb _ _ refl;
  command_type = lt_of_ltb _ _ refl;
  text_value = IsText-of_nonzero list_request.text_value refl;
}

pub listing_valid : IsClientResponse listing
listing_valid = record {
  status = lt_of_ltb _ _ refl;
  message = IsText-of_nonzero listing.message refl;
  sensors = (device_valid, tt);
  metric_value = lt_of_ltb _ _ refl;
  readings = (reading_valid, tt);
}

abbrev pub listed : ClientResponse
listed = record listing { readings = [] }

pub listed_valid : IsClientResponse listed
listed_valid = record {
  status = lt_of_ltb _ _ refl;
  message = IsText-of_nonzero listing.message refl;
  sensors = (device_valid, tt);
  metric_value = lt_of_ltb _ _ refl;
  readings = tt;
}
