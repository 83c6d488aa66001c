-- ===== src/Message.antt =====
-- The messages of 2_c/smartcity_common.h. An enum is a 32-bit word, since any such word may come
-- in a message; `timestamp_unix_ms` is the 64-bit pattern of its integer.
use smartcity.Prelude.{ℕ, Bool, false, none, List, []}
use smartcity.Double.{Double}
use smartcity.Encode.{CString}

abbrev pub DeviceKind : Type 0
DeviceKind = ℕ

abbrev pub device_kind_unspecified : DeviceKind
device_kind_unspecified = 0

abbrev pub sensor : DeviceKind
sensor = 1

abbrev pub actuator : DeviceKind
actuator = 2

abbrev pub DeviceType : Type 0
DeviceType = ℕ

abbrev pub device_type_unspecified : DeviceType
device_type_unspecified = 0

abbrev pub temperature_sensor : DeviceType
temperature_sensor = 1

abbrev pub air_quality_sensor : DeviceType
air_quality_sensor = 2

abbrev pub camera : DeviceType
camera = 3

abbrev pub traffic_light : DeviceType
traffic_light = 4

abbrev pub street_light : DeviceType
street_light = 5

abbrev pub noise_sensor : DeviceType
noise_sensor = 6

abbrev pub CommandType : Type 0
CommandType = ℕ

abbrev pub command_type_unspecified : CommandType
command_type_unspecified = 0

abbrev pub activate : CommandType
activate = 1

abbrev pub deactivate : CommandType
deactivate = 2

abbrev pub set_frequency : CommandType
set_frequency = 3

abbrev pub set_threshold : CommandType
set_threshold = 4

abbrev pub camera_start_recording : CommandType
camera_start_recording = 5

abbrev pub camera_stop_recording : CommandType
camera_stop_recording = 6

abbrev pub camera_set_direction : CommandType
camera_set_direction = 7

abbrev pub traffic_light_set_color : CommandType
traffic_light_set_color = 8

abbrev pub traffic_light_set_mode : CommandType
traffic_light_set_mode = 9

abbrev pub street_light_set_brightness : CommandType
street_light_set_brightness = 10

abbrev pub ClientRequestType : Type 0
ClientRequestType = ℕ

abbrev pub request_type_unspecified : ClientRequestType
request_type_unspecified = 0

abbrev pub list_sensors : ClientRequestType
list_sensors = 1

abbrev pub avg_temperature : ClientRequestType
avg_temperature = 2

abbrev pub avg_co2 : ClientRequestType
avg_co2 = 3

abbrev pub max_reading : ClientRequestType
max_reading = 4

abbrev pub activate_sensor : ClientRequestType
activate_sensor = 5

abbrev pub deactivate_sensor : ClientRequestType
deactivate_sensor = 6

abbrev pub change_frequency : ClientRequestType
change_frequency = 7

abbrev pub change_threshold : ClientRequestType
change_threshold = 8

abbrev pub exit : ClientRequestType
exit = 9

abbrev pub avg_humidity : ClientRequestType
avg_humidity = 10

abbrev pub reading_history : ClientRequestType
reading_history = 11

abbrev pub send_control_command : ClientRequestType
send_control_command = 12

abbrev pub ResponseStatus : Type 0
ResponseStatus = ℕ

abbrev pub response_status_unspecified : ResponseStatus
response_status_unspecified = 0

abbrev pub ok_status : ResponseStatus
ok_status = 1

abbrev pub error_status : ResponseStatus
error_status = 2

pub record SensorInfo : Type 0 where
  pub sensor_id : CString
  pub sensor_type : DeviceType
  pub sensor_ip : CString
  pub control_tcp_port : ℕ
  pub is_active : Bool
  pub frequency_seconds : Double
  pub threshold : Double
  pub device_kind : DeviceKind
  pub state_text : CString

-- `memset` to 0.
abbrev pub zero_sensor_info : SensorInfo
zero_sensor_info = record {
  sensor_id = none;
  sensor_type = 0;
  sensor_ip = none;
  control_tcp_port = 0;
  is_active = false;
  frequency_seconds = 0;
  threshold = 0;
  device_kind = 0;
  state_text = none;
}

pub record SensorReading : Type 0 where
  pub sensor_id : CString
  pub sensor_type : DeviceType
  pub value : Double
  pub unit : CString
  pub timestamp_unix_ms : ℕ
  pub alert : Bool
  pub alert_message : CString
  pub metric : CString

-- `memset` to 0.
abbrev pub zero_sensor_reading : SensorReading
zero_sensor_reading = record {
  sensor_id = none;
  sensor_type = 0;
  value = 0;
  unit = none;
  timestamp_unix_ms = 0;
  alert = false;
  alert_message = none;
  metric = none;
}

pub record ControlResponse : Type 0 where
  pub status : ResponseStatus
  pub message : CString
  pub sensor_id : CString
  pub is_active : Bool
  pub frequency_seconds : Double
  pub threshold : Double
  pub state_text : CString

-- `memset` to 0.
abbrev pub zero_control_response : ControlResponse
zero_control_response = record {
  status = 0;
  message = none;
  sensor_id = none;
  is_active = false;
  frequency_seconds = 0;
  threshold = 0;
  state_text = none;
}

pub record DiscoveryRequest : Type 0 where
  pub gateway_id : CString
  pub request_timestamp : CString
  pub gateway_udp_port : ℕ
  pub discovery_response_port : ℕ

-- `memset` to 0.
abbrev pub zero_discovery_request : DiscoveryRequest
zero_discovery_request = record {
  gateway_id = none;
  request_timestamp = none;
  gateway_udp_port = 0;
  discovery_response_port = 0;
}

pub record ClientRequest : Type 0 where
  pub request_type : ClientRequestType
  pub target_sensor_id : CString
  pub value : Double
  pub command_type : CommandType
  pub text_value : CString

-- `memset` to 0.
abbrev pub zero_client_request : ClientRequest
zero_client_request = record {
  request_type = 0;
  target_sensor_id = none;
  value = 0;
  command_type = 0;
  text_value = none;
}

pub record ControlCommand : Type 0 where
  pub command_type : CommandType
  pub sensor_id : CString
  pub value : Double
  pub text_value : CString

-- `memset` to 0.
abbrev pub zero_control_command : ControlCommand
zero_control_command = record { command_type = 0; sensor_id = none; value = 0; text_value = none }

-- The source reads a SensorInfo through a pointer to this type: the two have the same fields.
abbrev pub DiscoveryResponse : Type 0
DiscoveryResponse = SensorInfo

pub record ClientResponse : Type 0 where
  pub status : ResponseStatus
  pub message : CString
  pub sensors : List SensorInfo
  pub metric_value : Double
  pub readings : List SensorReading

abbrev pub zero_client_response : ClientResponse
zero_client_response = record {
  status = 0;
  message = none;
  sensors = [];
  metric_value = 0;
  readings = [];
}
