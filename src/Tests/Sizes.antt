-- ===== src/Tests/Sizes.antt =====
-- How long the messages of the tests are on the wire.
use smartcity.Prelude.{◌≤◌, refl, length}
use smartcity.Double.{is_zero, double_bytes}
use smartcity.Encode.Shape.{
  string_bytes, varint_field_bytes, double_field_bytes, varint_bytes, groups,
}
use smartcity.Codec.ClientResponse.Nested.{all_nested, nested_bytes}
use smartcity.Tests.{
  le_of_leb, reading, device, to_green, now_green, probe, list_request, listing, listed,
}
use smartcity.Codec.SensorReading.RoundTrip.{sensor_reading_bytes}
use smartcity.Codec.SensorInfo.RoundTrip.{sensor_info_bytes}
use smartcity.Codec.ControlCommand.RoundTrip.{control_command_bytes}
use smartcity.Codec.ControlResponse.RoundTrip.{control_response_bytes}
use smartcity.Codec.DiscoveryRequest.RoundTrip.{discovery_request_bytes}
use smartcity.Codec.ClientRequest.RoundTrip.{client_request_bytes}
use smartcity.Codec.ClientResponse.RoundTrip.{client_response_bytes}

pub reading_small : length (sensor_reading_bytes reading) ≤ 250
unfolding sensor_reading_bytes string_bytes varint_field_bytes double_field_bytes varint_bytes
    groups is_zero double_bytes
reading_small = le_of_leb _ _ refl

pub device_small : length (sensor_info_bytes device) ≤ 250
unfolding sensor_info_bytes string_bytes varint_field_bytes double_field_bytes varint_bytes groups
    is_zero double_bytes
device_small = le_of_leb _ _ refl

pub to_green_small : length (control_command_bytes to_green) ≤ 250
unfolding control_command_bytes string_bytes varint_field_bytes double_field_bytes varint_bytes
    groups is_zero double_bytes
to_green_small = le_of_leb _ _ refl

pub now_green_small : length (control_response_bytes now_green) ≤ 250
unfolding control_response_bytes string_bytes varint_field_bytes double_field_bytes varint_bytes
    groups is_zero double_bytes
now_green_small = le_of_leb _ _ refl

pub probe_small : length (discovery_request_bytes probe) ≤ 250
unfolding discovery_request_bytes string_bytes varint_field_bytes double_field_bytes varint_bytes
    groups is_zero double_bytes
probe_small = le_of_leb _ _ refl

pub list_request_small : length (client_request_bytes list_request) ≤ 250
unfolding client_request_bytes string_bytes varint_field_bytes double_field_bytes varint_bytes
    groups is_zero double_bytes
list_request_small = le_of_leb _ _ refl

pub listing_small : length (client_response_bytes listing) ≤ 250
unfolding client_response_bytes all_nested nested_bytes sensor_info_bytes sensor_reading_bytes
    string_bytes varint_field_bytes double_field_bytes varint_bytes groups is_zero double_bytes
listing_small = le_of_leb _ _ refl

pub listed_small : length (client_response_bytes listed) ≤ 250
unfolding client_response_bytes all_nested nested_bytes sensor_info_bytes sensor_reading_bytes
    string_bytes varint_field_bytes double_field_bytes varint_bytes groups is_zero double_bytes
listed_small = le_of_leb _ _ refl
