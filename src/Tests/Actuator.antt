-- ===== src/Tests/Actuator.antt =====
-- The theorems on the actuators, each on a state and a command.
use smartcity.Prelude.{◌≡◌, refl, none}
use smartcity.CString.{text, smart_dup_cstring}
use smartcity.Message.{ControlCommand, camera_start_recording, street_light_set_brightness}
use smartcity.Codec.ControlCommand.RoundTrip.{received_control_command}
use smartcity.Actuator.TrafficLight
use smartcity.Actuator.TrafficLight.{initial_traffic, is_color}
use smartcity.Actuator.TrafficLight.Safety as TrafficLightSafety
use smartcity.Actuator.Camera
use smartcity.Actuator.Camera.{initial_camera}
use smartcity.Actuator.Camera.Safety as CameraSafety
use smartcity.Actuator.Camera.Safety.{IsCamera, CameraReached-IsCamera}
use smartcity.Actuator.StreetLight
use smartcity.Actuator.StreetLight.{initial_street}
use smartcity.Actuator.StreetLight.Safety as StreetLightSafety
use smartcity.Actuator.StreetLight.Safety.{IsStreet, StreetReached-IsStreet}
use smartcity.Tests.{generous, toy, to_green, now_green}

abbrev record_now : ControlCommand
record_now = record {
  command_type = camera_start_recording;
  sensor_id = text "camera-1";
  value = 0;
  text_value = none;
}

abbrev not_a_number : ControlCommand
not_a_number = record {
  command_type = street_light_set_brightness;
  sensor_id = text "poste-1";
  value = 0x7ff8_0000_0000_0000;
  text_value = none;
}

CameraReached-IsCamera_example :
    IsCamera (Camera.handle_command generous initial_camera record_now).1
CameraReached-IsCamera_example =
    CameraReached-IsCamera generous _ (CameraSafety.next _ record_now CameraSafety.start)

StreetReached-IsStreet_example :
    IsStreet (StreetLight.handle_command toy generous initial_street not_a_number).1
StreetReached-IsStreet_example =
    StreetReached-IsStreet toy generous _
      (StreetLightSafety.next _ not_a_number StreetLightSafety.start)

pub turned_green :
    (TrafficLight.handle_command generous initial_traffic (received_control_command to_green)).0
    ≡ now_green
unfolding TrafficLight.handle_command TrafficLight.run_command TrafficLight.build_state_text
    is_color smart_dup_cstring received_control_command
turned_green = refl
