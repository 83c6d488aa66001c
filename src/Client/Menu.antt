-- ===== src/Client/Menu.antt =====
-- The request for an entry of the menu: build_request of 2_c/client.c. It is given the entry and what
-- the user types next, and leaves the rest of that.
use smartcity.Prelude.{
  ℕ, ◌+◌, Bool, ◌&&◌, some, none, Option, Bytes, length, leb, ◌==◌, if◌then◌else◌,
}
use smartcity.Double.{Double}
use smartcity.Encode.{CString}
use smartcity.Message.{
  ClientRequest, zero_client_request, list_sensors, avg_temperature, avg_co2, avg_humidity,
  max_reading, reading_history, send_control_command, exit, activate, deactivate,
  traffic_light_set_color, street_light_set_brightness,
}
use smartcity.Client.Input.{read_line, parse_double_line}

-- `char input[256]`
abbrev pub input_size : ℕ
input_size = 256

module _ (alloc : ℕ → Bool) where
  unfoldable pub dup_cstring : Bytes → CString
  dup_cstring src = if alloc (length src + 1) then some src else none

  unfoldable pub copied : (CString → ClientRequest) → Bytes → CString → Option ClientRequest × Bytes
  copied store left none = (none, left)
  copied store left (some s) = (some (store (some s)), left)

  unfoldable pub line_stored :
      (CString → ClientRequest) → Bytes → Option (Bytes × Bytes) → Option ClientRequest × Bytes
  unfolding dup_cstring copied
  line_stored store input none = (none, input)
  line_stored store input (some (line, left)) = copied store left (dup_cstring line)

  -- A line that the user types, copied and stored; none is `return false`.
  unfoldable pub ask_text : (CString → ClientRequest) → Bytes → Option ClientRequest × Bytes
  unfolding line_stored read_line
  ask_text store input = line_stored store input (read_line input_size input)

  -- The switch.
  unfoldable pub chosen : ℕ → Bytes → Option ClientRequest × Bytes
  unfolding ask_text
  chosen option input =
      let plain : ℕ → Option ClientRequest × Bytes =
        λ t. (some (record zero_client_request { request_type = t }), input) in
      if option == 1
      then plain list_sensors
      else if option == 2
      then plain avg_temperature
      else if option == 3
      then plain avg_co2
      else if option == 4
      then plain avg_humidity
      else if option == 5
      then plain max_reading
      else if option == 6
      then plain reading_history
      else if leb 7 option && leb option 10
      then ask_text
          (λ s. record zero_client_request {
            request_type = send_control_command;
            target_sensor_id = s;
          })
          input
      else if option == 11
      then plain exit
      else (none, input)

  module _ (strtod : Bytes → Option (Double × Bytes)) where
    unfoldable pub number_stored :
        ClientRequest → Bytes → Option Double → Option ClientRequest × Bytes
    number_stored req left none = (none, left)
    number_stored req left (some v) = (some (record req { value = v }), left)

    unfoldable pub brightness_stored :
        ClientRequest → Bytes → Option (Bytes × Bytes) → Option ClientRequest × Bytes
    unfolding number_stored parse_double_line
    brightness_stored req input none = (none, input)
    brightness_stored req input (some (line, left)) =
        number_stored req left (parse_double_line strtod line)

    unfoldable pub ask_brightness : ClientRequest → Bytes → Option ClientRequest × Bytes
    unfolding read_line brightness_stored
    ask_brightness req input = brightness_stored req input (read_line input_size input)

    -- The command, behind the switch.
    unfoldable pub with_command : ℕ → ClientRequest → Bytes → Option ClientRequest × Bytes
    unfolding ask_text ask_brightness
    with_command option req input =
        if option == 7
        then (some (record req { command_type = activate }), input)
        else if option == 8
        then (some (record req { command_type = deactivate }), input)
        else if option == 9
        then ask_text (λ s. record req { command_type = traffic_light_set_color; text_value = s })
            input
        else if option == 10
        then ask_brightness (record req { command_type = street_light_set_brightness }) input
        else (some req, input)

    unfoldable pub then_command : ℕ → Option ClientRequest × Bytes → Option ClientRequest × Bytes
    unfolding with_command
    then_command option (none, left) = (none, left)
    then_command option (some req, left) = with_command option req left

    unfoldable pub build_request : ℕ → Bytes → Option ClientRequest × Bytes
    unfolding chosen then_command
    build_request option input = then_command option (chosen option input)
