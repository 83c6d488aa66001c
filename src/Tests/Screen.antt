-- ===== src/Tests/Screen.antt =====
-- The theorem on what the client prints, for a response with a device and a reading.
use smartcity.Prelude.{◌≡◌, refl, not, [], ◌∷◌, ◌++◌, map, codes, ◌==◌, if◌then◌else◌}
use smartcity.Double.{is_zero}
use smartcity.CString.{or_empty}
use smartcity.Message.{ok_status}
use smartcity.Client.Screen.{print_response}
use smartcity.Client.Screen.Lines.{
  breaks, lines_of, titled, device_words, reading_words, IsDeviceUnbroken, IsReadingUnbroken,
  IsResponseUnbroken, print_response-lines,
}
use smartcity.Tests.{device, reading, listing}

device-IsDeviceUnbroken : IsDeviceUnbroken device
device-IsDeviceUnbroken = record {
  sensor_id = unfold breaks in refl;
  sensor_ip = unfold breaks in refl;
  state_text = unfold breaks in refl;
}

reading-IsReadingUnbroken : IsReadingUnbroken reading
reading-IsReadingUnbroken = record {
  sensor_id = unfold breaks in refl;
  metric = unfold breaks in refl;
  unit = unfold breaks in refl;
  alert_message = unfold breaks in refl;
}

listing-IsResponseUnbroken : IsResponseUnbroken listing
listing-IsResponseUnbroken = record {
  message = unfold breaks in refl;
  sensors = (device-IsDeviceUnbroken, tt);
  readings = (reading-IsReadingUnbroken, tt);
}

print_response-lines_example :
    lines_of (print_response (λ x. codes "70.00") listing)
    ≡ []
      ∷ (codes "["
          ++ ((if listing.status == ok_status then codes "OK" else codes "ERROR")
              ++ (codes "] " ++ or_empty listing.message)))
      ∷ (titled (codes "Dispositivos:") (map device_words listing.sensors)
          ++ ((if not (is_zero listing.metric_value)
                then (codes "Valor: " ++ codes "70.00") ∷ []
                else [])
              ++ (titled
                    (codes "Historico:")
                    (map (reading_words (λ x. codes "70.00")) listing.readings)
                  ++ ([] ∷ []))))
print_response-lines_example =
    print_response-lines (λ x. codes "70.00") (λ x. unfold breaks in refl) listing
      listing-IsResponseUnbroken
