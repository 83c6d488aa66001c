-- ===== src/Tests/Wire.antt =====
-- The theorems on doubles and on the parsers, each at one input.
use smartcity.Prelude.{
  ℕ, ◌⊎◌, Bytes, ◌∷◌, ◌^◌, true, false, ◌≡◌, ◌≢◌, ◌&&◌, Bool, refl, arith, [], ◌++◌, length, ltb,
}
use smartcity.Outcome.{ok, rejected, stuck, fault}
use smartcity.Double.{
  Double, is_nan, lt_double, double_bytes, double_of_bytes, double_of_bytes-double_bytes, double_70,
  double_100,
}
use smartcity.Double.Order.{IsNumber, rank, lt_double-rank}
use smartcity.Decode.Diverge.{wrapping_field}
use smartcity.Codec.SensorReading.{smart_parse_sensor_reading}
use smartcity.Codec.SensorReading.Diverge.{smart_parse_sensor_reading-wrapping}
use smartcity.Codec.SensorReading.Overrun.{overrun_field, smart_parse_sensor_reading-overrun}
use smartcity.Codec.SensorInfo.{smart_parse_discovery_response}
use smartcity.Codec.DiscoveryRequest.{smart_parse_discovery_request}
use smartcity.Codec.ClientRequest.{smart_parse_client_request}
use smartcity.Codec.ControlCommand.{smart_parse_control_command}
use smartcity.Codec.ControlResponse.{smart_parse_control_response}
use smartcity.Codec.Safety.{parsers_stay_inside, parsers_end}
use smartcity.Decode.{scan, read_varint, read_key, read_length_delimited, skip_field}
use smartcity.Message.{
  SensorReading, SensorInfo, DiscoveryRequest, ClientRequest, ControlCommand, ControlResponse,
}
use smartcity.Decode.Safety.{Limits, Holding, IsForward, forward}
use smartcity.Tests.{generous, lt_of_ltb, le_of_leb}

wrapping_example :
    smart_parse_sensor_reading generous 1000 (wrapping_field ++ []) (length (wrapping_field ++ []))
    ≡ stuck
wrapping_example =
    smart_parse_sensor_reading-wrapping generous 1000 []
      (unfold wrapping_field in lt_of_ltb _ _ refl)

double_example : double_of_bytes (double_bytes double_70) ≡ double_70
double_example = double_of_bytes-double_bytes double_70 (lt_of_ltb _ _ refl)

number : (x : Double) → ltb x (2 ^ 64) ≡ true → is_nan x ≡ false → IsNumber x
number x h k = record { word = lt_of_ltb _ _ h; number = k }

order_example : lt_double double_70 double_100 ≡ ltb (rank double_70) (rank double_100)
order_example =
    lt_double-rank double_70 double_100 (number double_70 refl (unfold is_nan in refl))
      (number double_100 refl (unfold is_nan in refl))

overrun_example :
    smart_parse_sensor_reading generous 1 (overrun_field ++ []) (length (overrun_field ++ []))
    ≡ fault
overrun_example =
    smart_parse_sensor_reading-overrun generous 0 [] refl
      (unfold overrun_field in lt_of_ltb _ _ refl)

-- An allocator that refuses requests for nothing and for 2 ^ 62 bytes or more.
abbrev pub modest : ℕ → Bool
modest n = ltb 0 n && ltb n (2 ^ 62)

pub modest-Limits : Limits modest
modest-Limits n h = ground arith

overrun-Holding : Holding overrun_field 11
overrun-Holding = unfold overrun_field in (le_of_leb _ _ refl, lt_of_ltb _ _ refl)

parsers_stay_inside_example :
    (smart_parse_sensor_reading modest 100 overrun_field 11 ≢ fault)
    × (smart_parse_discovery_response modest 100 overrun_field 11 ≢ fault)
    × (smart_parse_discovery_request modest 100 overrun_field 11 ≢ fault)
    × (smart_parse_client_request modest 100 overrun_field 11 ≢ fault)
    × (smart_parse_control_command modest 100 overrun_field 11 ≢ fault)
    × (smart_parse_control_response modest 100 overrun_field 11 ≢ fault)
parsers_stay_inside_example =
    parsers_stay_inside modest modest-Limits overrun_field 11 overrun-Holding 100

-- A text whose bytes, read as a length, would wrap the cursor around, and another text.
abbrev two_fields : Bytes
two_fields = 10 ∷ 10 ∷ 245 ∷ 255 ∷ 255 ∷ 255 ∷ 255 ∷ 255 ∷ 255 ∷ 255 ∷ 255 ∷ 1 ∷ 18 ∷ 1 ∷ 97 ∷ []

two_fields-Holding : Holding two_fields 15
two_fields-Holding = (le_of_leb _ _ refl, lt_of_ltb _ _ refl)

two_fields-IsForward : IsForward two_fields 15
unfolding forward read_key read_varint scan skip_field read_length_delimited
two_fields-IsForward = refl

parsers_end_example :
    (((m : SensorReading) × (smart_parse_sensor_reading modest 15 two_fields 15 ≡ ok m))
      ⊎ (smart_parse_sensor_reading modest 15 two_fields 15 ≡ rejected))
    × (((m : SensorInfo) × (smart_parse_discovery_response modest 15 two_fields 15 ≡ ok m))
        ⊎ (smart_parse_discovery_response modest 15 two_fields 15 ≡ rejected))
    × (((m : DiscoveryRequest) × (smart_parse_discovery_request modest 15 two_fields 15 ≡ ok m))
        ⊎ (smart_parse_discovery_request modest 15 two_fields 15 ≡ rejected))
    × (((m : ClientRequest) × (smart_parse_client_request modest 15 two_fields 15 ≡ ok m))
        ⊎ (smart_parse_client_request modest 15 two_fields 15 ≡ rejected))
    × (((m : ControlCommand) × (smart_parse_control_command modest 15 two_fields 15 ≡ ok m))
        ⊎ (smart_parse_control_command modest 15 two_fields 15 ≡ rejected))
    × (((m : ControlResponse) × (smart_parse_control_response modest 15 two_fields 15 ≡ ok m))
        ⊎ (smart_parse_control_response modest 15 two_fields 15 ≡ rejected))
parsers_end_example =
    parsers_end modest modest-Limits two_fields 15 two_fields-Holding 15 two_fields-IsForward
      (le_of_leb _ _ refl)
