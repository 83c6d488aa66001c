-- ===== src/Client/Asked.antt =====
-- What the menu of 2_c/client.c can ask for: requests that the gateway can read.
use smartcity.Prelude.{
  ℕ, ◌≤◌, ◌<◌, ◌≡◌, subst, Bool, not, some, Option, ◌++◌, Bytes, length, ◌==◌, arith,
}
use smartcity.Double.{Double, IsDouble, is_zero}
use smartcity.CString.{or_empty}
use smartcity.Encode.Shape.{string_bytes, varint_field_bytes, double_field_bytes, only}
use smartcity.Encode.Sizes.{
  length-varint_field_bytes, length-double_field_bytes, length-string_bytes, length-only,
  append-short,
}
use smartcity.Message.{ClientRequest}
use smartcity.Codec.ClientRequest.RoundTrip.{IsClientRequest, client_request_bytes}
use smartcity.Client.Menu.{build_request}
use smartcity.Client.Building.{IsMade, Made, build_request-Made}

request_short :
    (req : ClientRequest)
    → length (or_empty req.target_sensor_id) ≤ 255
    → length (or_empty req.text_value) ≤ 255
    → length (client_request_bytes req) ≤ 608
unfolding client_request_bytes
request_short req h k =
    let typed = only (not (req.request_type == 0)) (varint_field_bytes 1 req.request_type) in
    let target = string_bytes 2 req.target_sensor_id in
    let value = only (not (is_zero req.value)) (double_field_bytes 3 req.value) in
    let command = only (not (req.command_type == 0)) (varint_field_bytes 4 req.command_type) in
    let text = string_bytes 5 req.text_value in
    append-short typed (target ++ (value ++ (command ++ text))) 20 588
      (length-only (not (req.request_type == 0)) (varint_field_bytes 1 req.request_type) 20
        (length-varint_field_bytes 1 req.request_type))
      (append-short target (value ++ (command ++ text)) 275 313
        (length-string_bytes 2 req.target_sensor_id h)
        (append-short value (command ++ text) 18 295
          (length-only (not (is_zero req.value)) (double_field_bytes 3 req.value) 18
            (length-double_field_bytes 3 req.value))
          (append-short command text 20 275
            (length-only (not (req.command_type == 0)) (varint_field_bytes 4 req.command_type) 20
              (length-varint_field_bytes 4 req.command_type))
            (length-string_bytes 5 req.text_value k))))

-- Every request that the menu makes, whatever the entry and what is typed, and whether or not the
-- allocator grants the copies, has a type, texts of other bytes than 0 and numbers within their types,
-- and at most 608 bytes on the wire, where `strtod` returns doubles.
pub build_request-IsClientRequest :
    (alloc : ℕ → Bool) (strtod : Bytes → Option (Double × Bytes))
    → ((text rest : Bytes) (v : Double) → strtod text ≡ some (v, rest) → IsDouble v)
    → (option : ℕ) (input left : Bytes) (req : ClientRequest)
    → build_request alloc strtod option input ≡ (some req, left)
    → IsClientRequest req × (0 < req.request_type) × (length (client_request_bytes req) ≤ 608)
build_request-IsClientRequest alloc strtod doubles option input left req e =
    let made : IsMade req =
      unfold Made in subst Made e (build_request-Made alloc strtod doubles option input) in
    (
      record {
        request_type = omega (arith, made.request_type);
        target_sensor_id = made.target;
        value = made.value;
        command_type = omega (arith, made.command_type);
        text_value = made.text_value;
      },
      made.typed,
      request_short req made.target_short made.text_short,
    )
