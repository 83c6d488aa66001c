-- ===== src/Tests/Client.antt =====
-- The theorems on the terminal client, each on what a user types.
use smartcity.Prelude.{
  ◌<◌, ◌≤◌, ◌≡◌, refl, sym, ap, ◌∙◌, Bool, true, not, some, none, Option, [], ◌∷◌, ◌++◌, Bytes,
  length, ◌==◌, codes, arith,
}
use smartcity.Outcome.{Outcome, ok}
use smartcity.Double.{
  Double, IsDouble, double_70, is_nan, is_zero, is_negative, lt_double, le_double, double_bytes,
}
use smartcity.CString.{lost, smart_dup_cstring}
use smartcity.Encode.Shape.{
  string_bytes, varint_field_bytes, double_field_bytes, varint_bytes, groups,
}
use smartcity.Decode.{before_nul}
use smartcity.Message.{ClientRequest, zero_client_request, list_sensors, exit}
use smartcity.Codec.ClientRequest.RoundTrip.{
  IsClientRequest, client_request_bytes, received_client_request,
}
use smartcity.Codec.ClientResponse.RoundTrip.{client_response_bytes, received_client_response}
use smartcity.Gateway.{GatewayState, copy_info, copy_failed}
use smartcity.Gateway.Queries.{
  build_sensor_list_response, sensor_list_loop, recently_seen, plain_response,
}
use smartcity.Gateway.Command.{process_client_request, serve}
use smartcity.Transport.{Socket, smart_send_msg, htonl, smart_send_all, send_loop, after_send}
use smartcity.Client.Input.{
  line_of, fgets, keep_before, trim_newline, read_line, skip_space, digits_of, as_long, signed,
  after_space, strtol, whole, parse_int_line, parse_double_line,
}
use smartcity.Client.Menu.{
  dup_cstring, copied, line_stored, ask_text, chosen, number_stored, brightness_stored,
  ask_brightness, with_command, then_command, build_request,
}
use smartcity.Client.Messages.{buffer_append_u32_be, send_all, after_header, send_msg}
use smartcity.Client.Session.{answered, turn}
use smartcity.Client.Asked.{build_request-IsClientRequest}
use smartcity.Codec.ClientRequest.{smart_encode_client_request}
use smartcity.Codec.ClientResponse.{smart_parse_client_response}
use smartcity.Client.Writer.{encode_client_request}
use smartcity.Client.Response.{parse_client_response}
use smartcity.Client.Copies.{client_copies-same}
use smartcity.Client.Conversation.{turn-answered}
use smartcity.Gateway.Answers.{serve-request}
use smartcity.Tests.{generous, toy, le_of_leb, listed, listed_valid, lt_of_ltb}
use smartcity.Tests.Sizes.{listed_small}
use smartcity.Tests.Line.{line, line_stream, same_state}
use smartcity.Tests.Gateway.{known, light}

-- Any text is read as 70.
abbrev seventy : Bytes → Option (Double × Bytes)
seventy text = some (double_70, [])

seventy-doubles : (text rest : Bytes) (v : Double) → seventy text ≡ some (v, rest) → IsDouble v
seventy-doubles text rest v e = let same : double_70 ≡ v = cc in rw (sym same) (lt_of_ltb _ _ refl)

abbrev typed : Bytes
typed = codes "poste-1" ++ (10 ∷ codes "70" ++ (10 ∷ []))

abbrev brightness_request : ClientRequest
brightness_request = record {
  request_type = 12;
  target_sensor_id = some (codes "poste-1");
  value = double_70;
  command_type = 10;
  text_value = none;
}

brightness_built : build_request generous seventy 10 typed ≡ (some brightness_request, [])
unfolding build_request then_command with_command ask_brightness brightness_stored number_stored
    chosen ask_text line_stored copied dup_cstring read_line fgets line_of trim_newline keep_before
    before_nul parse_double_line whole
brightness_built = refl

build_request-IsClientRequest_example :
    IsClientRequest brightness_request
    × (0 < brightness_request.request_type)
    × (length (client_request_bytes brightness_request) ≤ 608)
build_request-IsClientRequest_example =
    build_request-IsClientRequest generous seventy seventy-doubles 10 typed [] brightness_request
      brightness_built

abbrev reply : Bytes
reply = htonl (length (client_response_bytes listed)) ++ client_response_bytes listed

abbrev phone : Socket (Bytes × Bytes)
phone = line reply

abbrev first_request : ClientRequest
first_request = record zero_client_request { request_type = list_sensors }

listing_built : build_request generous seventy 1 [] ≡ (some first_request, [])
unfolding build_request then_command with_command chosen
listing_built = refl

abbrev one : Bytes
one = 49 ∷ 10 ∷ []

one_read : read_line 64 one ≡ some (49 ∷ [], [])
unfolding read_line fgets line_of trim_newline keep_before before_nul
one_read = refl

one_chosen : parse_int_line (49 ∷ []) ≡ some 1
unfolding parse_int_line strtol skip_space after_space signed as_long digits_of whole
one_chosen = refl

first_listed :
    process_client_request generous light 9
      (λ s. s)
      toy
      known
      (received_client_request first_request)
    ≡ ok (listed, known)
unfolding process_client_request build_sensor_list_response sensor_list_loop copy_info copy_failed
    lost recently_seen le_double lt_double is_nan is_zero is_negative plain_response
    smart_dup_cstring received_client_request
first_listed = refl

abbrev sent_first : Bytes
sent_first =
    htonl (length (client_request_bytes first_request)) ++ client_request_bytes first_request

first_sent :
    send_msg generous phone
      ([], [])
      (client_request_bytes first_request)
      (length (client_request_bytes first_request))
    ≡ ok (true, (reply, sent_first))
unfolding send_msg after_header send_all smart_send_all send_loop after_send buffer_append_u32_be
    htonl client_request_bytes string_bytes varint_field_bytes double_field_bytes varint_bytes
    groups is_zero double_bytes
first_sent = refl

first_valid : IsClientRequest first_request
first_valid = record {
  request_type = lt_of_ltb _ _ refl;
  target_sensor_id = tt;
  value = lt_of_ltb _ _ refl;
  command_type = lt_of_ltb _ _ refl;
  text_value = tt;
}

first_small : length (client_request_bytes first_request) ≤ 250
unfolding client_request_bytes string_bytes varint_field_bytes double_field_bytes varint_bytes
    groups is_zero double_bytes
first_small = le_of_leb _ _ refl

first_served :
    serve generous light 9 (λ s. s) toy known (client_request_bytes first_request)
    ≡ ok (some (client_response_bytes listed), not (first_request.request_type == exit), known)
first_served =
    serve-request generous (λ n. refl) light 9 (λ s. s) toy known known first_request listed
      first_valid (omega (arith, first_small)) first_listed listed_valid
      (omega (arith, listed_small))

reply_comes :
    (answer : Bytes) (goes_on : Bool) (s' : Bytes × Bytes)
    → send_msg generous phone
        ([], [])
        (client_request_bytes first_request)
        (length (client_request_bytes first_request))
      ≡ ok (true, s')
    → serve generous light 9 (λ s. s) toy known (client_request_bytes first_request)
      ≡ ok (some answer, goes_on, known)
    → s'.0 ≡ htonl (length answer) ++ answer
reply_comes answer goes_on s' sent served =
    let same : client_response_bytes listed ≡ answer = same_answer first_served served in
    let there : ◌≡◌ {A = Bytes × Bytes} (reply, sent_first) s' = same_state first_sent sent in
    sym (ap (λ p. p.0) there) ∙ ap (λ t. htonl (length t) ++ t) same
  where
    same_answer :
        {o : Outcome (Option Bytes × Bool × GatewayState)} {a b : Bytes} {x y : Bool}
        {g h : GatewayState}
        → o ≡ ok (some a, x, g)
        → o ≡ ok (some b, y, h)
        → a ≡ b
    same_answer e e' = cc

turn-answered_example :
    (s' : Bytes × Bytes) × (serve generous light 9
        (λ s. s)
        toy
        known
        (client_request_bytes first_request)
      ≡ ok (some (client_response_bytes listed), not (first_request.request_type == exit), known))
    × (turn generous phone seventy one ([], [])
        ≡ ok (answered (received_client_response listed) (not (1 == 11)), [], s'))
    × (s'.0 ≡ [])
turn-answered_example =
    turn-answered generous (λ n. refl) phone (line_stream reply) seventy seventy-doubles light 9
      (λ s. s) toy known known one (49 ∷ []) [] [] 1 first_request listed ([], []) one_read
      one_chosen listing_built first_listed listed_valid (omega (arith, listed_small)) reply_comes

client_copies-same_example :
    (encode_client_request generous first_request
      ≡ smart_encode_client_request generous first_request)
    × (parse_client_response generous 3 (8 ∷ 1 ∷ 7 ∷ []) 3
        ≡ smart_parse_client_response generous 3 (8 ∷ 1 ∷ 7 ∷ []) 3)
    × (send_msg generous phone ([], []) (codes "abc") 3
        ≡ smart_send_msg phone ([], []) (codes "abc") 3)
client_copies-same_example =
    client_copies-same generous phone first_request 3 (8 ∷ 1 ∷ 7 ∷ []) 3 ([], []) (codes "abc") 3
      (lt_of_ltb _ _ refl)
