-- ===== src/Tests/Clients.antt =====
-- The theorems on a client's connection to the gateway, for a list of devices and the end.
use smartcity.Prelude.{ℕ, ◌≤◌, ◌≡◌, refl, List, [], ◌∷◌, ◌++◌, Bytes, length, codes, arith}
use smartcity.Outcome.{ok}
use smartcity.Double.{is_zero, double_bytes}
use smartcity.CString.{text, smart_dup_cstring}
use smartcity.Encode.Shape.{
  string_bytes, varint_field_bytes, double_field_bytes, varint_bytes, groups,
}
use smartcity.Message.{ClientRequest, ClientResponse, exit}
use smartcity.Codec.ClientRequest.RoundTrip.{
  IsClientRequest, client_request_bytes, received_client_request,
}
use smartcity.Codec.ClientResponse.Nested.{all_nested, nested_bytes}
use smartcity.Codec.ClientResponse.RoundTrip.{IsClientResponse, client_response_bytes}
use smartcity.Gateway.Queries.{plain_response}
use smartcity.Gateway.Command.{process_client_request}
use smartcity.Gateway.Events.{Event, run}
use smartcity.Gateway.Threads.Clients.{Pass, client_thread}
use smartcity.Gateway.Threads.Clients.Interleaving.{Session, client_thread-run}
use smartcity.Gateway.Threads.Clients.Dialogue.{
  asked, told, Exchanged, Dialogue, last, more, client_thread-answers,
}
use smartcity.Transport.Duplex.{IsDuplex}
use smartcity.Tests.{
  generous, toy, IsText-of_nonzero, list_request, list_request_valid, listed, listed_valid,
  lt_of_ltb, le_of_leb,
}
use smartcity.Tests.Sizes.{list_request_small, listed_small}
use smartcity.Tests.Gateway.{known, light}
use smartcity.Tests.Threads.{trickle, trickle_stream, listed_then}

trickle_recv_keeps : (s : Bytes × Bytes) (n : ℕ) → (trickle.recv s n).1.1 ≡ s.1
trickle_recv_keeps ([], out) n = refl
trickle_recv_keeps (b ∷ rest, out) n = refl

trickle-IsDuplex : IsDuplex trickle trickle_stream
trickle-IsDuplex = record { send_keeps = λ s mem n. refl; recv_keeps = trickle_recv_keeps }

abbrev at_nine : Pass
at_nine = record { before = []; now = 9; net = light; others = [] }

abbrev exit_request : ClientRequest
exit_request = record list_request { request_type = exit }

exit_request_valid : IsClientRequest exit_request
exit_request_valid = record {
  request_type = lt_of_ltb _ _ refl;
  target_sensor_id = list_request_valid.target_sensor_id;
  value = lt_of_ltb _ _ refl;
  command_type = lt_of_ltb _ _ refl;
  text_value = list_request_valid.text_value;
}

exit_request_small : length (client_request_bytes exit_request) ≤ 250
unfolding client_request_bytes string_bytes varint_field_bytes double_field_bytes varint_bytes
    groups is_zero double_bytes
exit_request_small = le_of_leb _ _ refl

abbrev ended : ClientResponse
ended = record listed { message = text "Conexao encerrada"; sensors = [] }

ended_valid : IsClientResponse ended
ended_valid = record {
  status = lt_of_ltb _ _ refl;
  message = IsText-of_nonzero ended.message refl;
  sensors = tt;
  metric_value = lt_of_ltb _ _ refl;
  readings = tt;
}

ended_small : length (client_response_bytes ended) ≤ 250
unfolding client_response_bytes all_nested nested_bytes string_bytes varint_field_bytes
    double_field_bytes varint_bytes groups is_zero double_bytes
ended_small = le_of_leb _ _ refl

ended_then :
    process_client_request generous light 9
      (run generous [])
      toy
      known
      (received_client_request exit_request)
    ≡ ok (ended, known)
unfolding process_client_request plain_response smart_dup_cstring received_client_request
ended_then = refl

list-Exchanged : Exchanged generous toy at_nine list_request known listed known
list-Exchanged = record {
  valid = list_request_valid;
  small = omega (arith, list_request_small);
  processed = unfold run in listed_then;
  answer_valid = listed_valid;
  answer_small = omega (arith, listed_small);
}

exit-Exchanged : Exchanged generous toy at_nine exit_request known ended known
exit-Exchanged = record {
  valid = exit_request_valid;
  small = omega (arith, exit_request_small);
  processed = unfold run in ended_then;
  answer_valid = ended_valid;
  answer_small = omega (arith, ended_small);
}

dialogue :
    Dialogue generous toy
      (at_nine ∷ at_nine ∷ [])
      (list_request ∷ exit_request ∷ [])
      known
      (listed ∷ ended ∷ [])
      known
dialogue =
    more at_nine (at_nine ∷ []) list_request (exit_request ∷ []) known known listed (ended ∷ [])
      known list-Exchanged refl (last at_nine [] exit_request known ended known exit-Exchanged refl)

client_thread-answers_example :
    (s' : Bytes × Bytes) × (client_thread generous toy trickle
        (at_nine ∷ at_nine ∷ [])
        (asked (list_request ∷ exit_request ∷ []) ++ codes "x", [])
        known
      ≡ ok (s', known))
    × (s'.0 ≡ codes "x")
    × (s'.1 ≡ [] ++ told (listed ∷ ended ∷ []))
client_thread-answers_example =
    client_thread-answers generous toy (λ n. refl) trickle trickle_stream trickle-IsDuplex
      (at_nine ∷ at_nine ∷ []) (list_request ∷ exit_request ∷ []) known (listed ∷ ended ∷ []) known
      (asked (list_request ∷ exit_request ∷ []) ++ codes "x", []) (codes "x") dialogue refl

lone :
    (s' : Bytes × Bytes) × (client_thread generous toy trickle
        (at_nine ∷ [])
        (asked (exit_request ∷ []) ++ [], [])
        known
      ≡ ok (s', known))
    × (s'.0 ≡ [])
    × (s'.1 ≡ [] ++ told (ended ∷ []))
lone =
    client_thread-answers generous toy (λ n. refl) trickle trickle_stream trickle-IsDuplex
      (at_nine ∷ []) (exit_request ∷ []) known (ended ∷ []) known
      (asked (exit_request ∷ []) ++ [], []) []
      (last at_nine [] exit_request known ended known exit-Exchanged refl) refl

client_thread-run_example :
    (events : List Event) × Session generous trickle
      (at_nine ∷ [])
      (asked (exit_request ∷ []) ++ [], [])
      known
      events
    × (known ≡ run generous events known)
client_thread-run_example =
    client_thread-run generous toy trickle (at_nine ∷ []) (asked (exit_request ∷ []) ++ [], [])
      lone.0 known known lone.1
