-- ===== src/Client/Session.antt =====
-- What the client of 2_c/client.c does with a request, and a pass of the loop of `main`. A response is
-- parsed with a round for each of its bytes.
use smartcity.Prelude.{ℕ, Bool, true, false, not, some, none, Option, Bytes, length, ◌==◌}
use smartcity.Outcome.{Outcome, ok, rejected, fault, stuck, ◌>>=◌}
use smartcity.Double.{Double}
use smartcity.Decode.{to_u32}
use smartcity.Message.{ClientRequest, ClientResponse}
use smartcity.Client.Response.{parse_client_response}
use smartcity.Transport.{Socket}
use smartcity.Client.Writer.{encode_client_request}
use smartcity.Client.Messages.{send_msg, recv_msg}
use smartcity.Client.Input.{read_line, parse_int_line}
use smartcity.Client.Menu.{build_request}

-- How a pass of the loop ends: with `break`, with `continue`, or with a response that is printed and
-- whether the loop goes on behind it.
pub data Turn : Type 0 where
  leave again : Turn
  answered : ClientResponse → Bool → Turn

module _ (alloc : ℕ → Bool) where
  module _ {S : Type 0} (sock : Socket S) where
    unfoldable pub after_reply : Option Bytes × S → Outcome (Option ClientResponse × S)
    after_reply (none, s) = ok (none, s)
    after_reply (some raw, s) = elim (parse_client_response alloc (length raw) raw (length raw)) [
      | ok resp ↦ ok (some resp, s)
      | rejected ↦ ok (none, s)
      | fault ↦ fault
      | stuck ↦ stuck
    ]

    unfoldable pub after_request : Bool × S → Outcome (Option ClientResponse × S)
    unfolding after_reply
    after_request (false, s) = ok (none, s)
    after_request (true, s) = recv_msg alloc sock s >>= after_reply

    -- From the request to the response; none is `break`.
    unfoldable pub ask : ClientRequest → S → Outcome (Option ClientResponse × S)
    unfolding after_request
    ask req s = elim (encode_client_request alloc req) [
      | ok b ↦ send_msg alloc sock s b.contents (to_u32 (length b.contents)) >>= after_request
      | rejected ↦ ok (none, s)
      | fault ↦ fault
      | stuck ↦ stuck
    ]

    -- What is printed, and that 11 ends the loop.
    unfoldable pub turned : ℕ → Bytes → Option ClientResponse × S → Outcome (Turn × Bytes × S)
    turned option left (none, s) = ok (leave, left, s)
    turned option left (some resp, s) = ok (answered resp (not (option == 11)), left, s)

    unfoldable pub with_request : ℕ → S → Option ClientRequest × Bytes → Outcome (Turn × Bytes × S)
    unfolding ask turned
    with_request option s (none, left) = ok (again, left, s)
    with_request option s (some req, left) = ask req s >>= turned option left

    -- One pass of the loop of `main`, with `char line[64]`.
    unfoldable pub turn : (Bytes → Option (Double × Bytes)) → Bytes → S → Outcome (Turn × Bytes × S)
    unfolding read_line parse_int_line build_request with_request
    turn strtod input s = elim (read_line 64 input) [
      | none ↦ ok (leave, input, s)
      | some (line, left) ↦ elim (parse_int_line line) [
        | none ↦ ok (again, left, s)
        | some option ↦ with_request option s (build_request alloc strtod option left)
      ]
    ]
