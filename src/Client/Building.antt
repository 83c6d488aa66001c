-- ===== src/Client/Building.antt =====
-- What build_request of 2_c/client.c puts into a request.
use smartcity.Prelude.{
  ℕ, ◌+◌, ◌≤◌, ◌<◌, ◌≡◌, refl, Bool, true, false, ◌&&◌, some, none, Option, [], ◌∷◌, Bytes, length,
  leb, ◌==◌, if◌then◌else◌, arith,
}
use smartcity.Double.{Double, IsDouble}
use smartcity.Encode.{CString}
use smartcity.CString.{or_empty}
use smartcity.Decode.Fields.{IsText}
use smartcity.Message.{ClientRequest, zero_client_request}
use smartcity.Client.Input.{read_line, whole, parse_double_line}
use smartcity.Client.Menu.{
  input_size, dup_cstring, copied, line_stored, ask_text, chosen, number_stored, brightness_stored,
  ask_brightness, with_command, then_command, build_request,
}
use smartcity.Client.Lines.{IsLine, Lined, read_line-Lined}

-- What a request has to be for that.
pub record IsMade (req : ClientRequest) : Type 0 where
  pub request_type : req.request_type < 13
  pub typed : 0 < req.request_type
  pub target : IsText req.target_sensor_id
  pub target_short : length (or_empty req.target_sensor_id) ≤ 255
  pub value : IsDouble req.value
  pub command_type : req.command_type < 11
  pub text_value : IsText req.text_value
  pub text_short : length (or_empty req.text_value) ≤ 255

-- The request, if there is one.
unfoldable pub Made : Option ClientRequest × Bytes → Type 0
Made (none, left) = Unit {0}
Made (some req, left) = IsMade req

module _ (alloc : ℕ → Bool) where
  copied-Made :
      (store : CString → ClientRequest) (left : Bytes) (line : Bytes) (b : Bool)
      → ((s : Bytes) → IsLine s → IsMade (store (some s)))
      → IsLine line
      → Made (copied alloc store left (if b then some line else none))
  unfolding copied Made
  copied-Made store left line true keeps h = keeps line h
  copied-Made store left line false keeps h = tt

  line_stored-Made :
      (store : CString → ClientRequest) (input : Bytes) (r : Option (Bytes × Bytes))
      → ((s : Bytes) → IsLine s → IsMade (store (some s)))
      → Lined r
      → Made (line_stored alloc store input r)
  unfolding line_stored Made Lined dup_cstring
  line_stored-Made store input none keeps h = tt
  line_stored-Made store input (some (line, left)) keeps h =
      copied-Made store left line (alloc (length line + 1)) keeps h

  ask_text-Made :
      (store : CString → ClientRequest) (input : Bytes)
      → ((s : Bytes) → IsLine s → IsMade (store (some s)))
      → Made (ask_text alloc store input)
  unfolding ask_text
  ask_text-Made store input keeps =
      line_stored-Made store input (read_line input_size input) keeps (read_line-Lined input)

  either-Made :
      (b : Bool) (x y : Option ClientRequest × Bytes) → Made x → Made y → Made (if b then x else y)
  either-Made true x y h k = h
  either-Made false x y h k = k

  plain-Made :
      (t : ℕ) (input : Bytes)
      → t < 13
      → 0 < t
      → Made (some (record zero_client_request { request_type = t }), input)
  unfolding Made
  plain-Made t input h k = record {
    request_type = h;
    typed = k;
    target = tt;
    target_short = omega arith;
    value = omega arith;
    command_type = omega arith;
    text_value = tt;
    text_short = omega arith;
  }

  targeted :
      (s : Bytes)
      → IsLine s
      → IsMade (record zero_client_request { request_type = 12; target_sensor_id = some s })
  targeted s h = record {
    request_type = omega arith;
    typed = omega arith;
    target = h.nonzero;
    target_short = h.short;
    value = omega arith;
    command_type = omega arith;
    text_value = tt;
    text_short = omega arith;
  }

  chosen-Made : (option : ℕ) (input : Bytes) → Made (chosen alloc option input)
  unfolding chosen
  chosen-Made option input =
      either-Made (option == 1) _ _ (plain-Made 1 input (omega arith) (omega arith)) (
        either-Made (option == 2) _ _ (plain-Made 2 input (omega arith) (omega arith)) (
          either-Made (option == 3) _ _ (plain-Made 3 input (omega arith) (omega arith)) (
            either-Made (option == 4) _ _ (plain-Made 10 input (omega arith) (omega arith)) (
              either-Made (option == 5) _ _ (plain-Made 4 input (omega arith) (omega arith)) (
                either-Made (option == 6) _ _ (plain-Made 11 input (omega arith) (omega arith)) (
                  either-Made (leb 7 option && leb option 10) _ _
                    (ask_text-Made
                      (λ t. record zero_client_request { request_type = 12; target_sensor_id = t })
                      input targeted)
                    (either-Made (option == 11) _ _ (plain-Made 9 input (omega arith) (omega arith))
                      (no_request input))))))))
    where
      no_request : (left : Bytes) → Made (none, left)
      no_request left = unfold Made in tt

  commanded :
      (req : ClientRequest) (t : ℕ) → t < 11 → IsMade req → IsMade (record req { command_type = t })
  commanded req t h k = record {
    request_type = k.request_type;
    typed = k.typed;
    target = k.target;
    target_short = k.target_short;
    value = k.value;
    command_type = h;
    text_value = k.text_value;
    text_short = k.text_short;
  }

  colored :
      (req : ClientRequest) (s : Bytes)
      → IsMade req
      → IsLine s
      → IsMade (record req { command_type = 8; text_value = some s })
  colored req s k h = record {
    request_type = k.request_type;
    typed = k.typed;
    target = k.target;
    target_short = k.target_short;
    value = k.value;
    command_type = omega arith;
    text_value = h.nonzero;
    text_short = h.short;
  }

  brightened :
      (req : ClientRequest) (v : Double)
      → IsMade req
      → IsDouble v
      → IsMade (record req { value = v })
  brightened req v k h = record {
    request_type = k.request_type;
    typed = k.typed;
    target = k.target;
    target_short = k.target_short;
    value = h;
    command_type = k.command_type;
    text_value = k.text_value;
    text_short = k.text_short;
  }

  module _ (strtod : Bytes → Option (Double × Bytes))
      (doubles : (text rest : Bytes) (v : Double) → strtod text ≡ some (v, rest) → IsDouble v) where
    Doubled : Option Double → Type 0
    Doubled none = Unit {0}
    Doubled (some v) = IsDouble v

    whole-Doubled :
        (o : Option (Double × Bytes))
        → ((rest : Bytes) (v : Double) → o ≡ some (v, rest) → IsDouble v)
        → Doubled (whole o)
    unfolding whole Doubled
    whole-Doubled none h = tt
    whole-Doubled (some (v, [])) h = h [] v refl
    whole-Doubled (some (v, c ∷ rest)) h = tt

    parse_double_line-Doubled : (line : Bytes) → Doubled (parse_double_line strtod line)
    unfolding parse_double_line Doubled
    parse_double_line-Doubled [] = tt
    parse_double_line-Doubled (c ∷ s) = whole-Doubled (strtod (c ∷ s)) (doubles (c ∷ s))

    number_stored-Made :
        (req : ClientRequest) (left : Bytes) (o : Option Double)
        → IsMade req
        → Doubled o
        → Made (number_stored alloc strtod req left o)
    unfolding number_stored Made Doubled
    number_stored-Made req left none k h = tt
    number_stored-Made req left (some v) k h = brightened req v k h

    brightness_stored-Made :
        (req : ClientRequest) (input : Bytes) (r : Option (Bytes × Bytes))
        → IsMade req
        → Made (brightness_stored alloc strtod req input r)
    unfolding brightness_stored
    brightness_stored-Made req input none k = unfold Made in tt
    brightness_stored-Made req input (some (line, left)) k =
        number_stored-Made req left (parse_double_line strtod line) k
          (parse_double_line-Doubled line)

    with_command-Made :
        (option : ℕ) (req : ClientRequest) (input : Bytes)
        → IsMade req
        → Made (with_command alloc strtod option req input)
    unfolding with_command ask_brightness Made
    with_command-Made option req input k =
        either-Made (option == 7) _ _ (commanded req 1 (omega arith) k) (
          either-Made (option == 8) _ _ (commanded req 2 (omega arith) k) (
            either-Made (option == 9) _ _
              (ask_text-Made (λ t. record req { command_type = 8; text_value = t }) input
                (λ s h. colored req s k h))
              (either-Made (option == 10) _ _
                (brightness_stored-Made (record req { command_type = 10 }) input
                  (read_line input_size input) (commanded req 10 (omega arith) k))
                k)))

    then_command-Made :
        (option : ℕ) (r : Option ClientRequest × Bytes)
        → Made r
        → Made (then_command alloc strtod option r)
    unfolding then_command Made
    then_command-Made option (none, left) k = tt
    then_command-Made option (some req, left) k = with_command-Made option req left k

    pub build_request-Made :
        (option : ℕ) (input : Bytes) → Made (build_request alloc strtod option input)
    unfolding build_request
    build_request-Made option input =
        then_command-Made option (chosen alloc option input) (chosen-Made option input)
