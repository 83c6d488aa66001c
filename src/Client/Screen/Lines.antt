-- ===== src/Client/Screen/Lines.antt =====
-- The lines that print_response of 2_c/client.c prints.
use smartcity.Prelude.{
  ℕ, ◌+◌, ◌≡◌, refl, sym, ap, ◌∙◌, Bool, true, false, not, List, [], ◌∷◌, ◌++◌, append-nil,
  append_assoc, map, Bytes, All, length, codes, ltb, ◌==◌, if◌then◌else◌, Bool-cases, inl, inr,
  arith,
}
use smartcity.Double.{Double, is_zero}
use smartcity.CString.{or_empty}
use smartcity.Message.{SensorInfo, SensorReading, ClientResponse, ok_status}
use smartcity.Csv.Rows.{digits, signed_decimal}
use smartcity.Csv.Reading.{IsFree, digits-IsFree, signed_decimal-IsFree}
use smartcity.Client.Screen.{
  glue, line, status_text, one_or_zero, device_texts, device_line, device_lines, reading_texts,
  reading_line, reading_lines, print_response,
}

-- How many line breaks a text has.
unfoldable pub breaks : Bytes → ℕ
breaks [] = 0
breaks (c ∷ s) = (if c == 10 then 1 else 0) + breaks s

abbrev pub IsUnbroken : Bytes → Type 0
IsUnbroken s = breaks s ≡ 0

-- A byte before the first line.
abbrev pub before_first : ℕ → List Bytes → List Bytes
before_first c [] = (c ∷ []) ∷ []
before_first c (first ∷ rest) = (c ∷ first) ∷ rest

-- The texts between the line breaks.
unfoldable pub lines_of : Bytes → List Bytes
lines_of [] = [] ∷ []
lines_of (c ∷ s) = let rest = lines_of s in if c == 10 then [] ∷ rest else before_first c rest

lines_of-break : (s t : Bytes) → IsUnbroken s → lines_of (s ++ (10 ∷ t)) ≡ s ∷ lines_of t
unfolding lines_of breaks
lines_of-break [] t h = refl
lines_of-break (c ∷ s) t h = elim (Bool-cases (c == 10)) [
  | inl e ↦ absurd (ground arith)
  | inr e ↦ let below : IsUnbroken s = ground arith in rw (e, lines_of-break s t below)
]

breaks-append : (s t : Bytes) → breaks (s ++ t) ≡ breaks s + breaks t
unfolding breaks
breaks-append [] t = omega arith
breaks-append (c ∷ s) t = omega (arith, breaks-append s t)

glue-IsUnbroken : (texts : List Bytes) → All IsUnbroken texts → IsUnbroken (glue texts)
unfolding glue
glue-IsUnbroken [] h = unfold breaks in refl
glue-IsUnbroken (s ∷ rest) h =
    breaks-append s (glue rest) ∙ omega (arith, h.0, glue-IsUnbroken rest h.1)

cons-same : {a b : Bytes} {s t : List Bytes} → a ≡ b → s ≡ t → a ∷ s ≡ b ∷ t
cons-same e e' = λ i. e i ∷ e' i

glue_one : (s : Bytes) → glue (s ∷ []) ≡ s
unfolding glue
glue_one s = append-nil s

lines_of-empty : (t : Bytes) → lines_of (10 ∷ t) ≡ [] ∷ lines_of t
unfolding lines_of
lines_of-empty t = refl

lines_of-line :
    (texts : List Bytes) (t : Bytes)
    → All IsUnbroken texts
    → lines_of (line texts ++ t) ≡ glue texts ∷ lines_of t
unfolding line
lines_of-line texts t h =
    ap lines_of (append_assoc (glue texts) (10 ∷ []) t)
    ∙ lines_of-break (glue texts) t (glue-IsUnbroken texts h)

free-IsUnbroken : (s : Bytes) → All IsFree s → IsUnbroken s
unfolding breaks
free-IsUnbroken [] h = refl
free-IsUnbroken (c ∷ s) h =
    let other : (c == 10) ≡ false = ground (arith, h.0.0) in rw (other, free-IsUnbroken s h.1)

one_or_zero-IsUnbroken : (b : Bool) → IsUnbroken (one_or_zero b)
unfolding one_or_zero breaks
one_or_zero-IsUnbroken true = refl
one_or_zero-IsUnbroken false = refl

-- The texts of a device, of a reading and of a response have no line break.
pub record IsDeviceUnbroken (s : SensorInfo) : Type 0 where
  pub sensor_id : IsUnbroken (or_empty s.sensor_id)
  pub sensor_ip : IsUnbroken (or_empty s.sensor_ip)
  pub state_text : IsUnbroken (or_empty s.state_text)

pub record IsReadingUnbroken (r : SensorReading) : Type 0 where
  pub sensor_id : IsUnbroken (or_empty r.sensor_id)
  pub metric : IsUnbroken (or_empty r.metric)
  pub unit : IsUnbroken (or_empty r.unit)
  pub alert_message : IsUnbroken (or_empty r.alert_message)

pub record IsResponseUnbroken (resp : ClientResponse) : Type 0 where
  pub message : IsUnbroken (or_empty resp.message)
  pub sensors : All IsDeviceUnbroken resp.sensors
  pub readings : All IsReadingUnbroken resp.readings

device_texts-IsUnbroken : (s : SensorInfo) → IsDeviceUnbroken s → All IsUnbroken (device_texts s)
unfolding device_texts breaks
device_texts-IsUnbroken s h = (
  refl,
  (
    h.sensor_id,
    (
      refl,
      (
        free-IsUnbroken (signed_decimal 32 s.sensor_type) (signed_decimal-IsFree 32 s.sensor_type),
        (
          refl,
          (
            h.sensor_ip,
            (
              refl,
              (
                free-IsUnbroken (digits 20 s.control_tcp_port)
                    (digits-IsFree 20 s.control_tcp_port),
                (
                  refl,
                  (
                    one_or_zero-IsUnbroken s.is_active,
                    (
                      refl,
                      (
                        free-IsUnbroken (signed_decimal 32 s.device_kind)
                            (signed_decimal-IsFree 32 s.device_kind),
                        (refl, (h.state_text, tt)),
                      ),
                    ),
                  ),
                ),
              ),
            ),
          ),
        ),
      ),
    ),
  ),
)

status_text-IsUnbroken : (status : ℕ) → IsUnbroken (status_text status)
unfolding status_text breaks
status_text-IsUnbroken status = elim (Bool-cases (status == ok_status)) [
  | inl e ↦ rw e
  | inr e ↦ rw e
]

-- What stands on the line of a device.
abbrev pub device_words : SensorInfo → Bytes
device_words s =
    codes "- id="
    ++ (or_empty s.sensor_id
        ++ (codes " type="
            ++ (signed_decimal 32 s.sensor_type
                ++ (codes " ip="
                    ++ (or_empty s.sensor_ip
                        ++ (codes " control_port="
                            ++ (digits 20 s.control_tcp_port
                                ++ (codes " active="
                                    ++ ((if s.is_active then codes "1" else codes "0")
                                        ++ (codes " kind="
                                            ++ (signed_decimal 32 s.device_kind
                                                ++ (codes " state="
                                                    ++ or_empty s.state_text))))))))))))

device_words_lem : (s : SensorInfo) → glue (device_texts s) ≡ device_words s
unfolding glue device_texts one_or_zero
device_words_lem s = rw (append-nil (or_empty s.state_text))

-- A heading and what stands below it, where there is something.
abbrev pub titled : Bytes → List Bytes → List Bytes
titled title [] = []
titled title (first ∷ rest) = title ∷ first ∷ rest

-- A loop that prints a line for each item, and its heading.
module _ {A : Type 0} (texts : A → List Bytes) (words : A → Bytes) (IsFine : A → Type 0)
    (printed : List A → Bytes) (none_printed : printed [] ≡ [])
    (some_printed : (x : A) (rest : List A) → printed (x ∷ rest) ≡ line (texts x) ++ printed rest)
    (said : (x : A) → glue (texts x) ≡ words x)
    (fine : (x : A) → IsFine x → All IsUnbroken (texts x)) where
  lines_of-printed :
      (xs : List A) (t : Bytes)
      → All IsFine xs
      → lines_of (printed xs ++ t) ≡ map words xs ++ lines_of t
  lines_of-printed [] t h = ap (λ u. lines_of (u ++ t)) none_printed
  lines_of-printed (x ∷ rest) t h =
      ap (λ u. lines_of (u ++ t)) (some_printed x rest)
      ∙ ap lines_of (append_assoc (line (texts x)) (printed rest) t)
      ∙ lines_of-line (texts x) (printed rest ++ t) (fine x h.0)
      ∙ ap (λ u. u ∷ lines_of (printed rest ++ t)) (said x)
      ∙ ap (λ u. words x ∷ u) (lines_of-printed rest t h.1)

  lines_of-titled :
      (title : Bytes) (xs : List A) (t : Bytes)
      → IsUnbroken title
      → All IsFine xs
      → lines_of ((if ltb 0 (length xs) then line (title ∷ []) ++ printed xs else []) ++ t)
        ≡ titled title (map words xs) ++ lines_of t
  lines_of-titled title [] t h k = refl
  lines_of-titled title (x ∷ rest) t h k =
      let there : ltb 0 (length (x ∷ rest)) ≡ true = ground arith in
      rw there (
        ap lines_of (append_assoc (line (title ∷ [])) (printed (x ∷ rest)) t)
        ∙ lines_of-line (title ∷ []) (printed (x ∷ rest) ++ t) (h, tt)
        ∙ ap (λ u. u ∷ lines_of (printed (x ∷ rest) ++ t)) (glue_one title)
        ∙ ap (λ u. title ∷ u) (lines_of-printed (x ∷ rest) t k))

-- What stands on the line of a reading.
abbrev pub reading_words : (Double → Bytes) → SensorReading → Bytes
reading_words format_f2 r =
    codes "- id="
    ++ (or_empty r.sensor_id
        ++ (codes " metric="
            ++ (or_empty r.metric
                ++ (codes " value="
                    ++ (format_f2 r.value
                        ++ (codes " unit="
                            ++ (or_empty r.unit
                                ++ (codes " ts="
                                    ++ (signed_decimal 64 r.timestamp_unix_ms
                                        ++ (codes " alert="
                                            ++ ((if r.alert then codes "1" else codes "0")
                                                ++ (codes " msg="
                                                    ++ or_empty r.alert_message))))))))))))

module _ (format_f2 : Double → Bytes) (printed : (x : Double) → IsUnbroken (format_f2 x)) where
  reading_texts-IsUnbroken :
      (r : SensorReading) → IsReadingUnbroken r → All IsUnbroken (reading_texts format_f2 r)
  unfolding reading_texts breaks
  reading_texts-IsUnbroken r h = (
    refl,
    (
      h.sensor_id,
      (
        refl,
        (
          h.metric,
          (
            refl,
            (
              printed r.value,
              (
                refl,
                (
                  h.unit,
                  (
                    refl,
                    (
                      free-IsUnbroken (signed_decimal 64 r.timestamp_unix_ms)
                          (signed_decimal-IsFree 64 r.timestamp_unix_ms),
                      (refl, (one_or_zero-IsUnbroken r.alert, (refl, (h.alert_message, tt)))),
                    ),
                  ),
                ),
              ),
            ),
          ),
        ),
      ),
    ),
  )

  reading_words_lem :
      (r : SensorReading) → glue (reading_texts format_f2 r) ≡ reading_words format_f2 r
  unfolding glue reading_texts one_or_zero
  reading_words_lem r = rw (append-nil (or_empty r.alert_message))

  lines_of-value :
      (x : Double) (t : Bytes)
      → lines_of ((if not (is_zero x) then line (codes "Valor: " ∷ format_f2 x ∷ []) else []) ++ t)
        ≡ (if not (is_zero x) then (codes "Valor: " ++ format_f2 x) ∷ [] else []) ++ lines_of t
  lines_of-value x t = elim (Bool-cases (is_zero x)) [
    | inl e ↦ rw e
    | inr e ↦ rw e (
        lines_of-line (codes "Valor: " ∷ format_f2 x ∷ []) t
          ((unfold breaks in refl), (printed x, tt))
        ∙ ap (λ u. u ∷ lines_of t)
            (unfold glue in ap (λ u. codes "Valor: " ++ u) (append-nil (format_f2 x))))
  ]

  top_words :
      (resp : ClientResponse)
      → glue (codes "[" ∷ status_text resp.status ∷ codes "] " ∷ or_empty resp.message ∷ [])
        ≡ codes "["
          ++ ((if resp.status == ok_status then codes "OK" else codes "ERROR")
              ++ (codes "] " ++ or_empty resp.message))
  unfolding glue status_text
  top_words resp = rw (append-nil (or_empty resp.message))

  history :
      (resp : ClientResponse)
      → IsResponseUnbroken resp
      → lines_of (
          if ltb 0 (length resp.readings)
          then line (codes "Historico:" ∷ []) ++ reading_lines format_f2 resp.readings
          else [])
        ≡ titled (codes "Historico:") (map (reading_words format_f2) resp.readings) ++ ([] ∷ [])
  history resp h =
      ap lines_of (sym (append-nil _))
      ∙ lines_of-titled (reading_texts format_f2) (reading_words format_f2) IsReadingUnbroken
          (reading_lines format_f2) (unfold reading_lines in refl)
          (λ r rest. unfold reading_lines reading_line in refl) reading_words_lem
          reading_texts-IsUnbroken (codes "Historico:") resp.readings [] (unfold breaks in refl)
          h.readings
      ∙ unfold lines_of in refl

  -- Where `%.2f` prints no line break and the texts of a response have none: what print_response prints
  -- consists of these lines. The first is empty; the second has the status and the message. Then, where
  -- there are devices, a heading and a line for each of them with its fields; a line with the value
  -- unless it is 0; where there are readings, a heading and a line for each of them with its fields;
  -- and nothing behind the last line break.
  pub print_response-lines :
      (resp : ClientResponse)
      → IsResponseUnbroken resp
      → lines_of (print_response format_f2 resp)
        ≡ []
          ∷ (codes "["
              ++ ((if resp.status == ok_status then codes "OK" else codes "ERROR")
                  ++ (codes "] " ++ or_empty resp.message)))
          ∷ (titled (codes "Dispositivos:") (map device_words resp.sensors)
              ++ ((if not (is_zero resp.metric_value)
                    then (codes "Valor: " ++ format_f2 resp.metric_value) ∷ []
                    else [])
                  ++ (titled (codes "Historico:") (map (reading_words format_f2) resp.readings)
                      ++ ([] ∷ []))))
  unfolding print_response
  print_response-lines resp h =
      let top = codes "[" ∷ status_text resp.status ∷ codes "] " ∷ or_empty resp.message ∷ [] in
      lines_of-empty (line top ++ _)
      ∙ ap (λ u. [] ∷ u)
          (lines_of-line top _ (
            (unfold breaks in refl),
            (status_text-IsUnbroken resp.status, ((unfold breaks in refl), (h.message, tt))),
          )
            ∙ cons-same (top_words resp) (
                lines_of-titled device_texts device_words IsDeviceUnbroken device_lines
                  (unfold device_lines in refl) (λ s rest. unfold device_lines device_line in refl)
                  device_words_lem device_texts-IsUnbroken (codes "Dispositivos:") resp.sensors _
                  (unfold breaks in refl) h.sensors
                ∙ ap (λ u. titled (codes "Dispositivos:") (map device_words resp.sensors) ++ u)
                    (lines_of-value resp.metric_value _
                      ∙ ap
                          (λ u.
                            (if not (is_zero resp.metric_value)
                              then (codes "Valor: " ++ format_f2 resp.metric_value) ∷ []
                              else [])
                            ++ u)
                          (history resp h))))
