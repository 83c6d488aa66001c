-- ===== src/Client/Screen.antt =====
-- What 2_c/client.c prints: show_menu, status_text and print_response. `%.2f` is given, the other
-- conversions are written out.
pub mod Lines
use smartcity.Prelude.{
  Bool, not, List, [], ◌∷◌, ◌++◌, Bytes, length, codes, ltb, ◌==◌, if◌then◌else◌,
}
use smartcity.Double.{Double, is_zero}
use smartcity.CString.{or_empty}
use smartcity.Message.{SensorInfo, SensorReading, ClientResponse, ResponseStatus, ok_status}
use smartcity.Csv.Rows.{digits, signed_decimal}

-- Texts one behind the other.
unfoldable pub glue : List Bytes → Bytes
glue [] = []
glue (s ∷ rest) = s ++ glue rest

-- A line of such texts, with its line break.
unfoldable pub line : List Bytes → Bytes
unfolding glue
line texts = glue texts ++ (10 ∷ [])

unfoldable pub show_menu : Bytes
unfolding line
show_menu = glue (
    line []
    ∷ line (codes "=== Cliente Analitico ===" ∷ [])
    ∷ line (codes "1 - Listar dispositivos conectados" ∷ [])
    ∷ line (codes "2 - Consultar media de temperatura" ∷ [])
    ∷ line (codes "3 - Consultar media de CO2" ∷ [])
    ∷ line (codes "4 - Consultar media de umidade" ∷ [])
    ∷ line (codes "5 - Consultar maior leitura registrada" ∷ [])
    ∷ line (codes "6 - Consultar historico de leituras" ∷ [])
    ∷ line (codes "7 - Ligar atuador" ∷ [])
    ∷ line (codes "8 - Desligar atuador" ∷ [])
    ∷ line (codes "9 - Alterar cor do semaforo" ∷ [])
    ∷ line (codes "10 - Alterar brilho do poste" ∷ [])
    ∷ line (codes "11 - Sair" ∷ [])
    ∷ [])

unfoldable pub status_text : ResponseStatus → Bytes
status_text status = if status == ok_status then codes "OK" else codes "ERROR"

-- `b ? 1 : 0` with `%d`.
unfoldable pub one_or_zero : Bool → Bytes
one_or_zero b = if b then codes "1" else codes "0"

unfoldable pub device_texts : SensorInfo → List Bytes
unfolding one_or_zero signed_decimal digits
device_texts s =
    codes "- id="
    ∷ or_empty s.sensor_id
    ∷ codes " type="
    ∷ signed_decimal 32 s.sensor_type
    ∷ codes " ip="
    ∷ or_empty s.sensor_ip
    ∷ codes " control_port="
    ∷ digits 20 s.control_tcp_port
    ∷ codes " active="
    ∷ one_or_zero s.is_active
    ∷ codes " kind="
    ∷ signed_decimal 32 s.device_kind
    ∷ codes " state="
    ∷ or_empty s.state_text
    ∷ []

unfoldable pub device_line : SensorInfo → Bytes
unfolding line device_texts
device_line s = line (device_texts s)

-- The loop over the devices.
unfoldable pub device_lines : List SensorInfo → Bytes
unfolding device_line
device_lines [] = []
device_lines (s ∷ rest) = device_line s ++ device_lines rest

module _ (format_f2 : Double → Bytes) where
  unfoldable pub reading_texts : SensorReading → List Bytes
  unfolding one_or_zero signed_decimal
  reading_texts r =
      codes "- id="
      ∷ or_empty r.sensor_id
      ∷ codes " metric="
      ∷ or_empty r.metric
      ∷ codes " value="
      ∷ format_f2 r.value
      ∷ codes " unit="
      ∷ or_empty r.unit
      ∷ codes " ts="
      ∷ signed_decimal 64 r.timestamp_unix_ms
      ∷ codes " alert="
      ∷ one_or_zero r.alert
      ∷ codes " msg="
      ∷ or_empty r.alert_message
      ∷ []

  unfoldable pub reading_line : SensorReading → Bytes
  unfolding line reading_texts
  reading_line r = line (reading_texts r)

  -- The loop over the readings.
  unfoldable pub reading_lines : List SensorReading → Bytes
  unfolding reading_line
  reading_lines [] = []
  reading_lines (r ∷ rest) = reading_line r ++ reading_lines rest

  unfoldable pub print_response : ClientResponse → Bytes
  unfolding line status_text device_lines reading_lines
  print_response resp =
      let devices = line (codes "Dispositivos:" ∷ []) ++ device_lines resp.sensors in
      let value = line (codes "Valor: " ∷ format_f2 resp.metric_value ∷ []) in
      let history = line (codes "Historico:" ∷ []) ++ reading_lines resp.readings in
      (10 ∷ line (codes "[" ∷ status_text resp.status ∷ codes "] " ∷ or_empty resp.message ∷ []))
      ++ ((if ltb 0 (length resp.sensors) then devices else [])
          ++ ((if not (is_zero resp.metric_value) then value else [])
              ++ (if ltb 0 (length resp.readings) then history else [])))
