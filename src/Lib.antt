-- ===== src/Lib.antt =====
-- The smart city processes of 2_c/, under verification: a gateway, three actuators, two sensors, a
-- terminal client, and the messages that they exchange. Sensors and actuators announce themselves to
-- the gateway by UDP, and sensors send it readings; clients ask the gateway by TCP, and it passes their
-- commands on to the actuators by TCP.
--
-- The parts and their files. Paths are from the repository's root.
--   Prelude, Outcome        shared notation, tests, lists, bits; `Outcome` is what a C call that
--                           returns bool did: ok, rejected (`return false`), fault (an access outside
--                           an object), stuck (a loop that used up its rounds).
--   Double                  `double` of C as its bit pattern, with `<`, `<=` and `== 0`. Sums,
--                           quotients and printing are a parameter, the record `Arithmetic`.
--   Buffer, Encode          SmartBuffer and the buffer_append functions of 2_c/smartcity_common.c.
--                           Buffer/Append and Encode/Shape say what bytes each call writes.
--   Decode                  read_varint to skip_field, smart_dup_slice, the cases of the switches
--                           and the loop over fields, of the same file. A reader is given the memory
--                           from its pointer on and the claimed length. Decode/Varint, Fields and
--                           Stores are what the readers do on the bytes of the writers, and
--                           Decode/Diverge what they do on a length that wraps around.
--                           Decode/Safety follows the cursor on any bytes.
--   Message, Codec          the structs and enums of 2_c/smartcity_common.h, and a module for each
--                           message with its writer and reader; its child RoundTrip is the theorem.
--                           Codec/Safety is about the parsers on any bytes, Codec/SensorReading/Overrun
--                           about one length on which the allocator decides.
--   CString                 smart_dup_cstring, and comparisons with literals.
--   Gateway                 the tables of 2_c/gateway.c and the functions that change them (find_sensor,
--                           append_sensor_copy, append_reading_copy, update_sensor,
--                           update_last_seen_for_reading, the critical section of udp_server_thread).
--                           Gateway/Queries has the answers that are computed from them, and
--                           Gateway/Command send_control_command, process_client_request and a pass of
--                           client_thread. Registry, Readings, Answers and Control are theorems.
--   Gateway/Events          the critical sections that write the tables as events, in the order in
--                           which the threads take the lock. Its children compare a sequence of them
--                           with an abstract gateway, and requests with such sequences.
--   Gateway/Threads         what udp_server_thread and discovery_response_thread do with a datagram,
--                           and a pass of discovery_loop_thread. Its children follow datagrams
--                           from the sender into the tables. Gateway/Threads/Datagrams has the loops
--                           of the two threads on a sequence of datagrams, and
--                           Gateway/Threads/Clients is client_thread, from the first message of a
--                           connection to its end.
--   Csv                     safe_filename, csv_quote_string and persist_reading_csv of 2_c/gateway.c;
--                           Csv/Reading has a reader of CSV for the rows.
--   Clock                   smart_iso_utc_timestamp and smart_unix_time_ms of 2_c/smartcity_common.c, and
--                           iso_timestamp of 2_c/gateway.c.
--   Sensor                  what 2_c/sensor_temperature.c and 2_c/sensor_air_quality.c share, and a
--                           module for the readings of each.
--   Transport               smart_send_all to smart_recv_msg of 2_c/smartcity_common.c, on a
--                           connection whose `send` and `recv` are given; Transport/Stream says what
--                           an open stream socket promises, and Transport/Duplex that its two
--                           directions do not mix.
--   Client                  2_c/client.c: Input has the lines and numbers that the user types, Menu
--                           build_request, and Session a pass of the loop of main. Writer, Reader,
--                           Response and Messages are the client's own copies of writers, readers,
--                           parsers and of the messages on the connection; Copies compares them with
--                           the originals. Screen is what show_menu and print_response print.
--                           Conversation puts the gateway at the other end.
--   Actuator                a pass of the control and of the discovery loop, and a module for each of
--                           2_c/actuator_traffic_light.c, 2_c/actuator_camera.c and
--                           2_c/actuator_street_light.c with its state and handle_command; the child
--                           Safety has what holds in every reachable state.
--   Tests                   the theorems at concrete inputs.
--
-- Pointers that may be NULL are options of byte strings without their NUL. An array with its count is
-- a list. `int` enums and uint32_t are numbers below 2 ^ 32, size_t wraps at 2 ^ 64. A function that a
-- lock protects is one step; send_control_command has two, and takes what other threads do between
-- them as the parameter `meanwhile`. The allocator is a function from the size of a request to
-- whether it is granted, the same throughout a call; the clock is the parameter `now`.
--
-- Rounds: buffer_append_varint is given ten rounds, the capacity loop sixty-four doublings, read_varint
-- the ten of the bound on its shift, and a loop over fields as many as the bytes that it is to read:
-- each field that a writer makes takes at least one.
--
-- smart_send_all and smart_recv_exact have a round for each byte, since a call that succeeds moves one
-- or more.
--
-- Not modelled: opening sockets and files, threads and the reading of the clock, which are calls of the
-- operating system; releasing memory; what the processes print about themselves; and 1_python, which is
-- the same system in another language. `strtod` is a parameter.
pub mod Prelude
pub mod Outcome
pub mod Buffer
pub mod Double
pub mod Encode
pub mod Decode
pub mod Message
pub mod CString
pub mod Transport
pub mod Client
pub mod Csv
pub mod Clock
pub mod Gateway
pub mod Actuator
pub mod Sensor
pub mod Codec
pub mod Tests
