-- ===== src/Client/Messages.antt =====
-- Messages on the connection of 2_c/client.c: send_all, read_exact, send_msg and recv_msg. As in
-- Transport, `send` and `recv` are given, and a loop has a round for each byte.
use smartcity.Prelude.{
  ℕ, zero, suc, ◌+◌, ◌-◌, ◌*◌, ◌/◌, ◌%◌, ◌^◌, bit_and, bit_or, Bool, true, false, not, some, none,
  Option, [], ◌∷◌, ◌++◌, Bytes, length, drop, ltb, if◌then◌else◌,
}
use smartcity.Outcome.{Outcome, ok, fault, stuck, ◌>>=◌}
use smartcity.Buffer.{size_mod}
use smartcity.Transport.{Socket, to_int}

unfoldable pub buffer_append_u32_be : ℕ → Bytes
buffer_append_u32_be value =
    bit_and (value / 2 ^ 24) 0xff
    ∷ bit_and (value / 2 ^ 16) 0xff
    ∷ bit_and (value / 2 ^ 8) 0xff
    ∷ bit_and value 0xff
    ∷ []

-- The header of `recv_msg` as a number.
unfoldable pub header_len : Bytes → ℕ
header_len (a ∷ b ∷ c ∷ d ∷ rest) =
    bit_or (bit_or (bit_or (a * 2 ^ 24 % 2 ^ 32) (b * 2 ^ 16)) (c * 2 ^ 8)) d
header_len bytes = 0

module _ (alloc : ℕ → Bool) {S : Type 0} (sock : Socket S) where
  -- Behind `send` in a pass.
  unfoldable pub if_sent : (ℕ → S → Outcome (Bool × S)) → Option ℕ × S → Outcome (Bool × S)
  if_sent next (none, s) = ok (false, s)
  if_sent next (some chunk, s) = next chunk s

  unfoldable pub send_all_loop : ℕ → S → Bytes → ℕ → ℕ → Outcome (Bool × S)
  unfolding if_sent
  send_all_loop zero s mem size sent = if ltb sent size then stuck else ok (true, s)
  send_all_loop (suc rounds) s mem size sent =
      let next =
        λ (chunk : ℕ) (s' : S). send_all_loop rounds s' mem size ((sent + chunk) % size_mod) in
      if ltb sent size
      then if_sent next (sock.send s (drop sent mem) (to_int (size - sent)))
      else ok (true, s)

  unfoldable pub send_all : S → Bytes → ℕ → Outcome (Bool × S)
  unfolding send_all_loop
  send_all s mem size = send_all_loop size s mem size 0

  -- Behind `recv` in a pass, for which `room` bytes are left.
  unfoldable pub if_received :
      ℕ → (Bytes → S → Outcome (Option Bytes × S)) → Option Bytes × S → Outcome (Option Bytes × S)
  if_received room next (none, s) = ok (none, s)
  if_received room next (some chunk, s) = if ltb room (length chunk) then fault else next chunk s

  unfoldable pub read_loop : ℕ → S → ℕ → Bytes → Outcome (Option Bytes × S)
  unfolding if_received
  read_loop zero s size out = if ltb (length out) size then stuck else ok (some out, s)
  read_loop (suc rounds) s size out =
      let next = λ (chunk : Bytes) (s' : S). read_loop rounds s' size (out ++ chunk) in
      if ltb (length out) size
      then if_received (size - length out) next (sock.recv s (to_int (size - length out)))
      else ok (some out, s)

  unfoldable pub read_exact : S → ℕ → Outcome (Option Bytes × S)
  unfolding read_loop
  read_exact s size = read_loop size s size []

  unfoldable pub after_header : Bytes → ℕ → Bool × S → Outcome (Bool × S)
  unfolding send_all
  after_header payload payload_len (false, s) = ok (false, s)
  after_header payload payload_len (true, s) = send_all s payload payload_len

  unfoldable pub send_msg : S → Bytes → ℕ → Outcome (Bool × S)
  unfolding send_all after_header buffer_append_u32_be
  send_msg s payload payload_len =
      send_all s (buffer_append_u32_be payload_len) 4 >>= after_header payload payload_len

  unfoldable pub after_length : Option Bytes × S → Outcome (Option Bytes × S)
  unfolding read_exact header_len
  after_length (none, s) = ok (none, s)
  after_length (some header, s) =
      let len = header_len header in if not (alloc len) then ok (none, s) else read_exact s len

  unfoldable pub recv_msg : S → Outcome (Option Bytes × S)
  unfolding read_exact after_length
  recv_msg s = read_exact s 4 >>= after_length
