-- ===== src/Transport.antt =====
-- Messages on a TCP connection: smart_send_all, smart_recv_exact, smart_send_msg and smart_recv_msg of
-- 2_c/smartcity_common.c. The calls `send` and `recv` of the operating system are given, as functions
-- on the state `S` of the connection.
pub mod Stream
pub mod Sending
pub mod Receiving
pub mod Delivery
pub mod Duplex
use smartcity.Prelude.{
  ℕ, zero, suc, ◌+◌, ◌-◌, ◌*◌, ◌/◌, ◌%◌, ◌^◌, Bool, true, false, not, some, none, Option, [], ◌∷◌,
  ◌++◌, Bytes, length, drop, ltb, if◌then◌else◌,
}
use smartcity.Outcome.{Outcome, ok, rejected, fault, stuck, ◌>>=◌}
use smartcity.Buffer.{size_mod}

-- `send` is given the bytes from its pointer on and how many of them are to go out, and `recv` how
-- many may come in, both as the bits of an `int`. They return how many went out and which came in;
-- none stands for a result of 0 or less.
pub record Socket (S : Type 0) : Type 0 where
  pub send : S → Bytes → ℕ → Option ℕ × S
  pub recv : S → ℕ → Option Bytes × S

-- `(int)n`
abbrev pub to_int : ℕ → ℕ
to_int n = n % 2 ^ 32

-- The four bytes of `htonl`, in the order in which they lie in memory.
unfoldable pub htonl : ℕ → Bytes
htonl n = n / 2 ^ 24 % 256 ∷ n / 2 ^ 16 % 256 ∷ n / 2 ^ 8 % 256 ∷ n % 256 ∷ []

unfoldable pub ntohl : Bytes → ℕ
ntohl [] = 0
ntohl (b ∷ bs) = b * 256 ^ length bs + ntohl bs

module _ {S : Type 0} (sock : Socket S) where
  -- What a pass does with the result of `send`: `if (n <= 0) { return false; }`, or the next pass.
  unfoldable pub after_send : (ℕ → S → Outcome (Bool × S)) → Option ℕ × S → Outcome (Bool × S)
  after_send rest (none, s') = ok (false, s')
  after_send rest (some chunk, s') = rest chunk s'

  -- The loop of `smart_send_all`, over `sent`; `false` is `return false`.
  unfoldable pub send_loop : ℕ → S → Bytes → ℕ → ℕ → Outcome (Bool × S)
  unfolding after_send
  send_loop zero s mem size sent = if ltb sent size then stuck else ok (true, s)
  send_loop (suc rounds) s mem size sent =
      let rest = send_loop rounds in
      if ltb sent size
      then after_send (λ chunk s'. rest s' mem size ((sent + chunk) % size_mod))
          (sock.send s (drop sent mem) (to_int (size - sent)))
      else ok (true, s)

  unfoldable pub smart_send_all : S → Bytes → ℕ → Outcome (Bool × S)
  unfolding send_loop
  smart_send_all s mem size = send_loop size s mem size 0

  -- What a pass does with the result of `recv`, for which `room` bytes are left; a chunk that is
  -- longer than that would be written behind the object.
  unfoldable pub after_recv :
      ℕ → (Bytes → S → Outcome (Option Bytes × S)) → Option Bytes × S → Outcome (Option Bytes × S)
  after_recv room rest (none, s') = ok (none, s')
  after_recv room rest (some chunk, s') = if ltb room (length chunk) then fault else rest chunk s'

  -- The loop of `smart_recv_exact`, over the bytes that were received.
  unfoldable pub recv_loop : ℕ → S → ℕ → Bytes → Outcome (Option Bytes × S)
  unfolding after_recv
  recv_loop zero s size out = if ltb (length out) size then stuck else ok (some out, s)
  recv_loop (suc rounds) s size out =
      let rest = recv_loop rounds in
      if ltb (length out) size
      then after_recv (size - length out) (λ chunk s'. rest s' size (out ++ chunk))
          (sock.recv s (to_int (size - length out)))
      else ok (some out, s)

  unfoldable pub smart_recv_exact : S → ℕ → Outcome (Option Bytes × S)
  unfolding recv_loop
  smart_recv_exact s size = recv_loop size s size []

  unfoldable pub then_payload : Bytes → ℕ → Bool × S → Outcome (Bool × S)
  unfolding smart_send_all
  then_payload payload payload_len (false, s) = ok (false, s)
  then_payload payload payload_len (true, s) = smart_send_all s payload payload_len

  unfoldable pub smart_send_msg : S → Bytes → ℕ → Outcome (Bool × S)
  unfolding smart_send_all htonl then_payload
  smart_send_msg s payload payload_len =
      smart_send_all s (htonl payload_len) 4 >>= then_payload payload payload_len

  -- The length that came in, `malloc` and the payload; none is `return false`.
  unfoldable pub then_message : (ℕ → Bool) → Option Bytes × S → Outcome (Option Bytes × S)
  unfolding smart_recv_exact ntohl
  then_message alloc (none, s) = ok (none, s)
  then_message alloc (some bytes, s) =
      let len = ntohl bytes in if not (alloc len) then ok (none, s) else smart_recv_exact s len

  unfoldable pub smart_recv_msg : (ℕ → Bool) → S → Outcome (Option Bytes × S)
  unfolding smart_recv_exact then_message
  smart_recv_msg alloc s = smart_recv_exact s 4 >>= then_message alloc
