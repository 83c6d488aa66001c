-- ===== src/Client/Framing.antt =====
-- send_msg and recv_msg of 2_c/client.c on an open connection: the header that the client writes out
-- byte by byte is that of htonl.
use smartcity.Prelude.{
  ℕ, zero, suc, ◌-◌, ltb, drop, none, Option, [], if◌then◌else◌, ◌+◌, ◌*◌, ◌/◌, ◌%◌, ◌^◌, ◌<◌, ◌≡◌,
  refl, sym, ap, ◌∙◌, bit_or, Bool, true, some, ◌++◌, append_assoc, Bytes, length, arith,
}
use smartcity.Prelude.Bits.{and_255, shifted_or}
use smartcity.Outcome.{Outcome, ok, fault}
use smartcity.Buffer.{size_mod}
use smartcity.Transport.{
  Socket, htonl, to_int, after_send, send_loop, smart_send_all, after_recv, recv_loop,
  smart_recv_exact,
}
use smartcity.Transport.Stream.{IsStream, length-htonl}
use smartcity.Transport.Sending.{smart_send_all-whole}
use smartcity.Transport.Receiving.{smart_recv_exact-whole}
use smartcity.Client.Messages.{
  if_sent, send_all_loop, if_received, read_loop, buffer_append_u32_be, header_len, send_all,
  read_exact, after_header, send_msg, after_length, recv_msg,
}

pub buffer_append_u32_be-htonl : (n : ℕ) → buffer_append_u32_be n ≡ htonl n
unfolding buffer_append_u32_be htonl
buffer_append_u32_be-htonl n =
    rw (and_255 (n / 2 ^ 24), and_255 (n / 2 ^ 16), and_255 (n / 2 ^ 8), and_255 n)

-- Four bytes from the highest on.
joined :
    (a b c d : ℕ)
    → a < 256
    → b < 256
    → c < 256
    → d < 256
    → bit_or (bit_or (bit_or (a * 2 ^ 24 % 2 ^ 32) (b * 2 ^ 16)) (c * 2 ^ 8)) d
      ≡ a * 2 ^ 24 + b * 2 ^ 16 + c * 2 ^ 8 + d
joined a b c d ha hb hc hd =
    let fits : a * 2 ^ 24 % 2 ^ 32 ≡ a * 2 ^ 24 = omega arith in
    let two : bit_or (a * 2 ^ 24) (b * 2 ^ 16) ≡ (a * 256 + b) * 2 ^ 16 =
      omega (arith, shifted_or 24 (b * 2 ^ 16) a (omega arith)) in
    let three : bit_or ((a * 256 + b) * 2 ^ 16) (c * 2 ^ 8) ≡ (a * 65536 + b * 256 + c) * 2 ^ 8 =
      omega (arith, shifted_or 16 (c * 2 ^ 8) (a * 256 + b) (omega arith)) in
    let four : bit_or ((a * 65536 + b * 256 + c) * 2 ^ 8) d
        ≡ a * 2 ^ 24 + b * 2 ^ 16 + c * 2 ^ 8 + d =
      omega (arith, shifted_or 8 d (a * 65536 + b * 256 + c) (omega arith)) in
    rw (fits, two, three) four

header_len-htonl : (n : ℕ) → n < 2 ^ 32 → header_len (htonl n) ≡ n
unfolding header_len htonl
header_len-htonl n h =
    joined (n / 2 ^ 24 % 256) (n / 2 ^ 16 % 256) (n / 2 ^ 8 % 256) (n % 256) (omega arith)
      (omega arith) (omega arith) (omega arith)
    ∙ omega arith

module _ (alloc : ℕ → Bool) {S : Type 0} (sock : Socket S) where
  if_sent-same :
      (next next' : ℕ → S → Outcome (Bool × S)) (t : Option ℕ × S)
      → ((chunk : ℕ) (s : S) → next chunk s ≡ next' chunk s)
      → if_sent alloc sock next t ≡ after_send sock next' t
  unfolding if_sent after_send
  if_sent-same next next' (none, s) h = refl
  if_sent-same next next' (some chunk, s) h = h chunk s

  send_loop-same :
      (rounds : ℕ) (s : S) (mem : Bytes) (size sent : ℕ)
      → send_all_loop alloc sock rounds s mem size sent ≡ send_loop sock rounds s mem size sent
  unfolding send_all_loop send_loop
  send_loop-same zero s mem size sent = refl
  send_loop-same (suc rounds) s mem size sent =
      ap (λ pass. if ltb sent size then pass else ok (true, s))
        (if_sent-same _ _ (sock.send s (drop sent mem) (to_int (size - sent)))
          (λ chunk s'. send_loop-same rounds s' mem size ((sent + chunk) % size_mod)))

  pub send_all-same :
      (s : S) (mem : Bytes) (size : ℕ)
      → send_all alloc sock s mem size ≡ smart_send_all sock s mem size
  unfolding send_all smart_send_all
  send_all-same s mem size = send_loop-same size s mem size 0

  if_received-same :
      (room : ℕ) (next next' : Bytes → S → Outcome (Option Bytes × S)) (t : Option Bytes × S)
      → ((chunk : Bytes) (s : S) → next chunk s ≡ next' chunk s)
      → if_received alloc sock room next t ≡ after_recv sock room next' t
  unfolding if_received after_recv
  if_received-same room next next' (none, s) h = refl
  if_received-same room next next' (some chunk, s) h =
      ap (λ pass. if ltb room (length chunk) then fault else pass) (h chunk s)

  read_loop-same :
      (rounds : ℕ) (s : S) (size : ℕ) (out : Bytes)
      → read_loop alloc sock rounds s size out ≡ recv_loop sock rounds s size out
  unfolding read_loop recv_loop
  read_loop-same zero s size out = refl
  read_loop-same (suc rounds) s size out =
      ap (λ pass. if ltb (length out) size then pass else ok (some out, s))
        (if_received-same (size - length out) _ _ (sock.recv s (to_int (size - length out)))
          (λ chunk s'. read_loop-same rounds s' size (out ++ chunk)))

  read_exact-same : (s : S) (size : ℕ) → read_exact alloc sock s size ≡ smart_recv_exact sock s size
  unfolding read_exact smart_recv_exact
  read_exact-same s size = read_loop-same size s size []

module _ (alloc : ℕ → Bool) {S : Type 0} (sock : Socket S) (stream : IsStream sock) where
  open stream use {incoming, outgoing}

  -- An open connection takes a whole message, behind its length.
  pub send_msg-whole :
      (s : S) (payload : Bytes)
      → length payload < 2 ^ 31
      → (s' : S) × (send_msg alloc sock s payload (length payload) ≡ ok (true, s'))
        × (outgoing s' ≡ outgoing s ++ (htonl (length payload) ++ payload))
  unfolding send_msg after_header
  send_msg-whole s payload small =
      let n = length payload in
      let (s1, head, front) =
        smart_send_all-whole sock stream s (htonl n) 4 (sym (length-htonl n)) (omega arith) in
      let (s2, body, back) = smart_send_all-whole sock stream s1 payload n refl small in
      (
        s2,
        rw (buffer_append_u32_be-htonl n, send_all-same alloc sock s (htonl n) 4, head)
            (send_all-same alloc sock s1 payload n ∙ body),
        back ∙ (ap (λ t. t ++ payload) front ∙ append_assoc (outgoing s) (htonl n) payload),
      )

  -- A message that is to come is received whole, and the bytes behind it stay.
  pub recv_msg-whole :
      (s : S) (payload later : Bytes)
      → length payload < 2 ^ 31
      → alloc (length payload) ≡ true
      → incoming s ≡ (htonl (length payload) ++ payload) ++ later
      → (s' : S) × (recv_msg alloc sock s ≡ ok (some payload, s')) × (incoming s' ≡ later)
  unfolding recv_msg after_length
  recv_msg-whole s payload later small granted e =
      let n = length payload in
      let there = e ∙ append_assoc (htonl n) payload later in
      let (s1, head, front) =
        smart_recv_exact-whole sock stream s 4 (htonl n) (payload ++ later) (sym (length-htonl n))
          (omega arith) there in
      let (s2, body, back) =
        smart_recv_exact-whole sock stream s1 n payload later refl small front in
      let len = header_len-htonl n (omega arith) in
      (
        s2,
        rw (read_exact-same alloc sock s 4, head, len, granted)
            (read_exact-same alloc sock s1 n ∙ body),
        back,
      )
