-- ===== src/Transport/Receiving.antt =====
-- smart_recv_exact and smart_recv_msg of 2_c/smartcity_common.c on an open connection.
use smartcity.Prelude.{
  ℕ, zero, suc, ◌+◌, ◌-◌, ◌%◌, ◌^◌, ◌≤◌, ◌<◌, ◌≡◌, refl, sym, ap, ◌∙◌, Bool, true, some, [], ◌∷◌,
  ◌++◌, append-nil, append_assoc, Bytes, length, length-append, length-drop, drop, ltb, arith,
  lt→ltb, le→ltb,
}
use smartcity.Outcome.{ok}
use smartcity.Transport.{
  Socket, then_message, after_recv, to_int, htonl, recv_loop, smart_recv_exact, smart_recv_msg,
}
use smartcity.Transport.Stream.{IsStream, ntohl-htonl, length-htonl}

-- A first part of a list that is cut in two ways.
prefix_split :
    (chunk rest want later : Bytes)
    → chunk ++ rest ≡ want ++ later
    → length chunk ≤ length want
    → (want ≡ chunk ++ drop (length chunk) want) × (rest ≡ drop (length chunk) want ++ later)
prefix_split [] rest want later e h = (refl, e)
prefix_split (c ∷ chunk) rest [] later e h = absurd (omega arith)
prefix_split (c ∷ chunk) rest (w ∷ want) later e h =
    let head : c ≡ w = cc in
    let tail : chunk ++ rest ≡ want ++ later = cc in
    let (front, back) = prefix_split chunk rest want later tail (omega arith) in
    (rw head (ap (λ t. w ∷ t) front), back)

module _ {S : Type 0} (sock : Socket S) (stream : IsStream sock) where
  open stream use {incoming, outgoing, sends, receives}

  -- The bytes that are asked for come in.
  Received : ℕ → S → ℕ → Bytes → Bytes → Bytes → Type 0
  Received rounds s size out want later =
      (s' : S) × (recv_loop sock rounds s size out ≡ ok (some (out ++ want), s'))
      × (incoming s' ≡ later)

  recv_loop-over :
      (rounds : ℕ) (s : S) (size : ℕ) (out : Bytes)
      → size ≡ length out
      → recv_loop sock rounds s size out ≡ ok (some out, s)
  recv_loop-over zero s size out e = unfold recv_loop in rw (le→ltb (length out) size (omega arith))
  recv_loop-over (suc n) s size out e =
      unfold recv_loop in rw (le→ltb (length out) size (omega arith))

  recv_loop-pass :
      (rounds : ℕ) (s s' : S) (size : ℕ) (out chunk : Bytes)
      → length out < size
      → size < 2 ^ 31
      → sock.recv s (size - length out) ≡ (some chunk, s')
      → length chunk ≤ size - length out
      → recv_loop sock (suc rounds) s size out ≡ recv_loop sock rounds s' size (out ++ chunk)
  recv_loop-pass rounds s s' size out chunk more small e within =
      let test : ltb (length out) size ≡ true = lt→ltb (length out) size more in
      let word : (size - length out) % 2 ^ 32 ≡ size - length out = omega arith in
      let e' : sock.recv s (to_int (size - length out)) ≡ (some chunk, s') = rw word e in
      let fits = le→ltb (size - length out) (length chunk) within in
      unfold recv_loop in unfold after_recv in rw (test, e', fits)

  -- A pass, when the others do their part.
  Received-pass :
      (rounds size : ℕ) (s s1 : S) (out chunk want others later : Bytes)
      → recv_loop sock (suc rounds) s size out ≡ recv_loop sock rounds s1 size (out ++ chunk)
      → want ≡ chunk ++ others
      → Received rounds s1 size (out ++ chunk) others later
      → Received (suc rounds) s size out want later
  unfolding Received
  Received-pass rounds size s s1 out chunk want others later step front (s', done, after) =
      let whole : (out ++ chunk) ++ others ≡ out ++ want =
        rw front (append_assoc out chunk others) in
      (s', step ∙ (done ∙ ap (λ t. ok (some t, s')) whole), after)

  -- What is still to come after a chunk.
  remainder :
      (size : ℕ) (out chunk want : Bytes)
      → size ≡ length out + length want
      → length chunk ≤ length want
      → size ≡ length (out ++ chunk) + length (drop (length chunk) want)
  remainder size out chunk want total within =
      rw (length-append out chunk, length-drop (length chunk) want) (omega arith)

  shorter :
      (rounds : ℕ) (chunk want : Bytes)
      → length want ≤ suc rounds
      → 0 < length chunk
      → length (drop (length chunk) want) ≤ rounds
  shorter rounds chunk want enough some_came = rw (length-drop (length chunk) want) (omega arith)

  recv_loop-rest :
      (rounds : ℕ) (s : S) (size : ℕ) (out want later : Bytes)
      → size < 2 ^ 31
      → size ≡ length out + length want
      → length want ≤ rounds
      → incoming s ≡ want ++ later
      → Received rounds s size out want later
  recv_loop-rest rounds s size out [] later small total enough e =
      unfold Received in
      (
        s,
        recv_loop-over rounds s size out (omega arith)
            ∙ ap (λ t. ok (some t, s)) (sym (append-nil out)),
        e,
      )
  recv_loop-rest zero s size out (w ∷ want) later small total enough e = absurd (omega arith)
  recv_loop-rest (suc rounds) s size out (w ∷ want) later small total enough e =
      let there : size - length out ≤ length (incoming s) =
        rw (e, length-append (w ∷ want) later) (omega arith) in
      let (chunk, s1, came, some_came, within, split) =
        receives s (size - length out) (omega arith) (omega arith) there in
      let (front, back) =
        prefix_split chunk (incoming s1) (w ∷ want) later (sym split ∙ e) (omega arith) in
      Received-pass rounds size s s1 out chunk (w ∷ want) (drop (length chunk) (w ∷ want)) later
        (recv_loop-pass rounds s s1 size out chunk (omega arith) small came within) front
        (recv_loop-rest rounds s1 size (out ++ chunk) (drop (length chunk) (w ∷ want)) later small
          (remainder size out chunk (w ∷ want) total (omega arith))
          (shorter rounds chunk (w ∷ want) enough some_came) back)

  pub smart_recv_exact-whole :
      (s : S) (size : ℕ) (want later : Bytes)
      → size ≡ length want
      → size < 2 ^ 31
      → incoming s ≡ want ++ later
      → (s' : S) × (smart_recv_exact sock s size ≡ ok (some want, s')) × (incoming s' ≡ later)
  unfolding smart_recv_exact Received
  smart_recv_exact-whole s size want later e small there =
      recv_loop-rest size s size [] want later small (omega arith) (omega arith) there

  -- A message that is to come is received whole, and the bytes behind it stay.
  pub smart_recv_msg-whole :
      (alloc : ℕ → Bool) (s : S) (payload later : Bytes)
      → length payload < 2 ^ 31
      → alloc (length payload) ≡ true
      → incoming s ≡ (htonl (length payload) ++ payload) ++ later
      → (s' : S) × (smart_recv_msg sock alloc s ≡ ok (some payload, s')) × (incoming s' ≡ later)
  unfolding smart_recv_msg then_message
  smart_recv_msg-whole alloc s payload later small granted e =
      let there = e ∙ append_assoc (htonl (length payload)) payload later in
      let (s1, head, front) =
        smart_recv_exact-whole s 4 (htonl (length payload)) (payload ++ later)
          (sym (length-htonl (length payload))) (omega arith) there in
      let (s2, body, back) =
        smart_recv_exact-whole s1 (length payload) payload later refl small front in
      let len = ntohl-htonl (length payload) (omega arith) in
      (s2, rw (head, len, granted) body, back)
