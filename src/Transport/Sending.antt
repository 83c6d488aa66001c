-- ===== src/Transport/Sending.antt =====
-- smart_send_all and smart_send_msg of 2_c/smartcity_common.c on an open connection.
use native.Mathlib.Numerals.{unary_clauses}
use smartcity.Prelude.{
  ℕ, zero, suc, ◌+◌, ◌-◌, ◌%◌, ◌^◌, ◌≤◌, ◌<◌, ◌≡◌, refl, sym, ap, ◌∙◌, true, false, some, [], ◌∷◌,
  ◌++◌, append-nil, append_assoc, Bytes, length, length-drop, take, take-all, drop, drop-drop, ltb,
  arith, Bool-cases, inl, inr, lt→ltb,
}
use smartcity.Outcome.{ok}
use smartcity.Buffer.{size_mod}
use smartcity.Transport.{
  Socket, then_payload, after_send, to_int, htonl, send_loop, smart_send_all, smart_send_msg,
}
use smartcity.Transport.Stream.{IsStream, length-htonl}

take-split : (k n : ℕ) (mem : Bytes) → k ≤ n → take n mem ≡ take k mem ++ take (n - k) (drop k mem)
take-split zero n mem h = let e : n - 0 ≡ n = omega arith in rw e
take-split (suc k) zero mem h = absurd (omega arith)
take-split (suc k) (suc n) [] h = none_left (suc n - suc k)
  where
    none_left : (m : ℕ) → ◌≡◌ {A = Bytes} [] (take m [])
    none_left zero = refl
    none_left (suc m) = refl
take-split (suc k) (suc n) (x ∷ mem) h =
    let e : suc n - suc k ≡ n - k = omega arith in
    rw e (ap (λ t. x ∷ t) (take-split k n mem (omega arith)))

module _ {S : Type 0} (sock : Socket S) (stream : IsStream sock) where
  open stream use {incoming, outgoing, sends, receives}

  -- One pass, and then the others.
  send_loop-pass :
      (rounds k : ℕ) (s s' : S) (mem : Bytes) (size sent : ℕ)
      → sent < size
      → size < 2 ^ 31
      → sock.send s (drop sent mem) (size - sent) ≡ (some k, s')
      → k ≤ size - sent
      → send_loop sock (suc rounds) s mem size sent ≡ send_loop sock rounds s' mem size (sent + k)
  send_loop-pass rounds k s s' mem size sent more small e within =
      let test : ltb sent size ≡ true = lt→ltb sent size more in
      let word : (size - sent) % 2 ^ 32 ≡ size - sent = omega arith in
      let e' : sock.send s (drop sent mem) (to_int (size - sent)) ≡ (some k, s') = rw word e in
      let next : (sent + k) % size_mod ≡ sent + k = omega arith in
      unfold send_loop in unfold after_send in rw (test, e', next)

  send_loop-over :
      (rounds : ℕ) (s : S) (mem : Bytes) (size sent : ℕ)
      → ltb sent size ≡ false
      → send_loop sock rounds s mem size sent ≡ ok (true, s)
  send_loop-over zero s mem size sent over = unfold send_loop in rw over
  send_loop-over (suc n) s mem size sent over = unfold send_loop in rw over

  -- What is left of the object goes out.
  Sent : ℕ → S → Bytes → ℕ → ℕ → Type 0
  Sent rounds s mem size sent =
      (s' : S) × (send_loop sock rounds s mem size sent ≡ ok (true, s'))
      × (outgoing s' ≡ outgoing s ++ take (size - sent) (drop sent mem))

  Sent-over :
      (rounds : ℕ) (s : S) (mem : Bytes) (size sent : ℕ)
      → ltb sent size ≡ false
      → Sent rounds s mem size sent
  unfolding Sent
  Sent-over rounds s mem size sent over =
      let nothing : size - sent ≡ 0 = ground arith in
      (s, send_loop-over rounds s mem size sent over, rw nothing (sym (append-nil (outgoing s))))

  -- A pass, when the others do their part.
  Sent-pass :
      (rounds k : ℕ) (s s1 : S) (mem : Bytes) (size sent : ℕ)
      → send_loop sock (suc rounds) s mem size sent ≡ send_loop sock rounds s1 mem size (sent + k)
      → outgoing s1 ≡ outgoing s ++ take k (drop sent mem)
      → k ≤ size - sent
      → Sent rounds s1 mem size (sent + k)
      → Sent (suc rounds) s mem size sent
  unfolding Sent
  Sent-pass rounds k s s1 mem size sent step now within (s', done, later) =
      let rest = take-split k (size - sent) (drop sent mem) within in
      let left : size - sent - k ≡ size - (sent + k) = omega arith in
      let further = drop-drop (sent + k) sent k mem refl in
      let whole : take k (drop sent mem) ++ take (size - (sent + k)) (drop k (drop sent mem))
          ≡ take (size - sent) (drop sent mem) =
        rw (sym left) (sym rest) in
      (s', step ∙ done, rw (later, now, further, sym whole) (append_assoc (outgoing s) _ _))

  send_loop-rest :
      (rounds : ℕ) (s : S) (mem : Bytes) (size sent : ℕ)
      → size < 2 ^ 31
      → size ≤ length mem
      → sent ≤ size
      → size ≤ rounds + sent
      → Sent rounds s mem size sent
  send_loop-rest zero s mem size sent small inside before enough =
      Sent-over zero s mem size sent (ground arith)
  send_loop-rest (suc rounds) s mem size sent small inside before enough =
      elim (Bool-cases (ltb sent size)) [
        | inr over ↦ Sent-over (suc rounds) s mem size sent over
        | inl more ↦
            let before' : sent < size = ground arith in
            let room : size - sent ≤ length (drop sent mem) =
              rw (length-drop sent mem) (omega arith) in
            let (k, s1, e, some_went, within, now) =
              sends s (drop sent mem) (size - sent) (omega arith) (omega arith) room in
            Sent-pass rounds k s s1 mem size sent
              (send_loop-pass rounds k s s1 mem size sent before' small e within) now within
              (send_loop-rest rounds s1 mem size (sent + k) small inside (omega arith)
                (omega arith))
      ]

  pub smart_send_all-whole :
      (s : S) (mem : Bytes) (size : ℕ)
      → size ≡ length mem
      → size < 2 ^ 31
      → (s' : S) × (smart_send_all sock s mem size ≡ ok (true, s'))
        × (outgoing s' ≡ outgoing s ++ mem)
  unfolding smart_send_all Sent
  smart_send_all-whole s mem size e small =
      let (s', done, out) =
        send_loop-rest size s mem size 0 small (omega arith) (omega arith) (omega arith) in
      (
        s',
        done,
        out ∙ ap (λ t. outgoing s ++ t) (simp unary_clauses (take-all size mem (omega arith))),
      )

  -- An open connection takes a whole message, behind its length.
  pub smart_send_msg-whole :
      (s : S) (payload : Bytes)
      → length payload < 2 ^ 31
      → (s' : S) × (smart_send_msg sock s payload (length payload) ≡ ok (true, s'))
        × (outgoing s' ≡ outgoing s ++ (htonl (length payload) ++ payload))
  unfolding smart_send_msg then_payload
  smart_send_msg-whole s payload small =
      let (s1, head, front) =
        smart_send_all-whole s (htonl (length payload)) 4 (sym (length-htonl (length payload)))
          (omega arith) in
      let (s2, body, back) = smart_send_all-whole s1 payload (length payload) refl small in
      (
        s2,
        rw head body,
        back
            ∙ (ap (λ t. t ++ payload) front
                ∙ append_assoc (outgoing s) (htonl (length payload)) payload),
      )
