-- ===== src/Tests/Line.antt =====
-- A connection of the tests that takes all it is given and brings a byte at a time. Behind the second
-- part of a message, which follows the header, the reply is to come.
use smartcity.Prelude.{
  ℕ, ◌^◌, ◌<◌, ◌≤◌, ◌≡◌, refl, true, Bool, some, none, Option, [], ◌∷◌, ◌++◌, Bytes, length, take,
  arith,
}
use smartcity.Outcome.{Outcome, ok}
use smartcity.Transport.{Socket}
use smartcity.Transport.Stream.{IsStream}

abbrev pub to_come : Bytes → Bytes → Bytes → Bytes
to_come reply incoming [] = incoming
to_come reply incoming (b ∷ out) = reply

abbrev pub line_recv : Bytes × Bytes → ℕ → Option Bytes × (Bytes × Bytes)
line_recv ([], out) n = (none, ([], out))
line_recv (b ∷ rest, out) n = (some (b ∷ []), (rest, out))

abbrev pub line_send : Bytes → Bytes × Bytes → Bytes → ℕ → Option ℕ × (Bytes × Bytes)
line_send reply (incoming, out) mem n = (some n, (to_come reply incoming out, out ++ take n mem))

abbrev pub line : Bytes → Socket (Bytes × Bytes)
line reply = record { send = line_send reply; recv = line_recv }

pub line_receives :
    (reply : Bytes) (s : Bytes × Bytes) (n : ℕ)
    → 0 < n
    → n < 2 ^ 31
    → n ≤ length s.0
    → (chunk : Bytes) × (s' : Bytes × Bytes) × ((line reply).recv s n ≡ (some chunk, s'))
      × (0 < length chunk)
      × (length chunk ≤ n)
      × (s.0 ≡ chunk ++ s'.0)
line_receives reply ([], out) n some_asked small there = absurd (omega arith)
line_receives reply (b ∷ rest, out) n some_asked small there =
    (b ∷ [], (rest, out), refl, omega arith, omega arith, refl)

abbrev pub line_stream : (reply : Bytes) → IsStream (line reply)
line_stream reply = record {
  incoming = λ s. s.0;
  outgoing = λ s. s.1;
  receives = line_receives reply;
  sends = λ s mem n some_given small inside.
      (n, (to_come reply s.0 s.1, s.1 ++ take n mem), refl, some_given, omega arith, refl);
}

pub same_state :
    {o : Outcome (Bool × (Bytes × Bytes))} {p q : Bytes × Bytes}
    → o ≡ ok (true, p)
    → o ≡ ok (true, q)
    → p ≡ q
same_state e e' = cc
