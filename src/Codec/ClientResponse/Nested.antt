-- ===== src/Codec/ClientResponse/Nested.antt =====
-- Nested messages: what one writes into a buffer, and what the loop does when it comes to one.
use smartcity.Prelude.{
  ℕ, ◌+◌, ◌^◌, ◌≤◌, ◌<◌, ◌≡◌, ◌∙◌, Bool, List, [], ◌∷◌, ◌++◌, append_assoc, Bytes, length,
  length-append, arith,
}
use smartcity.Outcome.{Outcome, ok, ◌>>=◌}
use smartcity.Buffer.{Buffer, smart_buffer_init, buffer_append}
use smartcity.Buffer.Append.{Writes, Writes-then, Appended, written, refused, buffer_append-Writes}
use smartcity.Encode.{buffer_append_key, buffer_append_varint}
use smartcity.Encode.Shape.{varint_bytes, key_of, varint-Writes}
use smartcity.Decode.{Switch}
use smartcity.Decode.Varint.{At, At-advance, IsKey, read_length_delimited-At}
use smartcity.Decode.Fields.{Consumes, field-Consumes}
use smartcity.Codec.ClientResponse.{append_nested, nested_case}

unfoldable pub nested_bytes : ℕ → Bytes → Bytes
nested_bytes field_number body =
    varint_bytes (key_of field_number 2) ++ (varint_bytes (length body) ++ body)

-- The bytes of a list of nested messages.
unfoldable pub all_nested {ℓ} : {A : Type ℓ} → ℕ → (A → Bytes) → List A → Bytes
unfolding nested_bytes
all_nested n bytes [] = []
all_nested n bytes (x ∷ xs) = nested_bytes n (bytes x) ++ all_nested n bytes xs

module _ (alloc : ℕ → Bool) where
  pub nested-Writes :
      (n : ℕ) {w : Buffer → Outcome Buffer} {body : Bytes}
      → key_of n 2 < 2 ^ 64
      → Writes alloc w body
      → Writes alloc (append_nested alloc n w) (nested_bytes n body)
  unfolding append_nested nested_bytes buffer_append_key smart_buffer_init
  nested-Writes n {w} {body} word inner b within fits =
      after (inner smart_buffer_init (omega arith) (omega (arith, sizes)))
    where
      sizes : length body ≤ length (nested_bytes n body)
      sizes = omega (
        arith,
        length-append (varint_bytes (key_of n 2)) (varint_bytes (length body) ++ body),
        length-append (varint_bytes (length body)) body,
      )

      after :
          {r : Outcome Buffer}
          → Appended alloc body smart_buffer_init r
          → Appended alloc (varint_bytes (key_of n 2) ++ (varint_bytes (length body) ++ body)) b (
              r >>= λ nested. buffer_append_key alloc b n 2 >>= λ b₁.
              buffer_append_varint alloc b₁ (length nested.contents) >>= λ b₂.
              buffer_append alloc b₂ nested.contents)
      after (written {b' = nested} e _) = rw e (
          Writes-then alloc (varint-Writes alloc (key_of n 2) word)
            (λ b' within' fits'.
              Writes-then alloc (varint-Writes alloc (length body) (omega (arith, sizes)))
                (buffer_append-Writes alloc body) b' within' fits')
            b within fits)
      after (refused k small no_room) = refused k small no_room

module _ {ℓ κ} {S : Type ℓ} {A : Type κ} (alloc : ℕ → Bool) (switch : Switch S) where
  -- One nested message: its parser returns the message as it arrives, and the item is appended.
  pub nested-Consumes :
      (n : ℕ) (body : Bytes) (x : A) (parse : Bytes → ℕ → Outcome A) (append : A → S → Outcome S)
      (store : A → S → S)
      → IsKey n 2
      → ((tail : Bytes) → length body < 2 ^ 62 → parse (body ++ tail) (length body) ≡ ok x)
      → ((mem : Bytes) (len pos : ℕ) (state : S)
          → switch n 2 mem len pos state
            ≡ nested_case alloc parse (λ y. append y state) 2 mem len pos)
      → ((state : S) → append x state ≡ ok (store x state))
      → Consumes switch (nested_bytes n body) (store x)
  unfolding nested_bytes nested_case
  nested-Consumes n body x parse append store key parses is_case appends =
      field-Consumes switch n 2 (size ++ body) (store x) key
        λ mem len pos rest tail state here small.
          let here' : At mem len pos (size ++ (body ++ rest)) tail =
            rw (append_assoc size body rest) at here in
          let ends : pos + length size + length body ≡ pos + length (size ++ body) =
            omega (arith, length-append size body) in
          let (slice, _) = At-advance mem len pos size (body ++ rest) tail here' in
          is_case mem len pos state
          ∙ rw (
            read_length_delimited-At body mem len pos rest tail small here',
            slice,
            append_assoc,
            parses (rest ++ tail) (
                omega (arith, here'.1, length-append size (body ++ rest), length-append body rest)),
            appends state,
            ends,
          )
    where
      size : Bytes
      size = varint_bytes (length body)
