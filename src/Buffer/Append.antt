-- ===== src/Buffer/Append.antt =====
-- What a chain of appends leaves in the buffer, whatever the allocator answers.
use smartcity.Prelude.{
  ℕ, ◌+◌, ◌%◌, ◌^◌, ◌≤◌, ◌<◌, ◌≡◌, refl, sym, ap, subst, ◌∙◌, ◌⊎◌, inl, inr, Bool, true, false, [],
  ◌++◌, Bytes, length, length-append, append_assoc, append-nil, arith, leb, Bool-cases,
}
use smartcity.Outcome.{Outcome, ok, rejected, ◌>>=◌}
use smartcity.Buffer.{Buffer, grow_rounds, buffer_reserve, buffer_append, size_mod, first_cap}
use smartcity.Buffer.Growth.{grow_ends}

-- What is written lies within the capacity.
abbrev pub IsWithin : Buffer → Type 0
IsWithin b = length b.contents ≤ b.cap

-- The allocator refuses no request below 2 ^ 63 bytes.
abbrev pub Grants : (ℕ → Bool) → Type 0
Grants alloc = (n : ℕ) → n < 2 ^ 63 → alloc n ≡ true

module _ (alloc : ℕ → Bool) where
  -- The call wrote `bytes` behind what was there, or the allocator refused a request.
  pub data Appended (bytes : Bytes) (b : Buffer) : Outcome Buffer → Type 0 where
    written :
        {b' : Buffer} → b'.contents ≡ b.contents ++ bytes → IsWithin b' → Appended bytes b (ok b')
    refused : (n : ℕ) → n < 2 ^ 63 → alloc n ≡ false → Appended bytes b rejected

  -- `w` appends `bytes` to any buffer in which they keep the size up to 2 ^ 62.
  abbrev pub Writes : (Buffer → Outcome Buffer) → Bytes → Type 0
  Writes w bytes =
      (b : Buffer) → IsWithin b → length b.contents + length bytes ≤ 2 ^ 62 → Appended bytes b (w b)

  buffer_reserve-cases :
      (b : Buffer) (extra : ℕ)
      → length b.contents + extra ≤ 2 ^ 62
      → ((n : ℕ) × (n < 2 ^ 63) × (alloc n ≡ false) × (buffer_reserve alloc b extra ≡ rejected))
        ⊎ ((c : ℕ) × (buffer_reserve alloc b extra ≡ ok (record b { cap = c }))
            × (length b.contents + extra ≤ c))
  unfolding buffer_reserve first_cap
  buffer_reserve-cases b extra fits = elim (Bool-cases (leb needed b.cap)) [
    | inl enough ↦ inr (b.cap, rw enough, ground arith)
    | inr more ↦
        let (c, e, room, least) =
          grow_ends grow_rounds (first_cap b.cap) needed (ground arith) (omega arith)
            (ground arith) in
        elim (Bool-cases (alloc c)) [
          | inl granted ↦ inr (c, rw (more, e, granted), omega arith)
          | inr no_room ↦ inl (c, ground arith, no_room, rw (more, e, no_room))
        ]
  ]
    where
      needed : ℕ
      needed = (length b.contents + extra) % size_mod

  pub buffer_append-Writes : (bytes : Bytes) → Writes (λ b. buffer_append alloc b bytes) bytes
  unfolding buffer_append
  buffer_append-Writes bytes b within fits = elim (buffer_reserve-cases b (length bytes) fits) [
    | inl (n, small, no_room, e) ↦ rw e (refused n small no_room)
    | inr (c, e, room) ↦ rw e (written refl (rw length-append room))
  ]

  pub Writes-nil : Writes (λ b. ok b) []
  Writes-nil b within fits = written (sym (append-nil b.contents)) within

  Appended-then :
      {v : Buffer → Outcome Buffer} {xs ys : Bytes} {b : Buffer} {r : Outcome Buffer}
      → Writes v ys
      → length b.contents + length (xs ++ ys) ≤ 2 ^ 62
      → Appended xs b r
      → Appended (xs ++ ys) b (r >>= v)
  Appended-then {v} {xs} {ys} {b} w fits (written {b' = b'} e within) =
      extend (w b' within (rw e (rw length-append (omega (arith, length-append xs ys)))))
    where
      extend : {r : Outcome Buffer} → Appended ys b' r → Appended (xs ++ ys) b r
      extend (written e' within') =
          written (e' ∙ ap (λ t. t ++ ys) e ∙ append_assoc b.contents xs ys) within'
      extend (refused n small no_room) = refused n small no_room
  Appended-then w fits (refused n small no_room) = refused n small no_room

  -- One call after the other, with the early return between them.
  pub Writes-then :
      {w v : Buffer → Outcome Buffer} {xs ys : Bytes}
      → Writes w xs
      → Writes v ys
      → Writes (λ b. w b >>= v) (xs ++ ys)
  Writes-then {xs = xs} {ys = ys} first second b within fits =
      Appended-then second fits (first b within (omega (arith, length-append xs ys)))

  -- An allocator that never refuses: the call succeeds.
  pub Appended-total :
      {bytes : Bytes} {b : Buffer} {r : Outcome Buffer}
      → Grants alloc
      → Appended bytes b r
      → (b' : Buffer) × (r ≡ ok b') × (b'.contents ≡ b.contents ++ bytes)
  Appended-total grants (written {b' = b'} e within) = (b', refl, e)
  Appended-total grants (refused n small no_room) = cc (grants n small)

  -- A call that returned wrote the bytes.
  pub Appended-ok :
      {bytes : Bytes} {b b' : Buffer} {r : Outcome Buffer}
      → Appended bytes b r
      → r ≡ ok b'
      → b'.contents ≡ b.contents ++ bytes
  Appended-ok {bytes} {b} (written e within) same =
      subst
        (λ (r : Outcome Buffer). elim r [ ok c ↦ c.contents ≡ b.contents ++ bytes | _ ↦ Unit {0} ])
        same e
  Appended-ok (refused n small no_room) same = cc
