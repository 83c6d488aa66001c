-- ===== src/Buffer.antt =====
-- The growing output buffer of 2_c/smartcity_common.c: SmartBuffer, buffer_reserve, buffer_append
-- and smart_buffer_init. `len` is the length of the bytes written. `alloc n` says whether the C
-- library grants a request for `n` bytes.
pub mod Growth
pub mod Append
use smartcity.Prelude.{
  ℕ, zero, suc, ◌+◌, ◌*◌, ◌%◌, ◌^◌, Bool, [], ◌∷◌, ◌++◌, Bytes, length, ltb, leb, ◌==◌,
  if◌then◌else◌,
}
use smartcity.Outcome.{Outcome, ok, rejected, stuck, ◌>>=◌}

pub record Buffer : Type 0 where
  pub contents : Bytes
  pub cap : ℕ

-- The modulus of `size_t` and `uint64_t` on the 64-bit targets.
abbrev pub size_mod : ℕ
size_mod = 2 ^ 64

unfoldable pub smart_buffer_init : Buffer
smart_buffer_init = record { contents = []; cap = 0 }

-- `while (new_cap < needed) new_cap *= 2;`, for at most `rounds` doublings.
unfoldable pub grow : ℕ → ℕ → ℕ → Outcome ℕ
grow zero new_cap needed = if ltb new_cap needed then stuck else ok new_cap
grow (suc rounds) new_cap needed =
    let doubled = grow rounds (new_cap * 2 % size_mod) needed in
    if ltb new_cap needed then doubled else ok new_cap

-- `buf->cap ? buf->cap : 128`
unfoldable pub first_cap : ℕ → ℕ
first_cap c = if c == 0 then 128 else c

-- 64 doublings take any capacity past 2 ^ 63.
abbrev pub grow_rounds : ℕ
grow_rounds = 64

module _ (alloc : ℕ → Bool) where
  unfoldable pub buffer_reserve : Buffer → ℕ → Outcome Buffer
  buffer_reserve b extra =
      let needed = (length b.contents + extra) % size_mod in
      let grown : Outcome Buffer = grow grow_rounds (first_cap b.cap) needed >>= λ c.
      (if alloc c then ok (record b { cap = c }) else rejected) in
      if leb needed b.cap then ok b else grown

  unfoldable pub buffer_append : Buffer → Bytes → Outcome Buffer
  buffer_append b bytes =
      buffer_reserve b (length bytes) >>= λ r. ok (record r { contents = r.contents ++ bytes })

  unfoldable pub buffer_append_byte : Buffer → ℕ → Outcome Buffer
  buffer_append_byte b byte = buffer_append b (byte ∷ [])
