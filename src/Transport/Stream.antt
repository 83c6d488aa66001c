-- ===== src/Transport/Stream.antt =====
-- What 2_c/smartcity_common.c relies on in a stream socket, and the byte order of a length.
use smartcity.Prelude.{ℕ, ◌^◌, ◌≤◌, ◌<◌, ◌≡◌, refl, some, ◌++◌, Bytes, length, take, arith}
use smartcity.Transport.{Socket, htonl, ntohl}

-- What a blocking stream socket promises while its connection is open: `recv` brings some of the
-- bytes that are to come, in their order, and `send` takes some of the first bytes that it is given.
pub record IsStream {S : Type 0} (sock : Socket S) : Type 0 where
  pub incoming : S → Bytes
  pub outgoing : S → Bytes
  pub receives :
      (s : S) (n : ℕ)
      → 0 < n
      → n < 2 ^ 31
      → n ≤ length (incoming s)
      → (chunk : Bytes) × (s' : S) × (sock.recv s n ≡ (some chunk, s'))
        × (0 < length chunk)
        × (length chunk ≤ n)
        × (incoming s ≡ chunk ++ incoming s')
  pub sends :
      (s : S) (mem : Bytes) (n : ℕ)
      → 0 < n
      → n < 2 ^ 31
      → n ≤ length mem
      → (k : ℕ) × (s' : S) × (sock.send s mem n ≡ (some k, s'))
        × (0 < k)
        × (k ≤ n)
        × (outgoing s' ≡ outgoing s ++ take k mem)

pub ntohl-htonl : (n : ℕ) → n < 2 ^ 32 → ntohl (htonl n) ≡ n
unfolding ntohl htonl
ntohl-htonl n h = omega arith

pub length-htonl : (n : ℕ) → length (htonl n) ≡ 4
unfolding htonl
length-htonl n = refl
