-- ===== src/Decode/Varint.antt =====
-- The readers of `Decode` on the bytes that `Encode` writes, anywhere in a message.
use smartcity.Prelude.{
  ℕ, zero, suc, ◌+◌, ◌*◌, ◌/◌, ◌%◌, ◌^◌, ◌≤◌, ◌<◌, ◌≡◌, refl, ap, ◌∙◌, bit_and, ◌∷◌, ◌++◌,
  append_assoc, Bytes, length, length-append, take, drop, drop-append, drop-drop, leb, arith,
  Bool-cases, inl, inr,
}
use smartcity.Prelude.Bits.{and_127, and_128, or_shifted}
use smartcity.Outcome.{ok}
use smartcity.Double.{Double, IsDouble, double_bytes, double_of_bytes-double_bytes}
use smartcity.Encode.Shape.{groups, varint_bytes, key_of}
use smartcity.Decode.{
  scan, read_varint, read_key, read_length_delimited, read_fixed64_double, to_u32,
}
use native.Mathlib.Nat.{pow-suc}
use native.Mathlib.Numerals.{towards_suc}

-- At the cursor the object goes on with `rest`, which ends where the claimed length does.
abbrev pub At : Bytes → ℕ → ℕ → Bytes → Bytes → Type 0
At mem len pos rest tail = (drop pos mem ≡ rest ++ tail) × (pos + length rest ≡ len)

pub At-advance :
    (mem : Bytes) (len pos : ℕ) (xs rest tail : Bytes)
    → At mem len pos (xs ++ rest) tail
    → At mem len (pos + length xs) rest tail
At-advance mem len pos xs rest tail (here, ends) = (
  drop-drop (pos + length xs) pos (length xs) mem refl
      ∙ rw (here, append_assoc) (drop-append (length xs) xs (rest ++ tail) refl),
  omega (arith, length-append xs rest),
)

pub length-groups : (k v : ℕ) → (1 ≤ length (groups k v)) × (length (groups k v) ≤ k + 1)
unfolding groups
length-groups zero v = omega arith
length-groups (suc k) v = ground (arith, length-groups k (v / 128))

pub shift_seven : (s : ℕ) → 2 ^ (s + 7) ≡ 128 * 2 ^ s
shift_seven s = simp towards_suc (omega (arith))

-- One round of `scan` on a last group and on an inner one.
scan_last :
    (w : ℕ) (rest : Bytes) (len pos result shift : ℕ)
    → w < 128
    → pos < len
    → shift ≤ 63
    → result < 2 ^ shift
    → result + w * 2 ^ shift < 2 ^ 64
    → scan (w ∷ rest) len pos result shift ≡ ok (result + w * 2 ^ shift, suc pos)
unfolding scan
scan_last w rest len pos result shift hw hp hs hr fits =
    ground (arith, and_127 w, and_128 w, or_shifted shift result w)

scan_inner :
    (g : ℕ) (rest : Bytes) (len pos result shift : ℕ)
    → g < 128
    → pos < len
    → shift ≤ 63
    → result < 2 ^ shift
    → result + g * 2 ^ shift < 2 ^ 64
    → scan ((g + 128) ∷ rest) len pos result shift
      ≡ scan rest len (suc pos) (result + g * 2 ^ shift) (shift + 7)
unfolding scan
scan_inner g rest len pos result shift hg hp hs hr fits =
    ground (arith, and_127 (g + 128), and_128 (g + 128), or_shifted shift result g)

-- The lowest group of `v` and the others, shifted by `s`.
split_group : (v s : ℕ) → v * 2 ^ s ≡ v % 128 * 2 ^ s + v / 128 * 2 ^ (s + 7)
split_group v s =
    let whole : v ≡ v / 128 * 128 + v % 128 = omega arith in
    omega (arith, ap (λ (t : ℕ). t * 2 ^ s) whole, ap (λ (t : ℕ). v / 128 * t) (shift_seven s))

group_fits : (g r s : ℕ) → g < 128 → r < 2 ^ s → r + g * 2 ^ s < 2 ^ (s + 7)
group_fits g r s hg hr = rw shift_seven (grind arith)

scan-groups :
    (k v : ℕ) (tail : Bytes) (len pos result shift : ℕ)
    → v < 128 ^ suc k
    → shift + 7 * k ≤ 63
    → result < 2 ^ shift
    → result + v * 2 ^ shift < 2 ^ 64
    → pos + length (groups k v) ≤ len
    → scan (groups k v ++ tail) len pos result shift
      ≡ ok (result + v * 2 ^ shift, pos + length (groups k v))
unfolding groups
scan-groups zero v tail len pos result shift hv hs hr fits room =
    ground (arith, scan_last v tail len pos result shift)
scan-groups (suc k) v tail len pos result shift hv hs hr fits room = elim (Bool-cases (leb 128 v)) [
  | inl more ↦
      let size = length-groups k (v / 128) in
      let longer : pos + suc (length (groups k (v / 128))) ≤ len = rw more at room in
      rw more (
        scan_inner (v % 128) (groups k (v / 128) ++ tail) len pos result shift (omega arith)
          (omega arith) (omega arith) hr (omega (arith, split_group v shift))
        ∙ scan-groups k (v / 128) tail len (suc pos) (result + v % 128 * 2 ^ shift) (shift + 7)
            (omega (arith, pow-suc 128 (suc k))) (omega arith)
            (group_fits (v % 128) result shift (omega arith) hr)
            (omega (arith, split_group v shift)) (omega arith)
        ∙ ground (arith, split_group v shift))
  | inr last ↦
      let longer : pos + 1 ≤ len = rw last at room in
      rw last (
        scan_last v tail len pos result shift (ground arith) (omega arith) (omega arith) hr fits
        ∙ ground arith)
]

-- Where the object goes on with the bytes of a number below 2 ^ 64, read_varint returns it, and the
-- cursor behind its bytes.
pub read_varint-At :
    (v : ℕ) (mem : Bytes) (len pos : ℕ) (rest tail : Bytes)
    → v < 2 ^ 64
    → At mem len pos (varint_bytes v ++ rest) tail
    → read_varint mem len pos ≡ ok (v, pos + length (varint_bytes v))
unfolding read_varint varint_bytes
read_varint-At v mem len pos rest tail hv (here, ends) =
    rw (here, append_assoc)
      (ground (arith, scan-groups 9 v (rest ++ tail) len pos 0 0, length-append (groups 9 v) rest))

-- The key of a field with number `n` and wire type `w` is a word, and splits into the two.
abbrev pub IsKey : ℕ → ℕ → Type 0
IsKey n w =
    (key_of n w < 2 ^ 64)
    × (to_u32 (key_of n w / 2 ^ 3) ≡ n)
    × (to_u32 (bit_and (key_of n w) 7) ≡ w)

pub read_key-At :
    (n w : ℕ) (mem : Bytes) (len pos : ℕ) (rest tail : Bytes)
    → IsKey n w
    → At mem len pos (varint_bytes (key_of n w) ++ rest) tail
    → read_key mem len pos ≡ ok (n, w, pos + length (varint_bytes (key_of n w)))
unfolding read_key
read_key-At n w mem len pos rest tail (word, number, wire) here =
    rw (read_varint-At (key_of n w) mem len pos rest tail word here, number, wire)

-- A slice behind its length: the start, the length, and the cursor behind the slice.
pub read_length_delimited-At :
    (body : Bytes) (mem : Bytes) (len pos : ℕ) (rest tail : Bytes)
    → len < 2 ^ 62
    → At mem len pos (varint_bytes (length body) ++ (body ++ rest)) tail
    → read_length_delimited mem len pos
      ≡ ok (
        pos + length (varint_bytes (length body)),
        length body,
        pos + length (varint_bytes (length body)) + length body,
      )
unfolding read_length_delimited
read_length_delimited-At body mem len pos rest tail small here =
    let sizes = length-append (varint_bytes (length body)) (body ++ rest) in
    rw
      (read_varint-At (length body) mem len pos (body ++ rest) tail
        (omega (arith, sizes, length-append body rest, here.1)) here)
      (ground (arith, sizes, length-append body rest, here.1))

pub read_fixed64_double-At :
    (x : Double) (mem : Bytes) (len pos : ℕ) (rest tail : Bytes)
    → IsDouble x
    → len < 2 ^ 62
    → At mem len pos (double_bytes x ++ rest) tail
    → read_fixed64_double mem len pos ≡ ok (x, pos + length (double_bytes x))
unfolding read_fixed64_double
read_fixed64_double-At x mem len pos rest tail hx small here =
    let eight : take 8 (drop pos mem) ≡ double_bytes x =
      rw (here.0, append_assoc) (unfold double_bytes in refl) in
    let ends : pos + suc (suc (suc (suc (suc (suc (suc (suc (length rest)))))))) ≡ len =
      unfold double_bytes in here.1 in
    rw (eight, double_of_bytes-double_bytes x hx) (unfold double_bytes in ground arith)
