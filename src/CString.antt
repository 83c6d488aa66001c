-- ===== src/CString.antt =====
-- Copies of C strings, and the texts of the source: smart_dup_cstring of 2_c/smartcity_common.c, and
-- what `strcmp`, `strncpy` and `snprintf` do on the bytes before the NUL.
use smartcity.Prelude.{
  ℕ, ◌+◌, Bool, true, false, some, none, [], Bytes, length, str_eq, codes, String, if◌then◌else◌,
  ◌≡◌, refl,
}
use smartcity.Encode.{CString}

-- NULL for NULL, and where the allocator refuses.
unfoldable pub smart_dup_cstring : (ℕ → Bool) → CString → CString
smart_dup_cstring alloc none = none
smart_dup_cstring alloc (some s) = if alloc (length s + 1) then some s else none

-- `src && !copy`: a text whose copy failed.
unfoldable pub lost : CString → CString → Bool
lost none copy = false
lost (some s) none = true
lost (some s) (some t) = false

-- A literal of the source.
abbrev pub text : String → CString
text s = some (codes s)

-- `p ? p : ""`
abbrev pub or_empty : CString → Bytes
or_empty none = []
or_empty (some s) = s

-- `a && strcmp(a, b) == 0`, where `b` is no NULL.
unfoldable pub is_text : CString → Bytes → Bool
is_text none b = false
is_text (some a) b = str_eq a b

pub smart_dup_cstring-granted :
    (alloc : ℕ → Bool) (s : CString) → ((n : ℕ) → alloc n ≡ true) → smart_dup_cstring alloc s ≡ s
unfolding smart_dup_cstring
smart_dup_cstring-granted alloc none granted = refl
smart_dup_cstring-granted alloc (some s) granted = rw granted

pub lost_self : (s : CString) → lost s s ≡ false
unfolding lost
lost_self none = refl
lost_self (some s) = refl
