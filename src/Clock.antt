-- ===== src/Clock.antt =====
-- The clock of 2_c/smartcity_common.c: smart_iso_utc_timestamp, with what `snprintf` does there written
-- out, and smart_unix_time_ms where it is compiled for POSIX; and iso_timestamp of 2_c/gateway.c. What
-- `gmtime_r` and `gettimeofday` answer is given.
pub mod Timestamp
use smartcity.Prelude.{
  ℕ, zero, suc, ◌+◌, ◌-◌, ◌*◌, ◌/◌, ◌%◌, ◌^◌, some, none, Option, [], ◌∷◌, ◌++◌, Bytes, length,
  take, codes, ltb, ◌==◌, if◌then◌else◌,
}
use smartcity.Csv.Rows.{digits}

-- The fields of `struct tm`, each the bits of an `int`.
pub record Tm : Type 0 where
  pub tm_year : ℕ
  pub tm_mon : ℕ
  pub tm_mday : ℕ
  pub tm_hour : ℕ
  pub tm_min : ℕ
  pub tm_sec : ℕ

unfoldable pub zeros : ℕ → Bytes
zeros zero = []
zeros (suc n) = 48 ∷ zeros n

-- The digits behind as many zeros as the width needs.
unfoldable pub to_width : ℕ → Bytes → Bytes
unfolding zeros
to_width width s = zeros (width - length s) ++ s

-- `%0…d`: the sign of a negative number takes one place.
unfoldable pub zero_padded : ℕ → ℕ → Bytes
unfolding to_width digits
zero_padded width n =
    if ltb n (2 ^ 31)
    then to_width width (digits 20 n)
    else 45 ∷ to_width (width - 1) (digits 20 (2 ^ 32 - n))

-- `"%04d-%02d-%02dT%02d:%02d:%02dZ"`; the sums wrap as the compilers' do.
unfoldable pub iso_text : Tm → Bytes
unfolding zero_padded
iso_text tm =
    zero_padded 4 ((tm.tm_year + 1900) % 2 ^ 32)
    ++ (45 ∷ zero_padded 2 ((tm.tm_mon + 1) % 2 ^ 32)
        ++ (45 ∷ zero_padded 2 tm.tm_mday
            ++ (84 ∷ zero_padded 2 tm.tm_hour
                ++ (58 ∷ zero_padded 2 tm.tm_min ++ (58 ∷ zero_padded 2 tm.tm_sec ++ (90 ∷ []))))))

-- What `buf` holds, before its NUL; none where it is left as it was.
unfoldable pub smart_iso_utc_timestamp : Option Tm → ℕ → Option Bytes
unfolding iso_text
smart_iso_utc_timestamp now zero = none
smart_iso_utc_timestamp none (suc room) = some (take room (codes "1970-01-01T00:00:00Z"))
smart_iso_utc_timestamp (some tm) (suc room) = some (take room (iso_text tm))

unfoldable pub iso_timestamp : Option Tm → ℕ → Option Bytes
unfolding smart_iso_utc_timestamp
iso_timestamp now size = smart_iso_utc_timestamp now size

-- What `gettimeofday` stores, the seconds and the microseconds each as the bits of an `int64_t`.
pub record TimeVal : Type 0 where
  pub tv_sec : ℕ
  pub tv_usec : ℕ

-- `tv_usec / 1000` on a count that is not negative; none stands for a call that failed.
unfoldable pub smart_unix_time_ms : Option TimeVal → ℕ
smart_unix_time_ms none = 0
smart_unix_time_ms (some tv) = (tv.tv_sec * 1000 + tv.tv_usec / 1000) % 2 ^ 64
