-- ===== src/Base/Timestamp.antt =====
-- Go's `time.Time` in UTC: nanoseconds since 1970, and the layout `time.RFC3339`.
use Prim.Native.Nat.{ℕ, ◌+◌, ◌-◌, ◌*◌, ◌/◌, ◌%◌}
use mathlib.Core.Path.{◌≡◌, refl}
use mathlib.Core.List.{[], ◌∷◌, ◌++◌}
use eventmind.Base.Tests.{ltb, leb, if◌then◌else◌}
use eventmind.Base.Bytes.{Text, bytes}

abbrev pub Time : Type 0
Time = ℕ

-- `time.Since(start).Milliseconds()`, from the two readings of a monotonic clock.
abbrev pub millis_between : Time → Time → ℕ
millis_between start now = (now - start) / 1000000

two_digits : ℕ → Text
two_digits n = (48 + n / 10 % 10) ∷ (48 + n % 10) ∷ []

-- The date of a day since 1970-01-01 in the proleptic Gregorian calendar, years from March.
format_date : ℕ → Text
unfolding two_digits
format_date days =
    let z = days + 719468 in
    let doe = z % 146097 in
    let yoe = (doe - doe / 1460 + doe / 36524 - doe / 146096) / 365 in
    let doy = doe - (365 * yoe + yoe / 4 - yoe / 100) in
    let mp = (5 * doy + 2) / 153 in
    let day = doy - (153 * mp + 2) / 5 + 1 in
    let month = if ltb mp 10 then mp + 3 else mp - 9 in
    let year = yoe + z / 146097 * 400 + (if leb month 2 then 1 else 0) in
    two_digits (year / 100)
    ++ two_digits (year % 100)
    ++ b'-' ∷ (two_digits month ++ b'-' ∷ two_digits day)

unfoldable pub format_rfc3339 : Time → Text
unfolding format_date
format_rfc3339 t =
    let s = t / 1000000000 in
    format_date (s / 86400)
    ++ b'T'
      ∷ (two_digits (s % 86400 / 3600)
          ++ b':' ∷ (two_digits (s % 3600 / 60) ++ b':' ∷ (two_digits (s % 60) ++ b'Z' ∷ [])))

leap_day : format_rfc3339 1709251199000000000 ≡ bytes "2024-02-29T23:59:59Z"
unfolding format_rfc3339
leap_day = refl

new_year : format_rfc3339 1735689600123000000 ≡ bytes "2025-01-01T00:00:00Z"
unfolding format_rfc3339
new_year = refl
