-- ===== src/Messaging/Backoff.antt =====
-- internal/messaging/dlq.go: `backoff`, on Go's 64-bit integers.
pub mod Laws
use eventmind.Base.{
  ℕ, ◌^◌, ◌%◌, Option, none, some, ℤ, pos, negsuc, ltb_ℤ, word, of_bits, mul64, if◌then◌else◌,
}

-- `1 << n`: a negative shift count panics, and 64 or more leaves 0.
shift_one : ℤ → Option ℤ
shift_one (pos n) = some (of_bits (2 ^ n % word))
shift_one (negsuc n) = none

abbrev pub cap_ms : ℤ
cap_ms = pos 30000

abbrev pub millisecond : ℤ
millisecond = pos 1000000

delay : ℤ → ℤ → ℤ
delay base power =
    let ms = mul64 base power in
    let capped = if ltb_ℤ cap_ms ms then cap_ms else ms in mul64 capped millisecond

-- The delay in nanoseconds; `none` is a panic.
unfoldable pub backoff : ℤ → ℤ → Option ℤ
unfolding shift_one delay
backoff base retry_count = elim (shift_one retry_count) [
  | none ↦ none
  | some power ↦ some (delay base power)
]
