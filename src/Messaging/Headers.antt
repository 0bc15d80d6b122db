-- ===== src/Messaging/Headers.antt =====
-- internal/messaging/producer.go: the headers of a message, `headerInt` and `mergeHeaders`.
pub mod Laws
use eventmind.Base.{
  Text, bytes, text_eq, Bool, not, ◌||◌, if◌then◌else◌, Option, none, some, List, [], ◌∷◌, ◌++◌,
  keep, ℤ, pos, format_int, scan_int, Time, format_rfc3339,
}

-- `kafka.Header`
pub record Header : Type 0 where
  pub key : Text
  pub value : Text

unfoldable pub retry_count_key : Text
retry_count_key = bytes "retry-count"

unfoldable pub error_key : Text
error_key = bytes "error"

unfoldable pub last_retry_at_key : Text
last_retry_at_key = bytes "last-retry-at"

-- `n` after `n := 0; fmt.Sscanf(value, "%d", &n)`: 0 where the scan fails.
abbrev or_zero : Option ℤ → ℤ
or_zero none = pos 0
or_zero (some n) = n

-- `headerInt`: the first header of that key counts.
unfoldable pub header_int : List Header → Text → ℤ
header_int [] key = pos 0
header_int (h ∷ hs) key =
    if text_eq h.key key then or_zero (scan_int h.value) else header_int hs key

-- The cases of the `switch` that drop a header.
unfoldable pub is_retry_field : Header → Bool
is_retry_field h =
    text_eq h.key retry_count_key || text_eq h.key error_key || text_eq h.key last_retry_at_key

-- The headers that `mergeHeaders` appends, with the time that it reads.
abbrev pub retry_fields : ℤ → Text → Time → List Header
retry_fields retry_count err now =
    record { key = retry_count_key; value = format_int retry_count }
    ∷ record { key = error_key; value = err }
    ∷ record { key = last_retry_at_key; value = format_rfc3339 now }
    ∷ []

-- `mergeHeaders`
unfoldable pub merge_headers : List Header → ℤ → Text → Time → List Header
merge_headers headers retry_count err now =
    keep (λ h. not (is_retry_field h)) headers ++ retry_fields retry_count err now
