-- ===== src/Messaging/Headers/Laws.antt =====
-- What `mergeHeaders` writes is what `headerInt` reads, and nothing else changes.
use eventmind.Base.{
  ◌≡◌, refl, ◌∙◌, ap, Text, text_eq, text_eq_refl, not, List, [], ◌∷◌, ◌++◌, keep, length, ℤ,
  IsInt64, scan_int-format_int, Time, arith, append-nil, length-append, ◌+◌,
}
use eventmind.Messaging.Headers.{
  Header, retry_count_key, error_key, last_retry_at_key, header_int, is_retry_field, retry_fields,
  merge_headers,
}

abbrev pub others : List Header → List Header
others = keep (λ h. not (is_retry_field h))

-- Dropped headers hide no retry count.
header_int-others :
    (hs rest : List Header)
    → header_int (others hs ++ rest) retry_count_key ≡ header_int rest retry_count_key
unfolding header_int is_retry_field
header_int-others [] rest = refl
header_int-others (h ∷ hs) rest = ground (arith, header_int-others hs rest)

header_int-retry_fields :
    (n : ℤ) (err : Text) (now : Time)
    → IsInt64 n
    → header_int (retry_fields n err now) retry_count_key ≡ n
unfolding header_int
header_int-retry_fields n err now h = rw (text_eq_refl retry_count_key, scan_int-format_int n h)

-- The retry count that `mergeHeaders` writes, whatever the headers were before, is the one that
-- `headerInt` reads, for every 64-bit integer.
pub header_int-merge_headers :
    (hs : List Header) (n : ℤ) (err : Text) (now : Time)
    → IsInt64 n
    → header_int (merge_headers hs n err now) retry_count_key ≡ n
unfolding merge_headers
header_int-merge_headers hs n err now h =
    header_int-others hs (retry_fields n err now) ∙ header_int-retry_fields n err now h

others-append : (xs ys : List Header) → others (xs ++ ys) ≡ others xs ++ others ys
others-append [] ys = refl
others-append (h ∷ xs) ys = ground (arith, others-append xs ys)

others-others : (hs : List Header) → others (others hs) ≡ others hs
others-others [] = refl
others-others (h ∷ hs) = ground (arith, others-others hs)

others-retry_fields : (n : ℤ) (err : Text) (now : Time) → others (retry_fields n err now) ≡ []
unfolding is_retry_field text_eq retry_count_key error_key last_retry_at_key
others-retry_fields n err now = refl

pub others-merge_headers :
    (hs : List Header) (n : ℤ) (err : Text) (now : Time)
    → others (merge_headers hs n err now) ≡ others hs
unfolding merge_headers
others-merge_headers hs n err now =
    rw (others-append (others hs) (retry_fields n err now))
      (rw (others-others hs, others-retry_fields n err now) (append-nil _))

-- Merging headers twice is merging them once with the later values; all other headers are kept in
-- their order, and a merge yields three headers more than these.
merge_headers-merge_headers :
    (hs : List Header) (n m : ℤ) (err err' : Text) (now now' : Time)
    → (merge_headers (merge_headers hs n err now) m err' now' ≡ merge_headers hs m err' now')
      × (others (merge_headers hs n err now) ≡ others hs)
      × (length (merge_headers hs n err now) ≡ length (others hs) + 3)
unfolding merge_headers
merge_headers-merge_headers hs n m err err' now now' = (
  ap (λ l. l ++ retry_fields m err' now') (others-merge_headers hs n err now),
  others-merge_headers hs n err now,
  length-append (others hs) (retry_fields n err now),
)
