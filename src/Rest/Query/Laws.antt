-- ===== src/Rest/Query/Laws.antt =====
-- Whatever a client asks for, a page is bounded.
use eventmind.Base.{
  ℕ, ◌≤◌, ◌<◌, [], IsInt64, half_word, format_int, atoi-format_int, is_empty-format_int, ◌≡◌, refl,
  Text, ℤ, pos, negsuc, ◌≤ℤ◌, ltb_ℤ, arith, false,
}
use eventmind.Rest.Query.{query_int, clamp, max0, page_limit, page_offset}

-- The clamped value lies in the range, and a value of the range is kept.
clamp_bounds : (v lo hi : ℤ) → lo ≤ℤ hi → (lo ≤ℤ clamp v lo hi) × (clamp v lo hi ≤ℤ hi)
unfolding clamp
clamp_bounds (pos v) (pos lo) (pos hi) h = ground arith
clamp_bounds (pos v) (negsuc lo) (pos hi) h = ground arith
clamp_bounds (pos v) (negsuc lo) (negsuc hi) h = ground arith
clamp_bounds (negsuc v) (pos lo) (pos hi) h = ground arith
clamp_bounds (negsuc v) (negsuc lo) (pos hi) h = ground arith
clamp_bounds (negsuc v) (negsuc lo) (negsuc hi) h = ground arith
clamp_bounds v lo hi h = absurd h

max0-nonneg : (v : ℤ) → pos 0 ≤ℤ max0 v
unfolding max0
max0-nonneg (pos v) = ground arith
max0-nonneg (negsuc v) = ground arith

-- For every text of the two query parameters the limit of a page lies between 1 and 100 and its
-- offset is not negative.
pub page_bounds :
    (limit offset : Text)
    → (pos 1 ≤ℤ page_limit limit) × (page_limit limit ≤ℤ pos 100) × (pos 0 ≤ℤ page_offset offset)
unfolding page_limit page_offset
page_bounds limit offset =
    let (low, high) = clamp_bounds (query_int limit (pos 20)) (pos 1) (pos 100) (omega arith) in
    (low, high, max0-nonneg (query_int offset (pos 0)))

page_defaults : (page_limit [] ≡ pos 20) × (page_offset [] ≡ pos 0)
unfolding page_limit page_offset clamp max0 query_int
page_defaults = (refl, refl)

query_int-format_int : (i def : ℤ) → IsInt64 i → query_int (format_int i) def ≡ i
unfolding query_int
query_int-format_int i def h = rw (is_empty-format_int i) (rw (atoi-format_int i h))

clamp_of_in_range : (v lo hi : ℤ) → ltb_ℤ v lo ≡ false → ltb_ℤ hi v ≡ false → clamp v lo hi ≡ v
unfolding clamp
clamp_of_in_range v lo hi low high = rw low (rw high)

-- A limit from 1 to 100 and an offset below 2^63 that are asked for as decimal numbers are used as
-- they are, and without the parameters the limit is 20 and the offset 0.
pub page_as_asked :
    (limit offset : ℕ)
    → 1 ≤ limit
    → limit ≤ 100
    → offset < half_word
    → (page_limit (format_int (pos limit)) ≡ pos limit)
      × (page_offset (format_int (pos offset)) ≡ pos offset)
      × (page_limit [] ≡ pos 20)
      × (page_offset [] ≡ pos 0)
unfolding page_limit page_offset max0
page_as_asked limit offset low high in_range = (
  rw (query_int-format_int (pos limit) (pos 20) (omega arith))
      (clamp_of_in_range (pos limit) (pos 1) (pos 100) (ground arith) (ground arith)),
  rw (query_int-format_int (pos offset) (pos 0) in_range) (ground arith),
  page_defaults.0,
  page_defaults.1,
)
