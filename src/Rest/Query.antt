-- ===== src/Rest/Query.antt =====
-- api/rest/handlers.go: `queryInt`, `clamp` and `max0`, and the page that a list handler asks for.
pub mod Laws
use eventmind.Base.{
  Text, Bool, true, false, Option, none, some, ℤ, pos, ltb_ℤ, is_empty, atoi, if◌then◌else◌,
}

abbrev or_default : Option ℤ → ℤ → ℤ
or_default none def = def
or_default (some n) def = n

-- `queryInt`, of the value that the request has for the key: the empty text if it has none.
unfoldable pub query_int : Text → ℤ → ℤ
query_int v def = if is_empty v then def else or_default (atoi v) def

unfoldable pub clamp : ℤ → ℤ → ℤ → ℤ
clamp v lo hi = if ltb_ℤ v lo then lo else if ltb_ℤ hi v then hi else v

unfoldable pub max0 : ℤ → ℤ
max0 v = if ltb_ℤ v (pos 0) then pos 0 else v

-- The first lines of `listDecisions` and `listEvents`.
unfoldable pub page_limit : Text → ℤ
page_limit limit = clamp (query_int limit (pos 20)) (pos 1) (pos 100)

unfoldable pub page_offset : Text → ℤ
page_offset offset = max0 (query_int offset (pos 0))
