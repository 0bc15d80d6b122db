-- ===== src/Cache.antt =====
-- internal/cache/redis.go: the idempotency guard and the cache of decisions, over a Redis server
-- that is a parameter.
pub mod Server
pub mod Laws
pub mod Memory
pub mod Refinement
use eventmind.Base.{
  ℕ, ◌*◌, Text, bytes, ◌++◌, [], Bool, not, Option, none, some, List, Result, ok, err, map,
}
use eventmind.Cache.Server.{Redis, Lookup, value, nil, failed}

-- Durations in nanoseconds.
abbrev pub seen_ttl : ℕ
seen_ttl = 24 * 3600 * 1000000000

abbrev pub decision_ttl : ℕ
decision_ttl = 5 * 60 * 1000000000

unfoldable pub seen_key : Text → Text
seen_key id = bytes "em:seen:" ++ id

unfoldable pub decision_key : Text → Text
decision_key id = bytes "em:dec:" ++ id

-- `redis.Nil` is a miss, not an error: the empty text.
unfoldable pub get_result : Lookup → Result Text
get_result (value v) = ok v
get_result nil = ok []
get_result (failed e) = err e

unfoldable pub negate : Result Bool → Result Bool
negate (ok set) = ok (not set)
negate (err e) = err e

module _ (R : Redis) where
  -- `Seen`: SETNX tells whether the key was just set, `Seen` whether it was there before.
  unfoldable pub seen : R.State → Text → Result Bool × R.State
  unfolding negate
  seen s event_id =
      let (set, s') = R.set_nx s (seen_key event_id) (bytes "1") seen_ttl in (negate set, s')

  -- `CacheDecision`
  unfoldable pub cache_decision : R.State → Text → Text → Option Text × R.State
  cache_decision s id json_blob = R.set s (decision_key id) json_blob decision_ttl

  -- `GetDecision`
  unfoldable pub get_decision : R.State → Text → Result Text
  unfolding get_result
  get_decision s id = get_result (R.get s (decision_key id))

  -- `Get`, `Set` and `Del`
  unfoldable pub get : R.State → Text → Result Text
  unfolding get_result
  get s key = get_result (R.get s key)

  unfoldable pub set : R.State → Text → Text → ℕ → Option Text × R.State
  set s key val ttl = R.set s key val ttl

  unfoldable pub del : R.State → List Text → Option Text × R.State
  del s keys = R.del s keys
