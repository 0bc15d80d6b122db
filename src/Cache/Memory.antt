-- ===== src/Cache/Memory.antt =====
-- internal/cache/redis.go as its callers see it: its calls and their answers, and what they are
-- expected to be of a set of seen events and a map of decisions.
use eventmind.Base.{
  Text, text_eq, Bool, true, false, ◌&&◌, Option, none, some, List, [], ◌∷◌, Result, ok, err,
  if◌then◌else◌,
}
use eventmind.Cache.{seen, cache_decision, get_decision}
use eventmind.Cache.Server.{Redis}

-- The calls of the cache, and what they return.
pub data CacheCall : Type 0 where
  ask_seen : Text → CacheCall
  store : Text → Text → CacheCall
  fetch : Text → CacheCall

pub data Reply : Type 0 where
  was_seen : Bool → Reply
  stored : Reply
  fetched : Text → Reply
  refused : Text → Reply

abbrev pub is_answer : Reply → Bool
is_answer (refused e) = false
is_answer reply = true

abbrev pub seen_reply : Result Bool → Reply
seen_reply (ok b) = was_seen b
seen_reply (err e) = refused e

abbrev pub store_reply : Option Text → Reply
store_reply none = stored
store_reply (some e) = refused e

abbrev pub fetch_reply : Result Text → Reply
fetch_reply (ok t) = fetched t
fetch_reply (err e) = refused e

-- The specification: which events were seen, and the text of each decision, empty for none.
pub record Memory : Type 0 where
  pub processed : Text → Bool
  pub decisions : Text → Text

abbrev pub set_at {ℓ} : {A : Type ℓ} → (Text → A) → Text → A → Text → A
set_at f id v other = if text_eq other id then v else f other

abbrev pub expected : Memory → CacheCall → Reply × Memory
expected m (ask_seen id) =
    (was_seen (m.processed id), record m { processed = set_at m.processed id true })
expected m (store id blob) = (stored, record m { decisions = set_at m.decisions id blob })
expected m (fetch id) = (fetched (m.decisions id), m)

unfoldable pub expected_replies : Memory → List CacheCall → List Reply
expected_replies m [] = []
expected_replies m (call ∷ calls) =
    let (reply, m') = expected m call in reply ∷ expected_replies m' calls

unfoldable pub all_answer : List Reply → Bool
all_answer [] = true
all_answer (reply ∷ rest) = is_answer reply && all_answer rest

module _ (R : Redis) where
  -- One call, and a sequence of calls.
  unfoldable pub perform : R.State → CacheCall → Reply × R.State
  perform s (ask_seen id) = let (r, s') = seen R s id in (seen_reply r, s')
  perform s (store id blob) = let (r, s') = cache_decision R s id blob in (store_reply r, s')
  perform s (fetch id) = (fetch_reply (get_decision R s id), s)

  unfoldable pub replies : R.State → List CacheCall → List Reply
  unfolding perform
  replies s [] = []
  replies s (call ∷ calls) = let (reply, s') = perform s call in reply ∷ replies s' calls
