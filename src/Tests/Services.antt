-- ===== src/Tests/Services.antt =====
-- Redis and Postgres in memory, by the code that calls them.
use eventmind.Base.{◌≡◌, refl, bytes, text_eq, true, false, none, List, [], ◌∷◌, pos}
use eventmind.Events.{Event, payment_failed}
use eventmind.Agent.Process.{Decision, completed}
use eventmind.Cache as Cache
use eventmind.Cache.{seen, seen_key, decision_key, negate}
use eventmind.Cache.Memory.{
  CacheCall, ask_seen, store, fetch, was_seen, stored, fetched, all_answer, expected_replies,
  perform, replies,
}
use eventmind.Cache.Refinement.{replies_refine}
use eventmind.Storage.Postgres as Postgres
use eventmind.Storage.Postgres.{pg_error, row, error, decision_row, EventRow}
use eventmind.Tests.Memory.{one_event, memory_redis, memory_redis-IsLawful, memory_pg}

abbrev review : Decision
review = record {
  id = bytes "d1";
  event_id = bytes "e1";
  event_type = payment_failed;
  action = bytes "flag_for_review";
  reasoning = bytes "why";
  llm_prompt = [];
  llm_response = [];
  success = true;
  error = [];
  duration_ms = 3;
  llm_duration_ms = 2;
  retry_count = pos 0;
  status = completed;
  processed_at = 0;
}

review_taken : (Postgres.save_decision memory_pg (one_event (bytes "e1")) review).0 ≡ none
unfolding Postgres.save_decision decision_row text_eq
review_taken = refl

abbrev raw_event : Event
raw_event = record {
  id = bytes "e1";
  type = payment_failed;
  payload = bytes "{}";
  source = [];
  timestamp = 0;
}

-- Two questions about one event, and two decisions read of which one was stored.
abbrev five_calls : List CacheCall
five_calls =
    ask_seen (bytes "e1")
    ∷ ask_seen (bytes "e1")
    ∷ store (bytes "d1") (bytes "{}")
    ∷ fetch (bytes "d1")
    ∷ fetch (bytes "d2")
    ∷ []

five_answers : all_answer (replies memory_redis [] five_calls) ≡ true
unfolding all_answer replies perform seen negate seen_key decision_key text_eq Cache.cache_decision
    Cache.get_decision Cache.get_result
five_answers = refl

replies_refine_example :
    replies memory_redis [] five_calls
    ≡ was_seen false ∷ was_seen true ∷ stored ∷ fetched (bytes "{}") ∷ fetched [] ∷ []
unfolding expected_replies text_eq
replies_refine_example =
    replies_refine memory_redis memory_redis-IsLawful [] five_calls five_answers
