-- ===== src/Tests/Graphql.antt =====
-- The subscriptions and the resolvers.
use eventmind.Base.{
  ◌≡◌, refl, ℕ, bytes, true, Option, none, some, [], ◌∷◌, ok, pos, arith, format_int, ltb,
  if◌then◌else◌,
}
use eventmind.Cache as Cache
use eventmind.Rest.Handlers as Rest
use eventmind.Graphql.Subscriptions.{offer, Forwarder, opened, Step, published, took}
use eventmind.Graphql.Subscriptions.Delivery.{flow, start, next, IsOrderly, Course-IsOrderly}
use eventmind.Graphql.Subscriptions.Capacity.{Course-lossless}
use eventmind.Graphql.Resolvers.{
  Json, to_model_decision, cached_model, ingest_event, decisions, decision,
}
use eventmind.Graphql.Resolvers.Agreement.{
  Agrees, ingest_event-Agrees, SamePage, decisions-SamePage,
}
use eventmind.Graphql.Resolvers.Sharing.{get_decision-decision}
use eventmind.Rest.Handlers.Reading.{IsReread}
use eventmind.Tests.Memory.{memory_redis-IsLawful}
use eventmind.Tests.Rest.{
  api, start_state, order_request, stored_decision, with_decision, in_postgres,
}

-- Numbers below 10 are the decisions.
abbrev digit : ℕ → Option ℕ
digit n = if ltb n 10 then some n else none

abbrev one_waits : Forwarder ℕ ℕ
one_waits = record opened { raw = offer 7 [] }

abbrev one_held : Forwarder ℕ ℕ
one_held = record opened { held = some 7 }

takes : Step digit [] one_waits one_held
unfolding offer
takes = took refl refl refl refl

Course-IsOrderly_example : IsOrderly digit (7 ∷ []) (7 ∷ []) one_held
unfolding offer
Course-IsOrderly_example = Course-IsOrderly digit (next (next start (published 7 refl)) takes)

Course-lossless_example : flow digit one_held ≡ 7 ∷ []
unfolding offer
Course-lossless_example =
    Course-lossless digit (next (next start (published 7 refl)) takes) refl (omega arith)

abbrev json : Json
json = record {
  valid_json = λ text. true;
  marshal_model = λ d. ok (bytes "{m}");
  unmarshal_model = λ text. none;
}

ingest_event-Agrees_example :
    let (result, w') =
      ingest_event api json start_state order_request.type order_request.payload
        (some order_request.source) in
    let (response, w'') = Rest.ingest_event api start_state (bytes "body") in
    (w' ≡ w'') × Agrees api json result response
ingest_event-Agrees_example =
    ingest_event-Agrees api json start_state (bytes "body") order_request refl refl

decisions-SamePage_example :
    SamePage api json
      (pos 50)
      (pos 200)
      (decisions api json start_state (some (pos 50)) (some (pos 200)) (some []))
      (Rest.list_decisions api start_state (format_int (pos 50)) (format_int (pos 200)) [])
decisions-SamePage_example =
    decisions-SamePage api json start_state 50 200 [] (omega arith) (omega arith) (omega arith)

uncached :
    cached_model api json (Cache.get_decision api.redis with_decision.redis (bytes "d1")) ≡ none
unfolding cached_model Cache.get_decision
uncached = refl

model_taken :
    (Cache.cache_decision api.redis with_decision.redis (bytes "d1") (bytes "{m}")).0 ≡ none
unfolding Cache.cache_decision
model_taken = refl

get_decision-decision_example :
    let (result, w') = decision api json with_decision (bytes "d1") in
    (result ≡ ok (some (to_model_decision stored_decision)))
    × IsReread api memory_redis-IsLawful stored_decision
        (bytes "{m}")
        w'
        (Rest.get_decision api w' (bytes "d1"))
get_decision-decision_example =
    get_decision-decision api json memory_redis-IsLawful with_decision (bytes "d1") stored_decision
      (bytes "{m}") uncached in_postgres refl refl model_taken
