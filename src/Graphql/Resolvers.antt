-- ===== src/Graphql/Resolvers.antt =====
-- api/graphql/schema.resolvers.go: the resolvers, over the same services as the REST handlers. An
-- error is its message. Times are in UTC.
pub mod Agreement
pub mod Sharing
use eventmind.Base.{
  ℕ, Text, bytes, ◌++◌, [], ◌∷◌, Bool, true, false, not, Option, none, some, List, map, Result, ok,
  err, ℤ, pos, ltb_ℤ, is_empty, format_rfc3339, if◌then◌else◌,
}
use eventmind.Events.{Event, valid}
use eventmind.Agent.Process.{Decision}
use eventmind.Cache as Cache
use eventmind.Storage.Postgres as Postgres
use eventmind.Storage.Postgres.{PgError, no_rows, pg_error, Answer, row, error}
use eventmind.Messaging.Producer.{publish}
use eventmind.Rest.Handlers.{Api, World, client}

-- The types that gqlgen generates from the schema.
pub record ModelDecision : Type 0 where
  pub id : Text
  pub event_id : Text
  pub event_type : Text
  pub action : Text
  pub reasoning : Text
  pub success : Bool
  pub error : Option Text
  pub duration_ms : ℕ
  pub processed_at : Text

pub record ModelEvent : Type 0 where
  pub id : Text
  pub type : Text
  pub payload : Text
  pub source : Option Text
  pub timestamp : Text

-- What the resolvers use of encoding/json besides the encoding of events.
pub record Json : Type 0 where
  pub valid_json : Text → Bool
  pub marshal_model : ModelDecision → Result Text
  pub unmarshal_model : Text → Option ModelDecision

-- The address of a text that is not empty.
abbrev pub present : Text → Option Text
present s = if not (is_empty s) then some s else none

-- `toModelDecision`
unfoldable pub to_model_decision : Decision → ModelDecision
to_model_decision d = record {
  id = d.id;
  event_id = d.event_id;
  event_type = d.event_type;
  action = d.action;
  reasoning = d.reasoning;
  success = d.success;
  error = present d.error;
  duration_ms = d.duration_ms;
  processed_at = format_rfc3339 d.processed_at;
}

-- `toModelEvent`
unfoldable pub to_model_event : Event → ModelEvent
to_model_event ev = record {
  id = ev.id;
  type = ev.type;
  payload = ev.payload;
  source = present ev.source;
  timestamp = format_rfc3339 ev.timestamp;
}

abbrev pub pg_message : PgError → Text
pg_message no_rows = bytes "no rows in result set"
pg_message (pg_error e) = e

-- An optional argument, with its default.
abbrev pub given {ℓ} : {T : Type ℓ} → Option T → T → T
given none default = default
given (some x) default = x

-- The limit of `Decisions`: 20 by default and 100 at most. That of `Events` has no bound.
unfoldable pub decisions_limit : Option ℤ → ℤ
decisions_limit limit =
    let lim = given limit (pos 20) in if ltb_ℤ (pos 100) lim then pos 100 else lim

module _ (A : Api) (J : Json) where
  -- The end of `IngestEvent`; the error of the publication is dropped.
  unfoldable pub publish_saved : World A → Event → Option PgError → Result ModelEvent × World A
  publish_saved w ev (some e) = (err (bytes "save: " ++ pg_message e), w)
  publish_saved w ev none =
      (ok (to_model_event ev), (publish (client A) A.marshal_event A.topic w ev).1)

  unfoldable pub store_event : World A → Text → Text → Option Text → Result ModelEvent × World A
  store_event w type payload source =
      let (id, clock1) = A.new_uuid w.clock in
      let (now, clock2) = A.now clock1 in
      let ev : Event = record {
        id = id;
        type = type;
        payload = payload;
        source = given source [];
        timestamp = now;
      } in
      let (refused, pg') = Postgres.save_event A.pg w.pg ev in
      publish_saved (record w { clock = clock2; pg = pg' }) ev refused

  -- `IngestEvent`
  unfoldable pub ingest_event : World A → Text → Text → Option Text → Result ModelEvent × World A
  unfolding store_event publish_saved
  ingest_event w type payload source =
      if not (valid type)
      then (err (bytes "unknown event type " ++ A.quote type), w)
      else if not (J.valid_json payload)
      then (err (bytes "payload is not valid JSON"), w)
      else store_event w type payload source

  -- `Decisions`
  unfoldable pub decisions :
      World A → Option ℤ → Option ℤ → Option Text → Result (List ModelDecision)
  decisions w limit offset event_type =
      elim (Postgres.list_decisions A.pg w.pg (decisions_limit limit) (given offset (pos 0))
        (given event_type [])) [
          | error e ↦ err (bytes "ListDecisions: " ++ pg_message e)
          | row items ↦ ok (map to_model_decision items)
        ]

  -- The cached decision, if the cache answers with a text that decodes.
  unfoldable pub cached_model : Result Text → Option ModelDecision
  cached_model (err e) = none
  cached_model (ok cached) = if not (is_empty cached) then J.unmarshal_model cached else none

  unfoldable pub fill_cache : World A → Text → Result Text → World A
  fill_cache w id (err e) = w
  fill_cache w id (ok blob) = record w { redis = (Cache.cache_decision A.redis w.redis id blob).1 }

  unfoldable pub answer_decision :
      World A → Text → Answer Decision → Result (Option ModelDecision) × World A
  answer_decision w id (error no_rows) = (ok none, w)
  answer_decision w id (error (pg_error e)) = (err e, w)
  answer_decision w id (row d) =
      let md = to_model_decision d in (ok (some md), fill_cache w id (J.marshal_model md))

  -- `Decision`
  unfoldable pub decision : World A → Text → Result (Option ModelDecision) × World A
  unfolding answer_decision fill_cache cached_model
  decision w id = elim (cached_model (Cache.get_decision A.redis w.redis id)) [
    | some d ↦ (ok (some d), w)
    | none ↦ answer_decision w id (Postgres.get_decision A.pg w.pg id)
  ]

  -- `Events`
  unfoldable pub events : World A → Option ℤ → Option ℤ → Result (List ModelEvent)
  events w limit offset =
      elim (Postgres.list_events A.pg w.pg (given limit (pos 20)) (given offset (pos 0))) [
        | error e ↦ err (pg_message e)
        | row items ↦ ok (map to_model_event items)
      ]

  abbrev answer_event : Answer Event → Result (Option ModelEvent)
  answer_event (error no_rows) = ok none
  answer_event (error (pg_error e)) = err e
  answer_event (row ev) = ok (some (to_model_event ev))

  -- `Event`
  unfoldable pub event : World A → Text → Result (Option ModelEvent)
  event w id = answer_event (Postgres.get_event_by_id A.pg w.pg id)
