-- ===== src/Rest/Handlers.antt =====
-- api/rest/handlers.go: the request handlers, as functions from the state of the services and a
-- request to a response and the new state. Logging and the metrics are left out.
pub mod Ingest
pub mod Reading
use eventmind.Base.{
  Text, bytes, ◌++◌, [], Bool, true, false, not, ◌&&◌, Option, none, some, List, Result, ok, err,
  Time, ℤ, pos, is_empty, if◌then◌else◌, ℕ,
}
use eventmind.Events.{Event, EventType, valid}
use eventmind.Agent.Process.{Decision}
use eventmind.Cache.Server.{Redis}
use eventmind.Cache as Cache
use eventmind.Storage.Postgres as Postgres
use eventmind.Storage.Postgres.{Pg, PgError, no_rows, pg_error, Answer, row, error}
use eventmind.Messaging.Kafka.{Client, Broker}
use eventmind.Messaging.Producer.{publish}
use eventmind.Rest.Query.{page_limit, page_offset}

-- The body of `POST /api/v1/events` after binding.
pub record IngestRequest : Type 0 where
  pub type : Text
  pub payload : Text
  pub source : Text

-- What a handler answers with: the value that is rendered, or bytes as they are.
pub data Body : Type 0 where
  health_body : Time → Body
  error_body : Text → Body
  event_body : Event → Body
  decision_body : Decision → Body
  decisions_body : List Decision → ℤ → ℤ → Body
  events_body : List Event → ℤ → ℤ → Body
  raw_body : Text → Body

pub record Response : Type 0 where
  pub status : ℕ
  pub body : Body

-- The services of the API server, and what it uses of gin and encoding/json: the binding of a
-- request body, the quoting of `%q` and the encoding of events and decisions.
pub record Api : Type 1 where
  pub Clock : Type 0
  pub now : Clock → Time × Clock
  pub new_uuid : Clock → Text × Clock
  pub pg : Pg
  pub redis : Redis
  pub broker : Broker
  pub topic : Text
  pub bind : Text → Result IngestRequest
  pub quote : Text → Text
  pub marshal_event : Event → Result Text
  pub marshal_decision : Decision → Result Text

pub record World (A : Api) : Type 0 where
  pub clock : A.Clock
  pub pg : A.pg.State
  pub redis : A.redis.State
  pub kafka : A.broker.State

abbrev pub status_ok : ℕ
status_ok = 200

abbrev pub status_created : ℕ
status_created = 201

abbrev pub status_bad_request : ℕ
status_bad_request = 400

abbrev pub status_not_found : ℕ
status_not_found = 404

abbrev pub status_internal : ℕ
status_internal = 500

abbrev pub respond : ℕ → Body → Response
respond status body = record { status = status; body = body }

-- The cached text, if the cache answers with one that is not empty.
unfoldable pub cache_hit : Result Text → Option Text
cache_hit (err e) = none
cache_hit (ok cached) = if is_empty cached then none else some cached

module _ (A : Api) where
  abbrev with_kafka : World A → Option Text × A.broker.State → Option Text × World A
  with_kafka w (refused, kafka') = (refused, record w { kafka = kafka' })

  -- The producer over the state of the server.
  abbrev pub client : Client
  client = record {
    World = World A;
    produce = λ w m. with_kafka w (A.broker.produce w.kafka m);
    commit = λ w m. with_kafka w (A.broker.commit w.kafka m);
    now = λ w. (let (t, clock') = A.now w.clock in (t, record w { clock = clock' }));
  }

  -- `health`
  unfoldable pub health : World A → Response × World A
  health w =
      let (t, clock') = A.now w.clock in
      (respond status_ok (health_body t), record w { clock = clock' })

  -- The event is published only after it was saved; an error there is not reported.
  unfoldable pub publish_saved : World A → Event → Option PgError → Response × World A
  publish_saved w ev (some e) =
      (respond status_internal (error_body (bytes "failed to save event")), w)
  publish_saved w ev none =
      (respond status_created (event_body ev), (publish client A.marshal_event A.topic w ev).1)

  -- The part of `ingestEvent` behind the validation.
  unfoldable pub store_event : World A → IngestRequest → Response × World A
  store_event w req =
      let (id, clock1) = A.new_uuid w.clock in
      let (now, clock2) = A.now clock1 in
      let ev : Event = record {
        id = id;
        type = req.type;
        payload = req.payload;
        source = req.source;
        timestamp = now;
      } in
      let (refused, pg') = Postgres.save_event A.pg w.pg ev in
      publish_saved (record w { clock = clock2; pg = pg' }) ev refused

  unfoldable pub ingest_bound : World A → Result IngestRequest → Response × World A
  ingest_bound w (err e) = (respond status_bad_request (error_body e), w)
  ingest_bound w (ok req) =
      if not (valid req.type)
      then (
        respond status_bad_request (error_body (bytes "unknown event type " ++ A.quote req.type)),
        w,
      )
      else store_event w req

  -- `ingestEvent`
  unfoldable pub ingest_event : World A → Text → Response × World A
  unfolding ingest_bound store_event publish_saved
  ingest_event w body = ingest_bound w (A.bind body)

  -- `listDecisions` and `listEvents`. The answer of an empty table is the empty list in both Go and
  -- the model, not null.
  unfoldable pub list_decisions : World A → Text → Text → Text → Response
  list_decisions w limit offset event_type =
      let lim = page_limit limit in
      let off = page_offset offset in
      elim (Postgres.list_decisions A.pg w.pg lim off event_type) [
        | error e ↦ respond status_internal (error_body (bytes "failed to fetch decisions"))
        | row items ↦ respond status_ok (decisions_body items lim off)
      ]

  unfoldable pub list_events : World A → Text → Text → Response
  list_events w limit offset =
      let lim = page_limit limit in
      let off = page_offset offset in
      elim (Postgres.list_events A.pg w.pg lim off) [
        | error e ↦ respond status_internal (error_body (bytes "failed to fetch events"))
        | row items ↦ respond status_ok (events_body items lim off)
      ]

  -- A decision that was found is cached for later reads; an error of the encoding or of the cache
  -- is dropped.
  unfoldable pub fill_cache : World A → Text → Result Text → World A
  fill_cache w id (err e) = w
  fill_cache w id (ok blob) = record w { redis = (Cache.cache_decision A.redis w.redis id blob).1 }

  unfoldable pub answer_decision : World A → Text → Answer Decision → Response × World A
  answer_decision w id (error no_rows) =
      (respond status_not_found (error_body (bytes "decision not found")), w)
  answer_decision w id (error (pg_error e)) =
      (respond status_internal (error_body (bytes "failed to fetch decision")), w)
  answer_decision w id (row d) =
      (respond status_ok (decision_body d), fill_cache w id (A.marshal_decision d))

  -- `getDecision`
  unfoldable pub get_decision : World A → Text → Response × World A
  unfolding cache_hit fill_cache answer_decision
  get_decision w id = elim (cache_hit (Cache.get_decision A.redis w.redis id)) [
    | some cached ↦ (respond status_ok (raw_body cached), w)
    | none ↦ answer_decision w id (Postgres.get_decision A.pg w.pg id)
  ]
