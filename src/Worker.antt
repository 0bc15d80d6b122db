-- ===== src/Worker.antt =====
-- cmd/worker/main.go: the handler that both loops call, the callback for permanent failures, and
-- the client that joins the loops to the handler's state. Logging is left out.
pub mod Handling
pub mod Redelivery
pub mod Interleaving
pub mod Loops
pub mod Config
pub mod Permanent
pub mod Runs
pub mod Concurrent
use eventmind.Base.{
  Text, bytes, [], ◌∷◌, Bool, true, false, Option, none, some, List, Result, ok, err, Time, pos,
  if◌then◌else◌,
}
use eventmind.Events.{Event}
use eventmind.Agent.Process.{Env, Decision}
use eventmind.Agent.Process as Agent
use eventmind.Cache.Server.{Redis}
use eventmind.Cache.{seen}
use eventmind.Storage.Postgres as Postgres
use eventmind.Storage.Postgres.{Pg}
use eventmind.Storage.Mongo as Documents
use eventmind.Storage.Mongo.{Mongo}
use eventmind.Messaging.Kafka.{Client, Broker}
use eventmind.Metrics.{Increment, events_processed, actions_taken, dlq_events, retry_attempts}

-- What the worker is connected to, and `json.Unmarshal` into an event.
pub record Services : Type 1 where
  pub env : Env
  pub redis : Redis
  pub pg : Pg
  pub mongo : Mongo
  pub broker : Broker
  pub unmarshal : Text → Option Event

-- The states of the services, and the increments of the counters.
pub record World (S : Services) : Type 0 where
  pub agent : S.env.World
  pub redis : S.redis.State
  pub pg : S.pg.State
  pub mongo : S.mongo.State
  pub kafka : S.broker.State
  pub counts : List Increment

unfoldable pub permanently_failed : Text
permanently_failed = bytes "permanently_failed"

unfoldable pub max_retries_exceeded : Text
max_retries_exceeded = bytes "max retries exceeded"

module _ (S : Services) where
  abbrev pub status_label : Bool → Text
  status_label success = if success then bytes "success" else bytes "failure"

  -- The counters after a decision: processed, and the action of a success.
  unfoldable pub count_decision : Event → Decision → List Increment → List Increment
  count_decision ev d counts =
      let processed = events_processed ev.type (status_label d.success) ∷ counts in
      if d.success then actions_taken d.action ∷ processed else processed

  abbrev pub count_failure : Event → Option Text → List Increment → List Increment
  count_failure ev none counts = counts
  count_failure ev (some e) counts = dlq_events ev.type ∷ counts

  -- The second half of the handler. The decision is never nil, and an error of its insert is only
  -- logged.
  unfoldable pub process_event : World S → Event → Option Text × World S
  process_event w ev =
      let (d, failed, agent') = Agent.process S.env w.agent ev in
      let (refused, pg') = Postgres.save_decision S.pg w.pg d in
      (
        failed,
        record w {
          agent = agent';
          pg = pg';
          counts = count_failure ev failed (count_decision ev d w.counts);
        },
      )

  -- What follows the idempotency check; if the check fails the event is processed.
  unfoldable pub after_check : World S → Event → Result Bool → Option Text × World S
  after_check w ev (err e) = process_event w ev
  after_check w ev (ok true) = (none, w)
  after_check w ev (ok false) = process_event w ev

  -- The raw document goes to Mongo in any case, and an error there is only logged.
  unfoldable pub store_raw : World S → Event → World S
  store_raw w ev =
      let (now, agent') = S.env.now w.agent in
      let (refused, mongo') = Documents.save_event S.mongo w.mongo ev now in
      record w { agent = agent'; mongo = mongo' }

  unfoldable pub handler : World S → Event → Option Text × World S
  handler w ev =
      let w1 = store_raw w ev in
      let (answer, redis') = seen S.redis w1.redis ev.id in
      after_check (record w1 { redis = redis' }) ev answer

  -- The decision of the callback: the fields that it does not set are zero.
  unfoldable pub permanent_failure : Event → Text → Time → Decision
  permanent_failure ev id processed = record {
    id = id;
    event_id = ev.id;
    event_type = ev.type;
    action = [];
    reasoning = [];
    llm_prompt = [];
    llm_response = [];
    success = false;
    error = max_retries_exceeded;
    duration_ms = 0;
    llm_duration_ms = 0;
    retry_count = pos 0;
    status = permanently_failed;
    processed_at = processed;
  }

  record_failure : World S → Event → World S
  record_failure w ev =
      let (id, agent1) = S.env.new_uuid w.agent in
      let (processed, agent2) = S.env.now agent1 in
      let (refused, pg') = Postgres.save_decision S.pg w.pg (permanent_failure ev id processed) in
      record w {
        agent = agent2;
        pg = pg';
        counts = retry_attempts (bytes "permanent_failure") ∷ w.counts;
      }

  -- The callback registered by `OnPermanentFailure`.
  unfoldable pub on_permanent_failure : World S → Text → World S
  unfolding record_failure
  on_permanent_failure w raw = elim (S.unmarshal raw) [ none ↦ w | some ev ↦ record_failure w ev ]

  abbrev with_kafka : World S → Option Text × S.broker.State → Option Text × World S
  with_kafka w (failed, kafka') = (failed, record w { kafka = kafka' })

  -- Both loops over the worker's state.
  abbrev pub client : Client
  client = record {
    World = World S;
    produce = λ w m. with_kafka w (S.broker.produce w.kafka m);
    commit = λ w m. with_kafka w (S.broker.commit w.kafka m);
    now = λ w. (let (t, agent') = S.env.now w.agent in (t, record w { agent = agent' }));
  }
