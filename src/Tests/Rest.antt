-- ===== src/Tests/Rest.antt =====
-- The API server over the services in memory.
use eventmind.Base.{
  ◌≡◌, refl, ℕ, ◌+◌, bytes, text_eq, true, none, some, [], ◌∷◌, ◌++◌, ok, err, pos, is_empty,
  if◌then◌else◌,
}
use eventmind.Events.{Event, order_placed, valid}
use eventmind.Agent.Process.{Decision, completed}
use eventmind.Storage.Postgres as Postgres
use eventmind.Storage.Postgres.{row, event_row, decision_row, scan_decision}
use eventmind.Storage.Postgres.Tables.{kept_row}
use eventmind.Rest.Handlers.{
  IngestRequest, Api, World, status_created, event_body, ingest_event, ingest_bound, store_event,
  publish_saved,
}
use eventmind.Rest.Handlers.Ingest.{Outcome, ingest_event-Outcome, ingest_event-stored}
use eventmind.Tests.Memory.{
  find, no_queues, no_entries, queue_broker, memory_redis, memory_pg, memory_pg-IsLawful,
}

abbrev pub order_request : IngestRequest
order_request = record { type = order_placed; payload = bytes "{}"; source = [] }

-- Every body is bound to the same request; the clock is in seconds.
abbrev pub api : Api
api = record {
  Clock = ℕ;
  now = λ c. (c, c + 1);
  new_uuid = λ c. (bytes "e9", c + 1);
  pg = memory_pg;
  redis = memory_redis;
  broker = queue_broker;
  topic = bytes "events";
  bind = λ body. if is_empty body then err (bytes "EOF") else ok order_request;
  quote = λ text. b'"' ∷ (text ++ b'"' ∷ []);
  marshal_event = λ ev. ok ev.payload;
  marshal_decision = λ d. ok (bytes "{}");
}

abbrev pub start_state : World api
start_state = record { clock = 7; pg = no_entries; redis = []; kafka = no_queues }

ingest_event-Outcome_example :
    Outcome api start_state
      (ingest_event api start_state (bytes "body")).0
      (ingest_event api start_state (bytes "body")).1
ingest_event-Outcome_example = ingest_event-Outcome api start_state (bytes "body")

is_created : (ingest_event api start_state (bytes "body")).0.status ≡ status_created
unfolding ingest_event ingest_bound store_event publish_saved valid text_eq Postgres.save_event
is_created = refl

ingest_event-stored_example :
    (ev : Event) × ((ingest_event api start_state (bytes "body")).0.body ≡ event_body ev)
    × (find ev.id (ingest_event api start_state (bytes "body")).1.pg.events
        ≡ some (kept_row none (event_row ev)))
ingest_event-stored_example =
    ingest_event-stored api memory_pg-IsLawful start_state (bytes "body") is_created

abbrev pub stored_decision : Decision
stored_decision = record {
  id = bytes "d1";
  event_id = bytes "e1";
  event_type = order_placed;
  action = bytes "send_notification";
  reasoning = [];
  llm_prompt = [];
  llm_response = [];
  success = true;
  error = [];
  duration_ms = 3;
  llm_duration_ms = 2;
  retry_count = pos 0;
  status = completed;
  processed_at = 0;
}

-- One decision in Postgres, and nothing in the cache.
abbrev pub with_decision : World api
with_decision = record start_state {
  pg = record no_entries { decisions = (bytes "d1", decision_row stored_decision) ∷ [] };
}

pub in_postgres :
    Postgres.get_decision memory_pg with_decision.pg (bytes "d1") ≡ row stored_decision
unfolding Postgres.get_decision scan_decision decision_row text_eq Postgres.nil_if_empty
in_postgres = refl
