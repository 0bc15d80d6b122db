-- ===== src/Tests/Memory.antt =====
-- Kafka, Redis and Postgres as lists in memory. They behave as documented.
use eventmind.Base.{
  ◌≡◌, refl, ◌⊎◌, inl, inr, Text, bytes, text_eq, Option, none, some, List, [], ◌∷◌, ◌++◌, ok,
  if◌then◌else◌, Time, ◌/◌, ◌*◌, arith, ℕ, ◌≢◌, Bool-cases,
}
use eventmind.Events.{payment_failed}
use eventmind.Messaging.Kafka.{Message, Client, Handler, log_unless, IsLawful, Broker, IsBroker}
use eventmind.Cache.Server as Server
use eventmind.Cache.Server.{Redis, Lookup, value, nil, failed, is_none, kept, answer}
use eventmind.Storage.Postgres.{PgError, no_rows, pg_error, row, error, EventRow, DecisionRow, Pg}
use eventmind.Storage.Postgres.Tables as Tables
use eventmind.Storage.Postgres.Tables.{IsNear, as_read, kept_row, one_row}
use eventmind.Storage.Mongo.Laws as MongoLaws
use eventmind.Storage.Mongo.{Document, Mongo}

-- The queues: what was published and committed, and a clock.
pub record Queues : Type 0 where
  pub published : List Message
  pub committed : List Message
  pub time : Time

abbrev pub no_queues : Queues
no_queues = record { published = []; committed = []; time = 1735689600000000000 }

abbrev pub send : Option Text → Queues → Message → Option Text × Queues
send refusal w m = (refusal, record w { published = log_unless refusal w.published m })

abbrev pub note : Queues → Message → Option Text × Queues
note w m = (none, record w { committed = w.committed ++ m ∷ [] })

-- A client that takes every message, or refuses every one.
abbrev pub queue_client : Option Text → Client
queue_client refusal = record {
  World = Queues;
  produce = send refusal;
  commit = note;
  now = λ w. (w.time, record w { time = w.time });
}

abbrev pub queue_client-IsLawful : (refusal : Option Text) → IsLawful (queue_client refusal)
queue_client-IsLawful refusal = record {
  published = λ w. w.published;
  committed = λ w. w.committed;
  published-produce = λ w m. refl;
  committed-produce = λ w m. refl;
  published-commit = λ w m. refl;
  committed-commit = λ w m. refl;
  published-now = λ w. refl;
  committed-now = λ w. refl;
}

abbrev pub queue_broker : Broker
queue_broker = record { State = Queues; produce = send none; commit = note }

abbrev pub queue_broker-IsBroker : IsBroker queue_broker
queue_broker-IsBroker = record {
  published = λ w. w.published;
  committed = λ w. w.committed;
  published-produce = λ w m. refl;
  committed-produce = λ w m. refl;
  published-commit = λ w m. refl;
  committed-commit = λ w m. refl;
}

-- A handler that always answers the same.
abbrev pub constant_handler : (refusal : Option Text) → Option Text → Handler (queue_client refusal)
constant_handler refusal outcome w ev = (outcome, w)

-- The first value that is stored for a key.
abbrev pub find : {V : Type 0} → Text → List (Text × V) → Option V
find k [] = none
find k ((j, v) ∷ rest) = if text_eq k j then some v else find k rest

abbrev pub lookup : Option Text → Lookup
lookup = answer

abbrev pub memory_redis : Redis
memory_redis = record {
  State = List (Text × Text);
  set_nx = λ s k v ttl. (ok (is_none (find k s)), (k, kept (find k s) v) ∷ s);
  set = λ s k v ttl. (none, (k, v) ∷ s);
  get = λ s k. answer (find k s);
  del = λ s keys. (none, []);
}

pub find-kept :
    (s : List (Text × Text)) (k v : Text) (ttl : ℕ) (j : Text)
    → find j s ≢ none
    → find j ((k, kept (find k s) v) ∷ s) ≢ none
find-kept s k v ttl j there = elim (Bool-cases (text_eq j k)) [
  | inl same ↦ rw same (λ e. cc)
  | inr other ↦ rw other there
]

abbrev pub memory_redis-IsLawful : Server.IsLawful memory_redis
memory_redis-IsLawful = record {
  live = λ s k. find k s;
  set_nx_lem = λ s k v ttl. inr (refl, λ j. refl);
  set_nx_keeps = find-kept;
  set_lem = λ s k v ttl. inr (refl, λ j. refl);
  get_lem = λ s k. inr refl;
}

pub record Rows : Type 0 where
  pub events : List (Text × EventRow)
  pub decisions : List (Text × DecisionRow)

abbrev pub no_entries : Rows
no_entries = record { events = []; decisions = [] }

abbrev insert_row : Rows → DecisionRow → Option EventRow → Option PgError × Rows
insert_row s r none = (some (pg_error (bytes "foreign key")), s)
insert_row s r (some ev) = (none, record s { decisions = (r.id, r) ∷ s.decisions })

-- A time in whole microseconds.
abbrev pub whole_micros : Time → Time
whole_micros t = t / 1000 * 1000

pub whole_micros-IsNear : (t : Time) → IsNear t (whole_micros t)
whole_micros-IsNear t = (omega arith, omega arith)

abbrev pub memory_pg : Pg
memory_pg = record {
  State = Rows;
  insert_event =
      λ s r. (none, record s { events = (r.id, kept_row (find r.id s.events) r) ∷ s.events });
  insert_decision = λ s r. insert_row s r (find r.event_id s.events);
  select_decision = λ s id. one_row (as_read whole_micros (find id s.decisions));
  select_decisions = λ s type limit offset. row [];
  select_event = λ s id. error no_rows;
  select_events = λ s limit offset. row [];
}

IsInserted : Rows → DecisionRow → Option PgError × Rows → Type 0
IsInserted s r (refused, s') =
    ((e : PgError) × (refused ≡ some e))
    ⊎ ((refused ≡ none)
        × ((id : Text)
            → find id s'.decisions ≡ (if text_eq id r.id then some r else find id s.decisions)))

insert_row-IsInserted :
    (s : Rows) (r : DecisionRow) (ev : Option EventRow) → IsInserted s r (insert_row s r ev)
unfolding IsInserted
insert_row-IsInserted s r none = inl (pg_error (bytes "foreign key"), refl)
insert_row-IsInserted s r (some ev) = inr (refl, λ id. refl)

pub insert_row_lem :
    (s : Rows) (r : DecisionRow)
    → ((e : PgError) × ((memory_pg.insert_decision s r).0 ≡ some e))
      ⊎ (((memory_pg.insert_decision s r).0 ≡ none)
          × ((id : Text)
              → find id (memory_pg.insert_decision s r).1.decisions
                ≡ (if text_eq id r.id then some r else find id s.decisions)))
unfolding IsInserted
insert_row_lem s r = insert_row-IsInserted s r (find r.event_id s.events)

pub insert_row_missing :
    (s : Rows) (r : DecisionRow)
    → find r.event_id s.events ≡ none
    → ((e : PgError) × ((memory_pg.insert_decision s r).0 ≡ some e))
      × ((id : Text) → find id (memory_pg.insert_decision s r).1.decisions ≡ find id s.decisions)
insert_row_missing s r missing = rw missing ((pg_error (bytes "foreign key"), refl), λ id. refl)

abbrev pub memory_pg-IsLawful : Tables.IsLawful memory_pg
memory_pg-IsLawful = record {
  events = λ s id. find id s.events;
  decisions = λ s id. find id s.decisions;
  kept_time = whole_micros;
  kept_time-IsNear = whole_micros-IsNear;
  insert_event_lem = λ s r. inr (refl, λ id. refl);
  insert_decision_lem = insert_row_lem;
  foreign_key = insert_row_missing;
  select_decision_lem = λ s id. inr refl;
}

-- Mongo, with JSON values as their texts.
abbrev pub memory_mongo : Mongo
memory_mongo = record {
  State = List (Text × Document Text);
  Json = Text;
  decode_any = λ text. some text;
  upsert = λ s id doc. (none, (id, doc) ∷ s);
  find_one = λ s id. ok (find id s);
  find = λ s type limit offset. ok [];
}

-- A database with one event and no decision.
abbrev pub one_event : Text → Rows
one_event id = record {
  events =
      (id, record { id = id; type = payment_failed; payload = bytes "{}"; source = []; ts = 0 })
      ∷ [];
  decisions = [];
}

abbrev pub memory_mongo-IsLawful : MongoLaws.IsLawful memory_mongo
memory_mongo-IsLawful = record {
  documents = λ s id. find id s;
  upsert_lem = λ s id doc. inr (refl, λ other. refl);
  find_one_lem = λ s id. inr refl;
}
