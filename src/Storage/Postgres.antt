-- ===== src/Storage/Postgres.antt =====
-- internal/storage/postgres.go: the statements over the tables `events` and `decisions`. The
-- server is a parameter; the rows and the parameters of the statements are those of the code.
pub mod Tables
pub mod Laws
use eventmind.Base.{
  ℕ, Text, bytes, Bool, true, false, Option, none, some, List, [], ◌∷◌, ℤ, Time, is_empty,
  if◌then◌else◌, map,
}
use eventmind.Events.{Event, EventType}
use eventmind.Agent.Tools.{Action}
use eventmind.Agent.Process.{Decision}

-- The errors that the callers tell apart: `pgx.ErrNoRows`, and any other.
pub data PgError : Type 0 where
  no_rows : PgError
  pg_error : Text → PgError

pub data Answer {ℓ} (A : Type ℓ) : Type ℓ where
  row : A → Answer A
  error : PgError → Answer A

-- A row of `events`. The source is `TEXT` that may be null, the payload `JSONB`.
pub record EventRow : Type 0 where
  pub id : Text
  pub type : Text
  pub payload : Text
  pub source : Text
  pub ts : Time

-- A row of `decisions`, in the order of the columns; `error` may be null.
pub record DecisionRow : Type 0 where
  pub id : Text
  pub event_id : Text
  pub event_type : Text
  pub action : Text
  pub reasoning : Text
  pub llm_prompt : Text
  pub llm_response : Text
  pub success : Bool
  pub error : Option Text
  pub duration_ms : ℕ
  pub llm_duration_ms : ℕ
  pub retry_count : ℤ
  pub status : Text
  pub processed_at : Time

-- The statements of the code. A select names the condition, if there is one, the limit and the
-- offset; decisions come in the order of falling `processed_at`, events of falling `ts`.
pub record Pg : Type 1 where
  pub State : Type 0
  pub insert_event : State → EventRow → Option PgError × State
  pub insert_decision : State → DecisionRow → Option PgError × State
  pub select_decision : State → Text → Answer DecisionRow
  pub select_decisions : State → Option Text → ℤ → ℤ → Answer (List DecisionRow)
  pub select_event : State → Text → Answer EventRow
  pub select_events : State → ℤ → ℤ → Answer (List EventRow)

-- `nilIfEmpty`
unfoldable pub nil_if_empty : Text → Option Text
nil_if_empty s = if is_empty s then none else some s

abbrev text_or_empty : Option Text → Text
text_or_empty none = []
text_or_empty (some s) = s

unfoldable pub event_row : Event → EventRow
event_row ev = record {
  id = ev.id;
  type = ev.type;
  payload = ev.payload;
  source = ev.source;
  ts = ev.timestamp;
}

unfoldable pub scan_event : EventRow → Event
scan_event r = record {
  id = r.id;
  type = r.type;
  payload = r.payload;
  source = r.source;
  timestamp = r.ts;
}

-- The parameters of the insert in `SaveDecision`.
unfoldable pub decision_row : Decision → DecisionRow
decision_row d = record {
  id = d.id;
  event_id = d.event_id;
  event_type = d.event_type;
  action = d.action;
  reasoning = d.reasoning;
  llm_prompt = d.llm_prompt;
  llm_response = d.llm_response;
  success = d.success;
  error = nil_if_empty d.error;
  duration_ms = d.duration_ms;
  llm_duration_ms = d.llm_duration_ms;
  retry_count = d.retry_count;
  status = d.status;
  processed_at = d.processed_at;
}

-- `scanDecision`
unfoldable pub scan_decision : DecisionRow → Decision
scan_decision r = record {
  id = r.id;
  event_id = r.event_id;
  event_type = r.event_type;
  action = r.action;
  reasoning = r.reasoning;
  llm_prompt = r.llm_prompt;
  llm_response = r.llm_response;
  success = r.success;
  error = text_or_empty r.error;
  duration_ms = r.duration_ms;
  llm_duration_ms = r.llm_duration_ms;
  retry_count = r.retry_count;
  status = r.status;
  processed_at = r.processed_at;
}

abbrev pub map_answer {ℓ κ} : {A : Type ℓ} {B : Type κ} → (A → B) → Answer A → Answer B
map_answer f (row a) = row (f a)
map_answer f (error e) = error e

module _ (P : Pg) where
  -- `SaveEvent`
  unfoldable pub save_event : P.State → Event → Option PgError × P.State
  save_event s ev = P.insert_event s (event_row ev)

  -- `SaveDecision`
  unfoldable pub save_decision : P.State → Decision → Option PgError × P.State
  save_decision s d = P.insert_decision s (decision_row d)

  -- `GetDecision`
  unfoldable pub get_decision : P.State → Text → Answer Decision
  get_decision s id = map_answer scan_decision (P.select_decision s id)

  -- `ListDecisions`: the condition on the event type is left out for the empty text.
  unfoldable pub list_decisions : P.State → ℤ → ℤ → Text → Answer (List Decision)
  list_decisions s limit offset event_type = map_answer (map scan_decision) (
      if is_empty event_type
      then P.select_decisions s none limit offset
      else P.select_decisions s (some event_type) limit offset)

  -- `GetEventByID`
  unfoldable pub get_event_by_id : P.State → Text → Answer Event
  get_event_by_id s id = map_answer scan_event (P.select_event s id)

  -- `ListEvents`
  unfoldable pub list_events : P.State → ℤ → ℤ → Answer (List Event)
  list_events s limit offset = map_answer (map scan_event) (P.select_events s limit offset)
