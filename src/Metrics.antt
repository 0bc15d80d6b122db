-- ===== src/Metrics.antt =====
-- internal/metrics/metrics.go: the counters of the worker. Prometheus is not modelled: the state is
-- the list of the increments, each with its labels, the newest first.
use eventmind.Base.{Text, bytes, List, [], ◌∷◌}

pub data Increment : Type 0 where
  events_processed : Text → Text → Increment
  actions_taken : Text → Increment
  dlq_events : Text → Increment
  retry_attempts : Text → Increment

-- The name of the counter in Prometheus, and the labels with their values.
unfoldable pub series : Increment → Text × List (Text × Text)
series (events_processed event_type status) = (
  bytes "eventmind_events_processed_total",
  (bytes "event_type", event_type) ∷ (bytes "status", status) ∷ [],
)
series (actions_taken action) =
    (bytes "eventmind_actions_taken_total", (bytes "action", action) ∷ [])
series (dlq_events event_type) =
    (bytes "eventmind_dlq_events_total", (bytes "event_type", event_type) ∷ [])
series (retry_attempts outcome) =
    (bytes "eventmind_retry_attempts_total", (bytes "outcome", outcome) ∷ [])
