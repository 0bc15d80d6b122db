-- ===== src/Worker/Loops.antt =====
-- The worker meets what the loops assume: its client is lawful if the broker is, its handler leaves
-- the queues alone, and so does its callback for permanent failures.
use eventmind.Base.{◌≡◌, refl, ap, inl, inr, Text, some, Option-cases}
use eventmind.Events.{Event}
use eventmind.Messaging.Kafka.{IsLawful, IsApart, IsBroker}
use eventmind.Messaging.Dlq.{DlqWorker, give_up}
use eventmind.Messaging.Dlq.Retries.{IsQuiet}
use eventmind.Messaging.Dlq.Runs.{IsStill}
use eventmind.Worker.{Services, World, handler, client, on_permanent_failure}
use eventmind.Worker.Handling.{guard, guard-cases, handler_duplicate, handler_fresh}

module _ (S : Services) (L : IsBroker S.broker) where
  abbrev pub client-IsLawful : IsLawful (client S)
  client-IsLawful = record {
    published = λ w. L.published w.kafka;
    committed = λ w. L.committed w.kafka;
    published-produce = λ w m. L.published-produce w.kafka m;
    committed-produce = λ w m. L.committed-produce w.kafka m;
    published-commit = λ w m. L.published-commit w.kafka m;
    committed-commit = λ w m. L.committed-commit w.kafka m;
    published-now = λ w. refl;
    committed-now = λ w. refl;
  }

  kafka-handler : (w : World S) (ev : Event) → (handler S w ev).1.kafka ≡ w.kafka
  kafka-handler w ev = elim (guard-cases (guard S w ev)) [
    | inl again ↦ (handler_duplicate S w ev again).3
    | inr fresh ↦ (handler_fresh S w ev fresh).3
  ]

  pub handler-IsApart : IsApart (client S) client-IsLawful (handler S)
  handler-IsApart = record {
    published-handler = λ w ev. ap L.published (kafka-handler w ev);
    committed-handler = λ w ev. ap L.committed (kafka-handler w ev);
  }

  kafka-on_permanent_failure :
      (w : World S) (raw : Text) → (on_permanent_failure S w raw).kafka ≡ w.kafka
  unfolding on_permanent_failure
  kafka-on_permanent_failure w raw = elim (Option-cases (S.unmarshal raw)) [
    | inl bad ↦ rw (bad, on_permanent_failure) refl
    | inr (ev, good) ↦ rw (good, on_permanent_failure) refl
  ]

  pub on_permanent_failure-IsQuiet :
      (worker : DlqWorker)
      → IsQuiet
          (client S)
          client-IsLawful
          worker
          (handler S)
          S.unmarshal
          (some (on_permanent_failure S))
  unfolding give_up
  on_permanent_failure-IsQuiet worker w msg =
      ap L.published (kafka-on_permanent_failure w msg.value)

  pub on_permanent_failure-IsStill :
      (worker : DlqWorker)
      → IsStill
          (client S)
          client-IsLawful
          worker
          (handler S)
          S.unmarshal
          (some (on_permanent_failure S))
  unfolding give_up
  on_permanent_failure-IsStill worker w msg =
      ap L.committed (kafka-on_permanent_failure w msg.value)
