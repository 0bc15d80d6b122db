-- ===== src/Worker/Permanent.antt =====
-- The end of a dead letter that has used up its attempts.
use eventmind.Base.{
  ◌≡◌, refl, ◌∙◌, ap, text_eq_refl, bytes, Bool, false, none, some, ◌∷◌, ltb_ℤ, if◌then◌else◌,
}
use eventmind.Events.{Event}
use eventmind.Agent.Process.{Decision}
use eventmind.Storage.Postgres as Postgres
use eventmind.Storage.Postgres.Tables as Tables
use eventmind.Storage.Postgres.Laws.{get_decision-save_decision}
use eventmind.Messaging.Kafka.{Message}
use eventmind.Messaging.Kafka as Kafka
use eventmind.Messaging.Dlq.{DlqWorker, Flow, going, give_up, process}
use eventmind.Messaging.Dlq.Retries.{count_of, world_of}
use eventmind.Metrics.{retry_attempts}
use eventmind.Worker.{
  Services, World, handler, client, on_permanent_failure, record_failure, permanent_failure,
  permanently_failed,
}

module _ (S : Services) (worker : DlqWorker) where
  -- The round of the worker with its own handler and callback.
  abbrev pub round : World S → Message → Bool → Flow (World S)
  round w msg interrupted =
      process (client S) worker (handler S) S.unmarshal (some (on_permanent_failure S)) w msg
        interrupted

  -- The decision that the callback records.
  abbrev pub recorded : World S → Event → Decision
  recorded w ev =
      permanent_failure S ev (S.env.new_uuid w.agent).0 (S.env.now (S.env.new_uuid w.agent).1).0

  process_permanent :
      (w : World S) (msg : Message) (ev : Event) (interrupted : Bool)
      → S.unmarshal msg.value ≡ some ev
      → ltb_ℤ (count_of msg) worker.max_retry ≡ false
      → let w' = record_failure S w ev in
        round w msg interrupted ≡ going (record w' { kafka = (S.broker.commit w.kafka msg).1 })
  unfolding process give_up on_permanent_failure record_failure Kafka.commit
  process_permanent w msg ev interrupted good over =
      rw (over, process) (rw (good, on_permanent_failure) refl)

  -- When the worker takes a letter of a parseable event whose count has reached the maximum, and
  -- Postgres behaves as documented and takes the insert, then the table has under a fresh id a
  -- decision of the event with the status permanently_failed, the letter is committed, nothing
  -- else is done to the queues, and the failure is counted.
  pub round_permanent :
      (T : Tables.IsLawful S.pg) (w : World S) (msg : Message) (ev : Event) (interrupted : Bool)
      → S.unmarshal msg.value ≡ some ev
      → ltb_ℤ (count_of msg) worker.max_retry ≡ false
      → (Postgres.save_decision S.pg w.pg (recorded w ev)).0 ≡ none
      → let w' = world_of (round w msg interrupted) in
        (T.decisions w'.pg (recorded w ev).id ≡ some (Postgres.decision_row (recorded w ev)))
        × ((recorded w ev).event_id ≡ ev.id)
        × ((recorded w ev).status ≡ permanently_failed)
        × (w'.kafka ≡ (S.broker.commit w.kafka msg).1)
        × (w'.counts ≡ retry_attempts (bytes "permanent_failure") ∷ w.counts)
  unfolding record_failure permanent_failure
  round_permanent T w msg ev interrupted good over taken =
      let whole = ap world_of (process_permanent w msg ev interrupted good over) in
      let d = recorded w ev in
      let stored = (get_decision-save_decision S.pg T w.pg d taken).1 d.id in
      (
        ap (λ v. T.decisions v.pg d.id) whole
            ∙ stored
            ∙ ap (λ b. if b then some (Postgres.decision_row d) else T.decisions w.pg d.id)
                (text_eq_refl d.id),
        refl,
        refl,
        ap (λ v. v.kafka) whole,
        ap (λ v. v.counts) whole,
      )
