-- ===== src/Worker/Handling.antt =====
-- What the handler does with an event, by the answer of the idempotency guard.
use eventmind.Base.{
  ◌≡◌, refl, ◌∙◌, sym, subst, ap, ◌⊎◌, inl, inr, ◌≢◌, Text, bytes, Bool, true, false, Option, none,
  some, List, ◌∷◌, Result, ok, err,
}
use eventmind.Events.{Event}
use eventmind.Agent.Process.{Env, Decision}
use eventmind.Agent.Process as Agent
use eventmind.Agent.Process.Laws.{process-IsResult}
use eventmind.Agent.Tools.{valid}
use eventmind.Cache.{seen}
use eventmind.Cache.Server as Server
use eventmind.Cache.Laws.{IsMarked, seen-ok}
use eventmind.Storage.Postgres as Postgres
use eventmind.Storage.Postgres.Tables as Tables
use eventmind.Metrics.{Increment, events_processed, actions_taken, dlq_events}
use eventmind.Worker.{
  Services, World, count_decision, count_failure, process_event, after_check, store_raw, handler,
}

pub guard-cases : (answer : Result Bool) → (answer ≡ ok true) ⊎ (answer ≢ ok true)
guard-cases (ok true) = inl refl
guard-cases (ok false) = inr (λ e. cc)
guard-cases (err e) = inr (λ e. cc)

module _ (S : Services) where
  -- The answer of the guard in the course of a call of the handler.
  abbrev pub guard : World S → Event → Result Bool
  guard w ev = (seen S.redis w.redis ev.id).0

  -- The state in which the guard has answered: the raw document is stored.
  abbrev pub checked : World S → Event → World S
  checked w ev = record (store_raw S w ev) { redis = (seen S.redis w.redis ev.id).1 }

  after_check-of_fresh :
      (w : World S) (ev : Event) (answer : Result Bool)
      → answer ≢ ok true
      → after_check S w ev answer ≡ process_event S w ev
  unfolding after_check
  after_check-of_fresh w ev (err e) fresh = refl
  after_check-of_fresh w ev (ok true) fresh = absurd (fresh refl)
  after_check-of_fresh w ev (ok false) fresh = refl

  handler_lem :
      (w : World S) (ev : Event) → handler S w ev ≡ after_check S (checked w ev) ev (guard w ev)
  unfolding handler store_raw
  handler_lem w ev = refl

  handler-of_duplicate :
      (w : World S) (ev : Event) → guard w ev ≡ ok true → handler S w ev ≡ (none, checked w ev)
  unfolding after_check
  handler-of_duplicate w ev seen_before =
      handler_lem w ev ∙ ap (after_check S (checked w ev) ev) seen_before

  handler-of_fresh :
      (w : World S) (ev : Event)
      → guard w ev ≢ ok true
      → handler S w ev ≡ process_event S (checked w ev) ev
  handler-of_fresh w ev fresh = handler_lem w ev ∙ after_check-of_fresh (checked w ev) ev _ fresh

  -- A duplicate is dropped: there is no error, and neither the model nor the decisions, the
  -- counters or the queues are touched. Only the raw document is stored again.
  pub handler_duplicate :
      (w : World S) (ev : Event)
      → guard w ev ≡ ok true
      → let (failed, w') = handler S w ev in
        (failed ≡ none)
        × (w'.pg ≡ w.pg)
        × (w'.counts ≡ w.counts)
        × (w'.kafka ≡ w.kafka)
        × (w'.agent ≡ (S.env.now w.agent).1)
  unfolding store_raw
  handler_duplicate w ev seen_before =
      let whole = handler-of_duplicate w ev seen_before in
      (
        ap (λ r. r.0) whole,
        ap (λ r. r.1.pg) whole,
        ap (λ r. r.1.counts) whole,
        ap (λ r. r.1.kafka) whole,
        ap (λ r. r.1.agent) whole,
      )

  -- What `Agent.Process` returns in the course of a call of the handler.
  abbrev pub processed : World S → Event → Decision × Option Text × S.env.World
  processed w ev = Agent.process S.env (S.env.now w.agent).1 ev

  -- The counters and the error of an event that is processed fit together.
  abbrev pub IsCounted : World S → Event → Option Text → List Increment → Type 0
  IsCounted w ev failed counts =
      ((failed ≡ none)
        × (valid (processed w ev).0.action ≡ true)
        × (counts
            ≡ actions_taken (processed w ev).0.action
              ∷ events_processed ev.type (bytes "success")
              ∷ w.counts))
      ⊎ ((e : Text) × (failed ≡ some e)
          × (counts ≡ dlq_events ev.type ∷ events_processed ev.type (bytes "failure") ∷ w.counts))

  counts-IsCounted :
      (w : World S) (ev : Event)
      → IsCounted w ev
          (processed w ev).1
          (count_failure S ev (processed w ev).1 (count_decision S ev (processed w ev).0 w.counts))
  unfolding count_decision
  counts-IsCounted w ev = elim (process-IsResult S.env (S.env.now w.agent).1 ev).1 [
    | inl (response, answer, s) ↦ inl (s.no_error, s.is_valid, rw s.no_error (rw s.success refl))
    | inr (reason, f) ↦ inr (f.message, f.has_error, rw f.has_error (rw f.success refl))
  ]

  -- For an event that the guard does not call a duplicate, the error of the handler is that of the
  -- agent, the decision of the agent goes to Postgres, the queues stay, and the counters show
  -- either a success with its valid action or a failure counted for the dead letter queue.
  pub handler_fresh :
      (w : World S) (ev : Event)
      → guard w ev ≢ ok true
      → let (failed, w') = handler S w ev in
        (failed ≡ (processed w ev).1)
        × (w'.pg ≡ (Postgres.save_decision S.pg w.pg (processed w ev).0).1)
        × (w'.agent ≡ (processed w ev).2)
        × (w'.kafka ≡ w.kafka)
        × IsCounted w ev failed w'.counts
  unfolding process_event store_raw
  handler_fresh w ev fresh =
      let whole = handler-of_fresh w ev fresh in
      (
        ap (λ r. r.0) whole,
        ap (λ r. r.1.pg) whole,
        ap (λ r. r.1.agent) whole,
        ap (λ r. r.1.kafka) whole,
        subst (λ (r : Option Text × World S). IsCounted w ev r.0 r.1.counts) (sym whole)
            (counts-IsCounted w ev),
      )

  -- Whatever happens, the guard knows the event afterwards if it answered.
  pub handler-IsMarked :
      (L : Server.IsLawful S.redis) (w : World S) (ev : Event) (b : Bool)
      → guard w ev ≡ ok b
      → IsMarked S.redis L (handler S w ev).1.redis ev.id
  unfolding process_event store_raw after_check
  handler-IsMarked L w ev true answer =
      subst (λ r. IsMarked S.redis L r ev.id)
        (sym (ap (λ r. r.1.redis) (handler_lem w ev ∙ ap (after_check S (checked w ev) ev) answer)))
        (seen-ok S.redis L w.redis ev.id true answer).marked
  handler-IsMarked L w ev false answer =
      subst (λ r. IsMarked S.redis L r ev.id)
        (sym (ap (λ r. r.1.redis) (handler_lem w ev ∙ ap (after_check S (checked w ev) ev) answer)))
        (seen-ok S.redis L w.redis ev.id false answer).marked

  save_decision-foreign_key :
      (T : Tables.IsLawful S.pg) (s : S.pg.State) (d : Decision) (event_id : Text)
      → d.event_id ≡ event_id
      → T.events s event_id ≡ none
      → (id : Text) → T.decisions (Postgres.save_decision S.pg s d).1 id ≡ T.decisions s id
  unfolding Postgres.save_decision Postgres.decision_row
  save_decision-foreign_key T s d event_id same missing id =
      (T.foreign_key s (Postgres.decision_row d) (ap (T.events s) same ∙ missing)).1 id

  -- If Postgres behaves as documented and has no row of the event, the handler leaves the table of
  -- decisions as it was.
  pub handler-foreign_key :
      (T : Tables.IsLawful S.pg) (w : World S) (ev : Event)
      → T.events w.pg ev.id ≡ none
      → (id : Text) → T.decisions (handler S w ev).1.pg id ≡ T.decisions w.pg id
  handler-foreign_key T w ev missing id = elim (guard-cases (guard w ev)) [
    | inl again ↦ ap (λ s. T.decisions s id) (handler_duplicate w ev again).1
    | inr fresh ↦
        ap (λ s. T.decisions s id) (handler_fresh w ev fresh).1
        ∙ save_decision-foreign_key T w.pg (processed w ev).0 ev.id
            (process-IsResult S.env (S.env.now w.agent).1 ev).0.event_id missing id
  ]
