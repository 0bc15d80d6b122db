-- ===== src/Pipeline/Journey.antt =====
-- The journey of an event from the request to the answer that shows its decision.
use eventmind.Base.{
  Time, ◌≡◌, ◌≢◌, refl, ◌∙◌, ap, sym, subst, ◌⊎◌, inl, inr, Text, true, none, some, Option-cases,
  ok,
}
use eventmind.Events.{Event}
use eventmind.Agent.Process.{Decision}
use eventmind.Agent.Process.Laws.{process-IsResult}
use eventmind.Cache as Cache
use eventmind.Storage.Postgres as Postgres
use eventmind.Storage.Postgres.{pg_error, row, error}
use eventmind.Storage.Postgres.Tables as Tables
use eventmind.Storage.Postgres.Laws.{IsReadBack, get_decision-save_decision}
use eventmind.Messaging.Kafka.{Message, IsBroker, commit}
use eventmind.Messaging.Consumer.{to_dlq, handle, consume}
use eventmind.Rest.Handlers.{
  status_ok, status_created, status_internal, respond, event_body, decision_body, cache_hit,
  answer_decision,
}
use eventmind.Rest.Handlers.Ingest.{ingest_event-stored}
use eventmind.Rest.Handlers.Reading.{get_decision_miss}
use eventmind.Worker.{Services, World, client, handler}
use eventmind.Worker.Handling.{guard, processed, handler_fresh}
use eventmind.Pipeline.{ApiParts, Site, api, api_world, post, work, read}
use eventmind.Pipeline.Offered.{message_of, IsOffered, same_event, Created, IsOffered-post}

module _ (S : Services) where
  -- The consume loop changes Postgres through its handler only.
  pg-handle :
      (dlq_topic : Text) (w : World S) (msg : Message) (ev : Event)
      → (handle (client S) dlq_topic (handler S) w msg ev).pg ≡ (handler S w ev).1.pg
  unfolding handle to_dlq
  pg-handle dlq_topic w msg ev = elim (Option-cases (handler S w ev).0) [
    | inl fine ↦ rw (fine, handle) refl
    | inr (e, bad) ↦ rw (bad, handle) refl
  ]

  pg-consume :
      (dlq_topic : Text) (w : World S) (msg : Message) (ev : Event)
      → S.unmarshal msg.value ≡ some ev
      → (consume (client S) dlq_topic (handler S) S.unmarshal w msg).pg ≡ (handler S w ev).1.pg
  unfolding consume commit
  pg-consume dlq_topic w msg ev good = rw (good, consume) (pg-handle dlq_topic w msg ev)

  module _ (P : ApiParts) where
    -- The row of the event, its own one or an older one with its id.
    abbrev pub IsKept : Tables.IsLawful S.pg → Site S P → Event → Site S P → Type 0
    IsKept T site ev site1 =
        T.events site1.worker.pg ev.id
        ≡ some (Tables.kept_row (T.events site.worker.pg ev.id) (Postgres.event_row ev))

    IsKept-post :
        (T : Tables.IsLawful S.pg) (site : Site S P) (body : Text) (ev : Event)
        → Created S P site body ev
        → IsKept T site ev (post S P site body).1
    unfolding post
    IsKept-post T site body ev created =
        let (other, answer, stored) =
          ingest_event-stored (api S P) T (api_world S P site) body (ap (λ a. a.status) created) in
        subst (λ e. IsKept T site e (post S P site body).1)
          (same_event S P other ev (sym answer ∙ ap (λ a. a.body) created)) stored

    -- The answer shows the decision, with a time less than a microsecond off, or Postgres failed.
    abbrev pub IsShown : Site S P → Decision → Type 0
    IsShown site d =
        ((t : Time) × Tables.IsNear d.processed_at t
          × ((read S P site d.id).0
              ≡ respond status_ok (decision_body (record d { processed_at = t }))))
        ⊎ ((read S P site d.id).0.status ≡ status_internal)

    IsShown-case :
        (T : Tables.IsLawful S.pg) (site : Site S P) (d : Decision)
        → cache_hit (Cache.get_decision S.redis site.worker.redis d.id) ≡ none
        → IsReadBack S.pg T site.worker.pg d
        → IsShown site d
    unfolding read answer_decision
    IsShown-case T site d miss (inl (e, failed)) = inr (
        ap (λ r. r.0.status)
          (get_decision_miss (api S P) (api_world S P site) d.id miss
            ∙ ap (answer_decision (api S P) (api_world S P site) d.id) failed))
    IsShown-case T site d miss (inr (t, near, found)) = inl (
      t,
      near,
      ap (λ r. r.0)
          (get_decision_miss (api S P) (api_world S P site) d.id miss
            ∙ ap (answer_decision (api S P) (api_world S P site) d.id) found),
    )

    -- The decision that the agent makes of the event, after the worker has consumed its message.
    saved_work :
        (dlq_topic : Text) (site : Site S P) (msg : Message) (ev : Event)
        → S.unmarshal msg.value ≡ some ev
        → guard S site.worker ev ≢ ok true
        → (work S P dlq_topic site msg).worker.pg
          ≡ (Postgres.save_decision S.pg site.worker.pg (processed S site.worker ev).0).1
    unfolding work
    saved_work dlq_topic site msg ev good fresh =
        pg-consume dlq_topic site.worker msg ev good ∙ (handler_fresh S site.worker ev fresh).1

    -- The worker after the request, the decision that the agent then makes, and the state after the
    -- worker has consumed the message.
    abbrev pub after_post : Site S P → Text → World S
    after_post site body = (post S P site body).1.worker

    abbrev pub decision_of : Site S P → Text → Event → Decision
    decision_of site body ev = (processed S (after_post site body) ev).0

    abbrev pub after_work : Text → Site S P → Text → Event → Text → Site S P
    after_work dlq_topic site body ev value =
        work S P dlq_topic (post S P site body).1 (message_of S P ev value)

    -- The event that the worker decodes from the message need only have the id of the posted one.
    pub read-work-post :
        (B : IsBroker S.broker) (T : Tables.IsLawful S.pg) (dlq_topic : Text) (site : Site S P)
        (body value : Text) (ev got : Event)
        → (post S P site body).0 ≡ respond status_created (event_body ev)
        → P.marshal_event ev ≡ ok value
        → S.unmarshal value ≡ some got
        → got.id ≡ ev.id
        → guard S (after_post site body) got ≢ ok true
        → (Postgres.save_decision S.pg (after_post site body).pg (decision_of site body got)).0
          ≡ none
        → cache_hit (
            Cache.get_decision S.redis
              (after_work dlq_topic site body ev value).worker.redis
              (decision_of site body got).id)
          ≡ none
        → IsOffered S P B site ev value (post S P site body).1
          × IsKept T site ev (post S P site body).1
          × ((decision_of site body got).event_id ≡ ev.id)
          × IsShown (after_work dlq_topic site body ev value) (decision_of site body got)
    read-work-post B T dlq_topic site body value ev got created encoded decoded same_id fresh saved
          miss =
        let site1 = (post S P site body).1 in
        let m = message_of S P ev value in
        let d = (processed S site1.worker got).0 in
        let found = (get_decision-save_decision S.pg T site1.worker.pg d saved).0 in
        (
          IsOffered-post S P B site body value ev created encoded,
          IsKept-post T site body ev created,
          (process-IsResult S.env (S.env.now site1.worker.agent).1 got).0.event_id ∙ same_id,
          IsShown-case T (work S P dlq_topic site1 m) d miss (
              subst (λ s. IsReadBack S.pg T s d)
                (sym (saved_work dlq_topic site1 m got decoded fresh)) found),
        )
