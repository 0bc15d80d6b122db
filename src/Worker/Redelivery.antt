-- ===== src/Worker/Redelivery.antt =====
-- The handler called again for an event: both loops share the guard, so a retry from the dead letter
-- queue meets the mark that the first attempt has left.
use eventmind.Base.{
  ◌≡◌, refl, ◌∙◌, sym, subst, ap, inl, inr, Text, Bool, true, Option, none, some, ok, ℤ,
  Option-cases,
}
use eventmind.Events.{Event}
use eventmind.Cache.Server as Server
use eventmind.Cache.Laws.{IsMarked, seen-of_marked}
use eventmind.Messaging.Kafka.{Message, commit}
use eventmind.Messaging.Consumer.{to_dlq, handle, consume}
use eventmind.Messaging.Dlq.{DlqWorker, attempt, retry}
use eventmind.Worker.{Services, World, handler, client}
use eventmind.Worker.Handling.{guard, handler_duplicate, handler-IsMarked}

module _ (S : Services) (L : Server.IsLawful S.redis) where
  duplicate-of_marked :
      (w : World S) (ev : Event) (b : Bool)
      → IsMarked S.redis L w.redis ev.id
      → guard S w ev ≡ ok b
      → guard S w ev ≡ ok true
  duplicate-of_marked w ev b marked answer = elim (seen-of_marked S.redis L w.redis ev.id marked) [
    | inl (e, bad) ↦ cc
    | inr again ↦ again
  ]

  -- If the guard answers in both of two successive calls of the handler for one event, the second
  -- call reports no error and leaves Postgres, the counters and the queues as they were; of the
  -- agent's services only the clock is read.
  pub handler_twice :
      (w : World S) (ev : Event) (first second : Bool)
      → guard S w ev ≡ ok first
      → guard S (handler S w ev).1 ev ≡ ok second
      → let w1 = (handler S w ev).1 in
        let (failed, w2) = handler S w1 ev in
        (failed ≡ none)
        × (w2.pg ≡ w1.pg)
        × (w2.counts ≡ w1.counts)
        × (w2.kafka ≡ w1.kafka)
        × (w2.agent ≡ (S.env.now w1.agent).1)
  handler_twice w ev first second one two =
      handler_duplicate S (handler S w ev).1 ev
        (duplicate-of_marked (handler S w ev).1 ev second (handler-IsMarked S L w ev first one) two)

  redis-handle :
      (dlq_topic : Text) (w : World S) (msg : Message) (ev : Event)
      → (handle (client S) dlq_topic (handler S) w msg ev).redis ≡ (handler S w ev).1.redis
  unfolding handle to_dlq
  redis-handle dlq_topic w msg ev = elim (Option-cases (handler S w ev).0) [
    | inl fine ↦ rw (fine, handle) refl
    | inr (e, bad) ↦ rw (bad, handle) refl
  ]

  pub redis-consume :
      (dlq_topic : Text) (w : World S) (msg : Message) (ev : Event)
      → S.unmarshal msg.value ≡ some ev
      → (consume (client S) dlq_topic (handler S) S.unmarshal w msg).redis
        ≡ (handler S w ev).1.redis
  unfolding consume commit
  redis-consume dlq_topic w msg ev good = rw (good, consume) (redis-handle dlq_topic w msg ev)

  attempt-of_fine :
      (worker : DlqWorker) (callback : Option (World S → Text → World S)) (w : World S)
      (msg : Message) (n : ℤ) (ev : Event)
      → S.unmarshal msg.value ≡ some ev
      → (handler S w ev).0 ≡ none
      → attempt (client S) worker (handler S) S.unmarshal callback w msg n
        ≡ commit (client S) (handler S w ev).1 msg
  unfolding attempt retry
  attempt-of_fine worker callback w msg n ev good fine = rw (good, attempt) (rw (fine, retry) refl)

  attempt-of_duplicate :
      (worker : DlqWorker) (callback : Option (World S → Text → World S)) (w : World S)
      (msg : Message) (n : ℤ) (ev : Event)
      → S.unmarshal msg.value ≡ some ev
      → guard S w ev ≡ ok true
      → let w' = attempt (client S) worker (handler S) S.unmarshal callback w msg n in
        (w'.pg ≡ w.pg)
        × (w'.counts ≡ w.counts)
        × (w'.kafka ≡ (S.broker.commit w.kafka msg).1)
        × (w'.agent ≡ (S.env.now w.agent).1)
  unfolding commit
  attempt-of_duplicate worker callback w msg n ev good again =
      let (fine, pg, counts, kafka, agent) = handler_duplicate S w ev again in
      let whole = attempt-of_fine worker callback w msg n ev good fine in
      (
        ap (λ v. v.pg) whole ∙ pg,
        ap (λ v. v.counts) whole ∙ counts,
        ap (λ v. v.kafka) whole ∙ ap (λ k. (S.broker.commit k msg).1) kafka,
        ap (λ v. v.agent) whole ∙ agent,
      )

  -- When an event's message is consumed and the idempotency guard answers, and the guard answers
  -- again when a message with the same value is taken from the dead letter queue next, then the
  -- retry of that message only commits it: Postgres and the counters stay as they were, the broker
  -- is only asked for that commit, and of the agent's services only the clock is read.
  pub retry_drops :
      (dlq_topic : Text) (worker : DlqWorker) (callback : Option (World S → Text → World S))
      (w : World S) (msg letter : Message) (ev : Event) (n : ℤ) (first second : Bool)
      → S.unmarshal msg.value ≡ some ev
      → guard S w ev ≡ ok first
      → letter.value ≡ msg.value
      → guard S (consume (client S) dlq_topic (handler S) S.unmarshal w msg) ev ≡ ok second
      → let w1 = consume (client S) dlq_topic (handler S) S.unmarshal w msg in
        let w2 = attempt (client S) worker (handler S) S.unmarshal callback w1 letter n in
        (w2.kafka ≡ (S.broker.commit w1.kafka letter).1)
        × (w2.pg ≡ w1.pg)
        × (w2.counts ≡ w1.counts)
        × (w2.agent ≡ (S.env.now w1.agent).1)
  retry_drops dlq_topic worker callback w msg letter ev n first second good one same two =
      let w1 = consume (client S) dlq_topic (handler S) S.unmarshal w msg in
      let marked =
        subst (λ r. IsMarked S.redis L r ev.id) (sym (redis-consume dlq_topic w msg ev good))
          (handler-IsMarked S L w ev first one) in
      let (pg, counts, kafka, agent) =
        attempt-of_duplicate worker callback w1 letter n ev (ap S.unmarshal same ∙ good)
          (duplicate-of_marked w1 ev second marked two) in
      (kafka, pg, counts, agent)
