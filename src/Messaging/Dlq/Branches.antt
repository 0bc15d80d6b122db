-- ===== src/Messaging/Dlq/Branches.antt =====
-- What one message of the dead letter queue does to the logs of the client, on every branch.
use eventmind.Base.{
  ◌≡◌, ◌∙◌, ap, Text, Option, none, some, [], ◌∷◌, ◌++◌, ℤ, pos, add64, Time, Option-cases, inl,
  inr,
}
use eventmind.Events.{Event}
use eventmind.Messaging.Headers.{merge_headers}
use eventmind.Messaging.Kafka.{Message, Client, Handler, commit, log_unless, IsLawful, IsApart}
use eventmind.Messaging.Dlq.{DlqWorker, requeue, retry, attempt}

-- The message that goes back into the queue.
abbrev pub requeued : DlqWorker → Message → ℤ → Text → Time → Message
requeued worker msg retry_count err now = record {
  topic = worker.dlq_topic;
  key = msg.key;
  value = msg.value;
  headers = merge_headers msg.headers (add64 retry_count (pos 1)) err now;
}

module _ (K : Client) (L : IsLawful K) (worker : DlqWorker) where
  published-requeue :
      (w : K.World) (msg : Message) (n : ℤ) (err : Text)
      → L.published (requeue K worker w msg n err).1
        ≡ log_unless
            (requeue K worker w msg n err).0
            (L.published w)
            (requeued worker msg n err (K.now w).0)
  unfolding requeue
  published-requeue w msg n err = rw L.published-produce (rw (L.published-now w))

  module _ (handler : Handler K) (A : IsApart K L handler) where
    pub retry_fine :
        (w : K.World) (msg : Message) (n : ℤ) (ev : Event)
        → (handler w ev).0 ≡ none
        → retry K worker handler w msg n ev ≡ (handler w ev).1
    unfolding retry
    retry_fine w msg n ev fine = rw (fine, retry)

    pub retry_failed :
        (w : K.World) (msg : Message) (n : ℤ) (ev : Event) (err : Text)
        → (handler w ev).0 ≡ some err
        → retry K worker handler w msg n ev ≡ (requeue K worker (handler w ev).1 msg n err).1
    unfolding retry
    retry_failed w msg n ev err bad = rw (bad, retry)

    pub published-retry_failed :
        (w : K.World) (msg : Message) (n : ℤ) (ev : Event) (err : Text)
        → (handler w ev).0 ≡ some err
        → L.published (retry K worker handler w msg n ev)
          ≡ log_unless
              (requeue K worker (handler w ev).1 msg n err).0
              (L.published w)
              (requeued worker msg n err (K.now (handler w ev).1).0)
    published-retry_failed w msg n ev err bad =
        rw (retry_failed w msg n ev err bad)
          (rw (published-requeue (handler w ev).1 msg n err) (rw (A.published-handler w ev)))

    module _ (unmarshal : Text → Option Event) (on_failed : Option (K.World → Text → K.World)) where
      pub attempt_unparsed :
          (w : K.World) (msg : Message) (n : ℤ)
          → unmarshal msg.value ≡ none
          → attempt K worker handler unmarshal on_failed w msg n ≡ (K.commit w msg).1
      unfolding attempt commit
      attempt_unparsed w msg n bad = rw (bad, attempt)

      pub attempt_parsed :
          (w : K.World) (msg : Message) (n : ℤ) (ev : Event)
          → unmarshal msg.value ≡ some ev
          → attempt K worker handler unmarshal on_failed w msg n
            ≡ (K.commit (retry K worker handler w msg n ev) msg).1
      unfolding attempt commit
      attempt_parsed w msg n ev good = rw (good, attempt)

      -- What may become of a message that is taken up in state w and leaves `after`.
      pub data Fate (w : K.World) (msg : Message) (n : ℤ) (after : K.World) : Type 0 where
        discarded :
            unmarshal msg.value ≡ none → L.published after ≡ L.published w → Fate w msg n after
        succeeded :
            (ev : Event)
            → unmarshal msg.value ≡ some ev
            → (handler w ev).0 ≡ none
            → L.published after ≡ L.published w
            → Fate w msg n after
        back_in_queue :
            (ev : Event) (err : Text) (now : Time)
            → unmarshal msg.value ≡ some ev
            → (handler w ev).0 ≡ some err
            → L.published after ≡ L.published w ++ requeued worker msg n err now ∷ []
            → Fate w msg n after
        lost :
            (ev : Event) (err refusal : Text)
            → unmarshal msg.value ≡ some ev
            → (handler w ev).0 ≡ some err
            → (requeue K worker (handler w ev).1 msg n err).0 ≡ some refusal
            → L.published after ≡ L.published w
            → Fate w msg n after

      Fate-failed :
          (w : K.World) (msg : Message) (n : ℤ) (ev : Event) (err : Text)
          → unmarshal msg.value ≡ some ev
          → (handler w ev).0 ≡ some err
          → Fate w msg n (K.commit (retry K worker handler w msg n ev) msg).1
      Fate-failed w msg n ev err good bad =
          let sent =
            L.published-commit (retry K worker handler w msg n ev) msg
            ∙ published-retry_failed w msg n ev err bad in
          elim (Option-cases (requeue K worker (handler w ev).1 msg n err).0) [
            | inl taken ↦
                back_in_queue ev err (K.now (handler w ev).1).0 good bad (rw taken at sent)
            | inr (refusal, refused) ↦ lost ev err refusal good bad refused (rw refused at sent)
          ]

      pub attempt-Fate :
          (w : K.World) (msg : Message) (n : ℤ)
          → Fate w msg n (attempt K worker handler unmarshal on_failed w msg n)
      attempt-Fate w msg n = elim (Option-cases (unmarshal msg.value)) [
        | inl bad ↦ discarded bad (rw (attempt_unparsed w msg n bad) (L.published-commit w msg))
        | inr (ev, good) ↦
            rw (attempt_parsed w msg n ev good) (elim (Option-cases (handler w ev).0) [
              | inl fine ↦ succeeded ev good fine (
                  L.published-commit _ msg
                  ∙ ap L.published (retry_fine w msg n ev fine)
                  ∙ A.published-handler w ev)
              | inr (err, bad) ↦ Fate-failed w msg n ev err good bad
            ])
      ]
