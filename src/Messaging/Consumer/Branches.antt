-- ===== src/Messaging/Consumer/Branches.antt =====
-- What one message does to the two logs of the Kafka client, on every branch of the loop body.
use eventmind.Base.{
  ◌≡◌, refl, ◌∙◌, Text, Option, none, some, [], ◌∷◌, ◌++◌, ap, pos, Time, ℕ, Option-cases, inl, inr,
  text_eq, scan_int,
}
use eventmind.Events.{Event}
use eventmind.Messaging.Headers.{header_int, retry_count_key}
use eventmind.Messaging.Kafka.{Message, Client, Handler, commit, log_unless, IsLawful, IsApart}
use eventmind.Messaging.Consumer.{dead_letter_headers, to_dlq, handle, consume}

-- The dead letter that `toDLQ` sends.
abbrev pub dead_letter : Text → Message → Text → Time → Message
dead_letter dlq_topic msg err now = record {
  topic = dlq_topic;
  key = msg.key;
  value = msg.value;
  headers = dead_letter_headers msg err now;
}

-- A dead letter carries retry count 0, in the headers that the other loop reads.
pub header_int-dead_letter_headers :
    (msg : Message) (err : Text) (now : ℕ)
    → header_int (dead_letter_headers msg err now) retry_count_key ≡ pos 0
unfolding header_int retry_count_key text_eq scan_int
header_int-dead_letter_headers msg err now = refl

module _ (K : Client) (L : IsLawful K) (dlq_topic : Text) where
  published-to_dlq :
      (w : K.World) (msg : Message) (err : Text)
      → L.published (to_dlq K dlq_topic w msg err).1
        ≡ log_unless
            (to_dlq K dlq_topic w msg err).0
            (L.published w)
            (dead_letter dlq_topic msg err (K.now w).0)
  unfolding to_dlq
  published-to_dlq w msg err = rw L.published-produce (rw (L.published-now w))

  committed-to_dlq :
      (w : K.World) (msg : Message) (err : Text)
      → L.committed (to_dlq K dlq_topic w msg err).1 ≡ L.committed w
  unfolding to_dlq
  committed-to_dlq w msg err = L.committed-produce _ _ ∙ L.committed-now w

  module _ (handler : Handler K) where
    -- What may become of a message that is taken up in state w and leaves `after`.
    pub data Fate (unmarshal : Text → Option Event) (w : K.World) (msg : Message) (after : K.World)
        : Type 0 where
      skipped :
          unmarshal msg.value ≡ none
          → L.published after ≡ L.published w
          → Fate unmarshal w msg after
      handled :
          (ev : Event)
          → unmarshal msg.value ≡ some ev
          → (handler w ev).0 ≡ none
          → L.published after ≡ L.published w
          → Fate unmarshal w msg after
      dead_lettered :
          (ev : Event) (err : Text) (now : Time)
          → unmarshal msg.value ≡ some ev
          → (handler w ev).0 ≡ some err
          → L.published after ≡ L.published w ++ dead_letter dlq_topic msg err now ∷ []
          → Fate unmarshal w msg after
      lost :
          (ev : Event) (err refusal : Text)
          → unmarshal msg.value ≡ some ev
          → (handler w ev).0 ≡ some err
          → (to_dlq K dlq_topic (handler w ev).1 msg err).0 ≡ some refusal
          → L.published after ≡ L.published w
          → Fate unmarshal w msg after

    handle_fine :
        (w : K.World) (msg : Message) (ev : Event)
        → (handler w ev).0 ≡ none
        → handle K dlq_topic handler w msg ev ≡ (handler w ev).1
    unfolding handle
    handle_fine w msg ev fine = rw (fine, handle)

    handle_failed :
        (w : K.World) (msg : Message) (ev : Event) (err : Text)
        → (handler w ev).0 ≡ some err
        → handle K dlq_topic handler w msg ev ≡ (to_dlq K dlq_topic (handler w ev).1 msg err).1
    unfolding handle
    handle_failed w msg ev err bad = rw (bad, handle)

    module _ (A : IsApart K L handler) where
      committed-handle :
          (w : K.World) (msg : Message) (ev : Event)
          → L.committed (handle K dlq_topic handler w msg ev) ≡ L.committed w
      committed-handle w msg ev = elim (Option-cases (handler w ev).0) [
        | inl fine ↦ rw (handle_fine w msg ev fine) (A.committed-handler w ev)
        | inr (err, bad) ↦
            rw (handle_failed w msg ev err bad)
              (committed-to_dlq _ msg err ∙ A.committed-handler w ev)
      ]

      published-handle_fine :
          (w : K.World) (msg : Message) (ev : Event)
          → (handler w ev).0 ≡ none
          → L.published (handle K dlq_topic handler w msg ev) ≡ L.published w
      published-handle_fine w msg ev fine =
          rw (handle_fine w msg ev fine) (A.published-handler w ev)

      published-handle_failed :
          (w : K.World) (msg : Message) (ev : Event) (err : Text)
          → (handler w ev).0 ≡ some err
          → L.published (handle K dlq_topic handler w msg ev)
            ≡ log_unless
                (to_dlq K dlq_topic (handler w ev).1 msg err).0
                (L.published w)
                (dead_letter dlq_topic msg err (K.now (handler w ev).1).0)
      published-handle_failed w msg ev err bad =
          rw (handle_failed w msg ev err bad)
            (rw (published-to_dlq (handler w ev).1 msg err) (rw (A.published-handler w ev)))

      module _ (unmarshal : Text → Option Event) where
        consume_unparsed :
            (w : K.World) (msg : Message)
            → unmarshal msg.value ≡ none
            → consume K dlq_topic handler unmarshal w msg ≡ (K.commit w msg).1
        unfolding consume commit
        consume_unparsed w msg bad = rw (bad, consume)

        consume_parsed :
            (w : K.World) (msg : Message) (ev : Event)
            → unmarshal msg.value ≡ some ev
            → consume K dlq_topic handler unmarshal w msg
              ≡ (K.commit (handle K dlq_topic handler w msg ev) msg).1
        unfolding consume commit
        consume_parsed w msg ev good = rw (good, consume)

        -- The commit is attempted on every branch, after everything else.
        pub committed-consume :
            (w : K.World) (msg : Message)
            → (before : K.World) × (consume K dlq_topic handler unmarshal w msg
                ≡ (K.commit before msg).1)
              × (L.committed before ≡ L.committed w)
        committed-consume w msg = elim (Option-cases (unmarshal msg.value)) [
          | inl bad ↦ (w, consume_unparsed w msg bad, refl)
          | inr (ev, good) ↦ (
            handle K dlq_topic handler w msg ev,
            consume_parsed w msg ev good,
            committed-handle w msg ev,
          )
        ]

        Fate-failed :
            (w : K.World) (msg : Message) (ev : Event) (err : Text)
            → unmarshal msg.value ≡ some ev
            → (handler w ev).0 ≡ some err
            → Fate unmarshal w msg (K.commit (handle K dlq_topic handler w msg ev) msg).1
        Fate-failed w msg ev err good bad =
            let sent =
              L.published-commit (handle K dlq_topic handler w msg ev) msg
              ∙ published-handle_failed w msg ev err bad in
            elim (Option-cases (to_dlq K dlq_topic (handler w ev).1 msg err).0) [
              | inl taken ↦
                  dead_lettered ev err (K.now (handler w ev).1).0 good bad (rw taken at sent)
              | inr (refusal, refused) ↦ lost ev err refusal good bad refused (rw refused at sent)
            ]

        pub consume-Fate :
            (w : K.World) (msg : Message)
            → Fate unmarshal w msg (consume K dlq_topic handler unmarshal w msg)
        consume-Fate w msg = elim (Option-cases (unmarshal msg.value)) [
          | inl bad ↦ skipped bad (rw (consume_unparsed w msg bad) (L.published-commit w msg))
          | inr (ev, good) ↦
              rw (consume_parsed w msg ev good) (elim (Option-cases (handler w ev).0) [
                | inl fine ↦
                    handled ev good fine
                      (L.published-commit _ msg ∙ published-handle_fine w msg ev fine)
                | inr (err, bad) ↦ Fate-failed w msg ev err good bad
              ])
        ]

        pub published-consume_refused :
            (w : K.World) (msg : Message) (ev : Event) (err refusal : Text)
            → unmarshal msg.value ≡ some ev
            → (handler w ev).0 ≡ some err
            → (to_dlq K dlq_topic (handler w ev).1 msg err).0 ≡ some refusal
            → L.published (consume K dlq_topic handler unmarshal w msg) ≡ L.published w
        published-consume_refused w msg ev err refusal good bad refused =
            ap L.published (consume_parsed w msg ev good)
            ∙ L.published-commit _ msg
            ∙ (rw refused at (published-handle_failed w msg ev err bad))
