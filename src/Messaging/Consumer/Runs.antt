-- ===== src/Messaging/Consumer/Runs.antt =====
-- What a whole run of the consume loop leaves behind, for every sequence of polls.
use mathlib.Core.List.Memᴰ
use mathlib.Core.List.{Memᴰ}
use eventmind.Base.{
  ◌≡◌, refl, ◌∙◌, sym, ap, subst, ◌⊎◌, inl, inr, Text, Option, none, some, List, [], ◌∷◌, ◌++◌,
  append_assoc, append-nil, pos, arith, Time,
}
use eventmind.Events.{Event}
use eventmind.Messaging.Headers.{header_int, retry_count_key}
use eventmind.Messaging.Kafka.{Message, ReadError, Client, Handler, IsLawful, IsApart}
use eventmind.Messaging.Consumer.{Poll, cancelled, read_failed, received, to_dlq, consume, run}
use eventmind.Messaging.Consumer.Branches.{
  skipped, handled, dead_lettered, lost, committed-consume, consume-Fate, dead_letter,
  header_int-dead_letter_headers, published-consume_refused,
}

-- The messages that are read before the context is cancelled.
abbrev pub read_messages : List Poll → List Message
read_messages [] = []
read_messages (cancelled ∷ polls) = []
read_messages (read_failed err ∷ polls) = read_messages polls
read_messages (received msg ∷ polls) = msg ∷ read_messages polls

module _ (K : Client) (L : IsLawful K) (dlq_topic : Text) (handler : Handler K)
    (unmarshal : Text → Option Event) where
  -- A dead letter for the message is among the messages published in the state.
  abbrev pub HasDeadLetter : K.World → Message → Type 0
  HasDeadLetter final msg =
      (d : Message) × Memᴰ d (L.published final)
      × (d.topic ≡ dlq_topic)
      × (d.key ≡ msg.key)
      × (d.value ≡ msg.value)
      × (header_int d.headers retry_count_key ≡ pos 0)

  -- The handler failed and the client refused to take the dead letter.
  abbrev pub IsRefused : K.World → Message → Type 0
  IsRefused w msg =
      (ev : Event) × (err : Text) × (refusal : Text) × (unmarshal msg.value ≡ some ev)
      × ((handler w ev).0 ≡ some err)
      × ((to_dlq K dlq_topic (handler w ev).1 msg err).0 ≡ some refusal)

  -- The message is no event, or the handler took it, or it is in the dead letter queue, or the
  -- client refused it there.
  abbrev pub IsAccounted : K.World → K.World → Message → Type 0
  IsAccounted final w msg =
      (unmarshal msg.value ≡ none)
      ⊎ ((ev : Event) × (unmarshal msg.value ≡ some ev) × ((handler w ev).0 ≡ none))
      ⊎ HasDeadLetter final msg
      ⊎ IsRefused w msg

  -- So for every message of the run, each in the state in which it is taken up.
  abbrev pub AllAccounted : K.World → K.World → List Poll → Type 0
  AllAccounted final w [] = Unit
  AllAccounted final w (cancelled ∷ polls) = Unit
  AllAccounted final w (read_failed err ∷ polls) = AllAccounted final w polls
  AllAccounted final w (received msg ∷ polls) =
      IsAccounted final w msg
      × AllAccounted final (consume K dlq_topic handler unmarshal w msg) polls

  run_read_failed :
      (w : K.World) (err : ReadError) (polls : List Poll)
      → run K dlq_topic handler unmarshal w (read_failed err ∷ polls)
        ≡ run K dlq_topic handler unmarshal w polls
  unfolding run
  run_read_failed w err polls = ground arith

  module _ (A : IsApart K L handler) where
    published-consume :
        (w : K.World) (msg : Message)
        → (more : List Message) × (L.published (consume K dlq_topic handler unmarshal w msg)
            ≡ L.published w ++ more)
    published-consume w msg = elim (consume-Fate K L dlq_topic handler A unmarshal w msg) [
      | skipped bad same ↦ ([], same ∙ sym (append-nil _))
      | handled ev good fine same ↦ ([], same ∙ sym (append-nil _))
      | dead_lettered ev err now good bad grown ↦ (dead_letter dlq_topic msg err now ∷ [], grown)
      | lost ev err refusal good bad refused same ↦ ([], same ∙ sym (append-nil _))
    ]

    published-run :
        (w : K.World) (polls : List Poll)
        → (more : List Message) × (L.published (run K dlq_topic handler unmarshal w polls)
            ≡ L.published w ++ more)
    unfolding run
    published-run w [] = ([], sym (append-nil _))
    published-run w (cancelled ∷ polls) = ([], sym (append-nil _))
    published-run w (read_failed err ∷ polls) =
        rw (run_read_failed w err polls) (published-run w polls)
    published-run w (received msg ∷ polls) =
        let (first, e) = published-consume w msg in
        let (later, d) = published-run (consume K dlq_topic handler unmarshal w msg) polls in
        (first ++ later, d ∙ ap (λ l. l ++ later) e ∙ append_assoc _ first later)

    committed-consume_one :
        (w : K.World) (msg : Message)
        → ((v : K.World) (m : Message) → (K.commit v m).0 ≡ none)
        → L.committed (consume K dlq_topic handler unmarshal w msg) ≡ L.committed w ++ msg ∷ []
    committed-consume_one w msg sure =
        let (before, e, same) = committed-consume K L dlq_topic handler A unmarshal w msg in
        let one = rw (sure before msg) at (L.committed-commit before msg) in
        ap L.committed e ∙ one ∙ ap (λ l. l ++ msg ∷ []) same

    -- For a client that behaves as documented and a handler that neither publishes nor commits: if
    -- no commit fails, a run of the consume loop commits exactly the messages that it reads before
    -- the cancellation, in their order and each once, whether or not a message parses, the handler
    -- fails, or the dead letter queue takes the message.
    pub committed-run :
        (w : K.World) (polls : List Poll)
        → ((v : K.World) (m : Message) → (K.commit v m).0 ≡ none)
        → L.committed (run K dlq_topic handler unmarshal w polls)
          ≡ L.committed w ++ read_messages polls
    unfolding run
    committed-run w [] sure = sym (append-nil _)
    committed-run w (cancelled ∷ polls) sure = sym (append-nil _)
    committed-run w (read_failed err ∷ polls) sure =
        rw (run_read_failed w err polls) (committed-run w polls sure)
    committed-run w (received msg ∷ polls) sure =
        let grown = committed-consume_one w msg sure in
        committed-run (consume K dlq_topic handler unmarshal w msg) polls sure
        ∙ ap (λ l. l ++ read_messages polls) grown
        ∙ append_assoc (L.committed w) (msg ∷ []) (read_messages polls)

    HasDeadLetter-of_grown :
        (final w : K.World) (msg : Message) (err : Text) (now : Time) (after more : List Message)
        → after ≡ L.published w ++ dead_letter dlq_topic msg err now ∷ []
        → L.published final ≡ after ++ more
        → HasDeadLetter final msg
    HasDeadLetter-of_grown final w msg err now after more grown e =
        let letter = dead_letter dlq_topic msg err now in
        let there =
          Memᴰ.append_left more
            (Memᴰ.append_right (L.published w) {t = letter ∷ []} (Memᴰ.head refl)) in
        (
          letter,
          rw e (rw grown there),
          refl,
          refl,
          refl,
          header_int-dead_letter_headers msg err now,
        )

    IsAccounted-consume :
        (final w : K.World) (msg : Message) (more : List Message)
        → L.published final ≡ L.published (consume K dlq_topic handler unmarshal w msg) ++ more
        → IsAccounted final w msg
    IsAccounted-consume final w msg more e =
        elim (consume-Fate K L dlq_topic handler A unmarshal w msg) [
          | skipped bad same ↦ inl bad
          | handled ev good fine same ↦ inr (inl (ev, good, fine))
          | dead_lettered ev err now good bad grown ↦
              inr (inr (inl (HasDeadLetter-of_grown final w msg err now _ more grown e)))
          | lost ev err refusal good bad refused same ↦
              inr (inr (inr (ev, err, refusal, good, bad, refused)))
        ]

    -- For every sequence of polls, with a lawful client and a handler that leaves the queues
    -- alone: after the run every message that was read is no event, or was accepted by the
    -- handler, or has a dead letter in the queue with its key, its value and retry count 0, unless
    -- the client refused that dead letter.
    pub run-AllAccounted :
        (w : K.World) (polls : List Poll)
        → AllAccounted (run K dlq_topic handler unmarshal w polls) w polls
    unfolding run
    run-AllAccounted w [] = tt
    run-AllAccounted w (cancelled ∷ polls) = tt
    run-AllAccounted w (read_failed err ∷ polls) =
        subst (λ v. AllAccounted v w polls) (sym (run_read_failed w err polls))
          (run-AllAccounted w polls)
    run-AllAccounted w (received msg ∷ polls) =
        let next = consume K dlq_topic handler unmarshal w msg in
        let (more, e) = published-run next polls in
        (
          IsAccounted-consume (run K dlq_topic handler unmarshal next polls) w msg more e,
          run-AllAccounted next polls,
        )

    -- If the handler fails, the client refuses the dead letter and no commit fails, the message is
    -- committed and nothing is published.
    pub consume_loses :
        (w : K.World) (msg : Message)
        → IsRefused w msg
        → ((v : K.World) (m : Message) → (K.commit v m).0 ≡ none)
        → (L.published (consume K dlq_topic handler unmarshal w msg) ≡ L.published w)
          × (L.committed (consume K dlq_topic handler unmarshal w msg) ≡ L.committed w ++ msg ∷ [])
    consume_loses w msg (ev, err, refusal, good, bad, refused) sure = (
      published-consume_refused K L dlq_topic handler A unmarshal w msg ev err refusal good bad
          refused,
      committed-consume_one w msg sure,
    )
