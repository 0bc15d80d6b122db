-- ===== src/Worker/Runs.antt =====
-- The consume loop with the worker's own handler: what becomes of every message.
use eventmind.Base.{◌≡◌, ◌∙◌, sym, ◌⊎◌, inl, inr, Text, true, none, some, List, [], ◌∷◌, ok}
use eventmind.Events.{Event}
use eventmind.Agent.Process.Laws.{process-IsResult}
use eventmind.Messaging.Kafka.{Message, IsBroker}
use eventmind.Messaging.Consumer.{Poll, cancelled, read_failed, received, consume, run}
use eventmind.Messaging.Consumer.Runs.{
  HasDeadLetter, IsRefused, IsAccounted, AllAccounted, run-AllAccounted,
}
use eventmind.Worker.{Services, World, handler, client}
use eventmind.Worker.Handling.{guard, guard-cases, processed, handler_fresh}
use eventmind.Worker.Loops.{client-IsLawful, handler-IsApart}

module _ (S : Services) (L : IsBroker S.broker) (dlq_topic : Text) where
  -- The event is a duplicate, or the agent has succeeded with it.
  abbrev pub IsDone : World S → Event → Type 0
  IsDone w ev = (guard S w ev ≡ ok true) ⊎ ((processed S w ev).0.success ≡ true)

  -- What becomes of one message.
  abbrev pub IsSettled : World S → World S → Message → Type 0
  IsSettled final w msg =
      (S.unmarshal msg.value ≡ none)
      ⊎ ((ev : Event) × (S.unmarshal msg.value ≡ some ev) × IsDone w ev)
      ⊎ HasDeadLetter (client S) (client-IsLawful S L) dlq_topic (handler S) S.unmarshal final msg
      ⊎ IsRefused (client S) (client-IsLawful S L) dlq_topic (handler S) S.unmarshal w msg

  abbrev pub AllSettled : World S → World S → List Poll → Type 0
  AllSettled final w [] = Unit
  AllSettled final w (cancelled ∷ polls) = Unit
  AllSettled final w (read_failed err ∷ polls) = AllSettled final w polls
  AllSettled final w (received msg ∷ polls) =
      IsSettled final w msg
      × AllSettled final (consume (client S) dlq_topic (handler S) S.unmarshal w msg) polls

  succeeds :
      (w : World S) (ev : Event) → (processed S w ev).1 ≡ none → (processed S w ev).0.success ≡ true
  succeeds w ev fine = elim (process-IsResult S.env (S.env.now w.agent).1 ev).1 [
    | inl (response, answer, s) ↦ s.success
    | inr (reason, f) ↦ let bad = f.has_error in cc
  ]

  IsDone-of_fine : (w : World S) (ev : Event) → (handler S w ev).0 ≡ none → IsDone w ev
  IsDone-of_fine w ev fine = elim (guard-cases (guard S w ev)) [
    | inl again ↦ inl again
    | inr fresh ↦ inr (succeeds w ev (sym (handler_fresh S w ev fresh).0 ∙ fine))
  ]

  IsSettled-of_accounted :
      (final w : World S) (msg : Message)
      → IsAccounted (client S) (client-IsLawful S L) dlq_topic (handler S) S.unmarshal final w msg
      → IsSettled final w msg
  IsSettled-of_accounted final w msg (inl bad) = inl bad
  IsSettled-of_accounted final w msg (inr (inl (ev, good, fine))) =
      inr (inl (ev, good, IsDone-of_fine w ev fine))
  IsSettled-of_accounted final w msg (inr (inr rest)) = inr (inr rest)

  AllSettled-of_accounted :
      (final w : World S) (polls : List Poll)
      → AllAccounted
          (client S)
          (client-IsLawful S L)
          dlq_topic
          (handler S)
          S.unmarshal
          final
          w
          polls
      → AllSettled final w polls
  AllSettled-of_accounted final w [] all = tt
  AllSettled-of_accounted final w (cancelled ∷ polls) all = tt
  AllSettled-of_accounted final w (read_failed err ∷ polls) all =
      AllSettled-of_accounted final w polls all
  AllSettled-of_accounted final w (received msg ∷ polls) (one, all) = (
    IsSettled-of_accounted final w msg one,
    AllSettled-of_accounted final (consume (client S) dlq_topic (handler S) S.unmarshal w msg) polls
        all,
  )

  -- For every run of the consume loop with the worker's own handler, over a broker that behaves as
  -- documented: every message that was read is no event, or the guard called it a duplicate, or
  -- the agent succeeded with it, or it has a dead letter with its key, its value and retry count
  -- 0, unless the broker refused that letter.
  pub run-AllSettled :
      (w : World S) (polls : List Poll)
      → AllSettled (run (client S) dlq_topic (handler S) S.unmarshal w polls) w polls
  run-AllSettled w polls =
      AllSettled-of_accounted (run (client S) dlq_topic (handler S) S.unmarshal w polls) w polls (
        run-AllAccounted (client S) (client-IsLawful S L) dlq_topic (handler S) S.unmarshal
          (handler-IsApart S L) w polls)
