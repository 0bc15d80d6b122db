-- ===== src/Messaging/Dlq/Runs.antt =====
-- What a whole run of the dead letter worker commits.
use eventmind.Base.{
  ℤ-cases, ℕ, ◌≡◌, refl, ◌∙◌, ap, sym, ◌⊎◌, inl, inr, Text, Bool, true, false, not, Option, none,
  Option-cases, Bool-cases, List, [], ◌∷◌, ◌++◌, append-nil, append_assoc, ℤ, pos, negsuc, ltb_ℤ,
  arith, if◌then◌else◌,
}
use eventmind.Events.{Event}
use eventmind.Messaging.Kafka.{Message, ReadError, Client, Handler, IsLawful, IsApart}
use eventmind.Messaging.Dlq.{
  DlqWorker, Poll, cancelled, read_failed, received, going, stopped, panicked, requeue, retry,
  give_up, attempt, process, run,
}
use eventmind.Messaging.Dlq.Branches.{retry_fine, retry_failed, attempt_unparsed, attempt_parsed}
use eventmind.Messaging.Dlq.Retries.{
  count_of, world_of, process_exhausted, process_negative, process_interrupted, process_retry,
}

-- Whether a count that is below the maximum lets the loop go on.
abbrev pub lets_on : ℤ → Bool → Bool
lets_on (pos k) interrupted = not interrupted
lets_on (negsuc k) interrupted = false

-- Whether the loop goes on after a message: all attempts are used up, or the wait is not cut short.
abbrev pub goes_on : DlqWorker → Message → Bool → Bool
goes_on worker msg interrupted =
    if not (ltb_ℤ (count_of msg) worker.max_retry) then true else lets_on (count_of msg) interrupted

-- The messages before the end of the run.
abbrev pub finished : DlqWorker → List Poll → List Message
finished worker [] = []
finished worker (cancelled ∷ polls) = []
finished worker (read_failed err ∷ polls) = finished worker polls
finished worker (received msg interrupted ∷ polls) =
    let rest = finished worker polls in if goes_on worker msg interrupted then msg ∷ rest else []

module _ (K : Client) (L : IsLawful K) (worker : DlqWorker) (handler : Handler K)
    (unmarshal : Text → Option Event) (on_failed : Option (K.World → Text → K.World)) where
  -- The callback for permanent failures commits nothing.
  abbrev pub IsStill : Type 0
  IsStill =
      (w : K.World) (msg : Message)
      → L.committed (give_up K worker handler unmarshal on_failed w msg) ≡ L.committed w

  module _ (A : IsApart K L handler) (still : IsStill)
      (sure : (v : K.World) (m : Message) → (K.commit v m).0 ≡ none) where
    committed-requeue :
        (w : K.World) (msg : Message) (n : ℤ) (err : Text)
        → L.committed (requeue K worker w msg n err).1 ≡ L.committed w
    unfolding requeue
    committed-requeue w msg n err = L.committed-produce _ _ ∙ L.committed-now w

    committed-retry :
        (w : K.World) (msg : Message) (n : ℤ) (ev : Event)
        → L.committed (retry K worker handler w msg n ev) ≡ L.committed w
    committed-retry w msg n ev = elim (Option-cases (handler w ev).0) [
      | inl fine ↦ rw (retry_fine K L worker handler A w msg n ev fine) (A.committed-handler w ev)
      | inr (err, bad) ↦
          rw (retry_failed K L worker handler A w msg n ev err bad)
            (committed-requeue _ msg n err ∙ A.committed-handler w ev)
    ]

    committed-commit_sure :
        (w : K.World) (msg : Message) → L.committed (K.commit w msg).1 ≡ L.committed w ++ msg ∷ []
    committed-commit_sure w msg = rw (sure w msg) at (L.committed-commit w msg)

    committed-attempt :
        (w : K.World) (msg : Message) (n : ℤ)
        → L.committed (attempt K worker handler unmarshal on_failed w msg n)
          ≡ L.committed w ++ msg ∷ []
    committed-attempt w msg n = elim (Option-cases (unmarshal msg.value)) [
      | inl bad ↦
          rw (attempt_unparsed K L worker handler A unmarshal on_failed w msg n bad)
            (committed-commit_sure w msg)
      | inr (ev, good) ↦
          rw (attempt_parsed K L worker handler A unmarshal on_failed w msg n ev good)
            (committed-commit_sure _ msg ∙ ap (λ l. l ++ msg ∷ []) (committed-retry w msg n ev))
    ]

    -- A round ends in one of two ways.
    Ends : K.World → Message → Bool → Type 0
    Ends w msg interrupted =
        ((w' : K.World) × (process K worker handler unmarshal on_failed w msg interrupted
            ≡ going w')
          × (L.committed w' ≡ L.committed w ++ msg ∷ [])
          × (goes_on worker msg interrupted ≡ true))
        ⊎ (((process K worker handler unmarshal on_failed w msg interrupted ≡ stopped w)
              ⊎ (process K worker handler unmarshal on_failed w msg interrupted ≡ panicked w))
            × (goes_on worker msg interrupted ≡ false))

    Ends-below :
        (w : K.World) (msg : Message) (interrupted : Bool) (k : ℕ)
        → ltb_ℤ (count_of msg) worker.max_retry ≡ true
        → count_of msg ≡ pos k
        → Ends w msg interrupted
    unfolding Ends
    Ends-below w msg true k below e = inr (
      inl (process_interrupted K L worker handler unmarshal on_failed w msg k below e),
      rw below (rw e refl),
    )
    Ends-below w msg false k below e = inl (
      _,
      process_retry K L worker handler unmarshal on_failed w msg k below e,
      committed-attempt w msg (pos k),
      rw below (rw e refl),
    )

    process-Ends : (w : K.World) (msg : Message) (interrupted : Bool) → Ends w msg interrupted
    unfolding Ends
    process-Ends w msg interrupted = elim (Bool-cases (ltb_ℤ (count_of msg) worker.max_retry)) [
      | inr over ↦ inl (
        _,
        process_exhausted K L worker handler unmarshal on_failed w msg interrupted over,
        committed-commit_sure _ msg ∙ ap (λ l. l ++ msg ∷ []) (still w msg),
        rw over refl,
      )
      | inl below ↦ elim (ℤ-cases (count_of msg)) [
        | inr (k, e) ↦ inr (
          inr (process_negative K L worker handler unmarshal on_failed w msg interrupted k below e),
          rw below (rw e refl),
        )
        | inl (k, e) ↦ Ends-below w msg interrupted k below e
      ]
    ]

    run_read_failed :
        (w : K.World) (err : ReadError) (polls : List Poll)
        → run K worker handler unmarshal on_failed w (read_failed err ∷ polls)
          ≡ run K worker handler unmarshal on_failed w polls
    unfolding run
    run_read_failed w err polls = ground arith

    run_going :
        (w w' : K.World) (msg : Message) (interrupted : Bool) (polls : List Poll)
        → process K worker handler unmarshal on_failed w msg interrupted ≡ going w'
        → run K worker handler unmarshal on_failed w (received msg interrupted ∷ polls)
          ≡ run K worker handler unmarshal on_failed w' polls
    unfolding run
    run_going w w' msg interrupted polls e = rw (e, run) refl

    run_over :
        (w : K.World) (msg : Message) (interrupted : Bool) (polls : List Poll)
        → (process K worker handler unmarshal on_failed w msg interrupted ≡ stopped w)
          ⊎ (process K worker handler unmarshal on_failed w msg interrupted ≡ panicked w)
        → world_of (run K worker handler unmarshal on_failed w (received msg interrupted ∷ polls))
          ≡ w
    unfolding run
    run_over w msg interrupted polls (inl e) = rw (e, run) refl
    run_over w msg interrupted polls (inr e) = rw (e, run) refl

    finished_going :
        (msg : Message) (interrupted : Bool) (polls : List Poll)
        → goes_on worker msg interrupted ≡ true
        → finished worker (received msg interrupted ∷ polls) ≡ msg ∷ finished worker polls
    finished_going msg interrupted polls h = rw h refl

    finished_over :
        (msg : Message) (interrupted : Bool) (polls : List Poll)
        → goes_on worker msg interrupted ≡ false
        → finished worker (received msg interrupted ∷ polls) ≡ []
    finished_over msg interrupted polls h = rw h refl

    -- For a client that behaves as documented and a handler that neither publishes nor commits: if
    -- no commit fails and the callback commits nothing, a run of the dead letter worker commits
    -- exactly the messages before its end, in their order and each once: it ends at the
    -- cancellation, at a wait that is cut short, or at a panic over a negative count, and the
    -- message at which it ends is not committed.
    pub committed-dlq_run :
        (w : K.World) (polls : List Poll)
        → L.committed (world_of (run K worker handler unmarshal on_failed w polls))
          ≡ L.committed w ++ finished worker polls
    unfolding run Ends
    committed-dlq_run w [] = sym (append-nil _)
    committed-dlq_run w (cancelled ∷ polls) = sym (append-nil _)
    committed-dlq_run w (read_failed err ∷ polls) =
        rw (run_read_failed w err polls) (committed-dlq_run w polls)
    committed-dlq_run w (received msg interrupted ∷ polls) = elim (process-Ends w msg interrupted) [
      | inl (w', e, grown, on) ↦
          ap (λ f. L.committed (world_of f)) (run_going w w' msg interrupted polls e)
          ∙ committed-dlq_run w' polls
          ∙ ap (λ l. l ++ finished worker polls) grown
          ∙ append_assoc (L.committed w) (msg ∷ []) (finished worker polls)
          ∙ ap (λ l. L.committed w ++ l) (sym (finished_going msg interrupted polls on))
      | inr (how, off) ↦
          ap L.committed (run_over w msg interrupted polls how)
          ∙ sym (append-nil _)
          ∙ ap (λ l. L.committed w ++ l) (sym (finished_over msg interrupted polls off))
    ]
