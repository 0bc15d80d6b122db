-- ===== src/Messaging/Dlq/Exhaustion.antt =====
-- The life of a message whose handler never succeeds: Kafka delivers each copy of the message that
-- was put back, until the worker gives up.
use eventmind.Base.{
  ℕ, zero, suc, ◌+◌, ◌<◌, ◌≡◌, refl, ◌∙◌, sym, ap, Text, true, false, Option, none, some, List, [],
  ◌∷◌, ◌++◌, map, length, drop, arith, ℤ, pos, ltb_ℤ, half_word, subst,
}
use eventmind.Events.{Event}
use eventmind.Messaging.Kafka.{Message, Client, Handler, IsLawful, IsApart}
use eventmind.Messaging.Dlq.{
  DlqWorker, going, stopped, panicked, requeue, retry, give_up, attempt, process,
}
use eventmind.Messaging.Dlq.Branches.{requeued, attempt_parsed, published-retry_failed}
use eventmind.Messaging.Dlq.Retries.{
  count_of, count_of-requeued, IsQuiet, process_exhausted, process_retry,
}

-- The first message that was published between two states.
abbrev pub first_new : List Message → List Message → Option Message
first_new before after = elim (drop (length before) after) [ [] ↦ none | m ∷ ms ↦ some m ]

drop-length : (xs : List Message) → drop (length xs) xs ≡ []
drop-length [] = refl
drop-length (x ∷ xs) = drop-length xs

drop-length-append : (xs ys : List Message) → drop (length xs) (xs ++ ys) ≡ ys
drop-length-append [] ys = refl
drop-length-append (x ∷ xs) ys = drop-length-append xs ys

test_of_lt : (n max : ℤ) (k most : ℕ) → k < most → n ≡ pos k → max ≡ pos most → ltb_ℤ n max ≡ true
test_of_lt n max k most h e d = ground arith

test_of_eq : (n max : ℤ) (most : ℕ) → n ≡ pos most → max ≡ pos most → ltb_ℤ n max ≡ false
test_of_eq n max most e d = ground arith

first_new_same : (xs ys : List Message) → ys ≡ xs → first_new xs ys ≡ none
first_new_same xs ys e = rw e (rw (drop-length xs, first_new))

first_new-append :
    (xs ys : List Message) (m : Message) → ys ≡ xs ++ m ∷ [] → first_new xs ys ≡ some m
first_new-append xs ys m e = rw e (rw (drop-length-append xs (m ∷ []), first_new))

-- The counts n, n + 1, …, n + k.
abbrev pub counts : ℕ → ℕ → List ℤ
counts n zero = pos n ∷ []
counts n (suc k) = pos n ∷ counts (n + 1) k

module _ (K : Client) (L : IsLawful K) (worker : DlqWorker) (handler : Handler K)
    (unmarshal : Text → Option Event) (on_failed : Option (K.World → Text → K.World)) where
  -- What the worker receives, when it goes on with the copy that a round has put back: the
  -- messages and the last state. The fuel bounds the rounds.
  pub deliveries : ℕ → K.World → Message → List Message × K.World
  deliveries zero w msg = ([], w)
  deliveries (suc fuel) w msg = elim (process K worker handler unmarshal on_failed w msg false) [
    | stopped w' ↦ (msg ∷ [], w')
    | panicked w' ↦ (msg ∷ [], w')
    | going w' ↦ elim (first_new (L.published w) (L.published w')) [
      | none ↦ (msg ∷ [], w')
      | some m ↦ let (rest, last) = deliveries fuel w' m in (msg ∷ rest, last)
    ]
  ]

  deliveries_last :
      (fuel : ℕ) (w w' : K.World) (msg : Message)
      → process K worker handler unmarshal on_failed w msg false ≡ going w'
      → first_new (L.published w) (L.published w') ≡ none
      → deliveries (suc fuel) w msg ≡ (msg ∷ [], w')
  unfolding deliveries
  deliveries_last fuel w w' msg ends nothing = ground arith

  deliveries_more :
      (fuel : ℕ) (w w' : K.World) (msg m : Message)
      → process K worker handler unmarshal on_failed w msg false ≡ going w'
      → first_new (L.published w) (L.published w') ≡ some m
      → deliveries (suc fuel) w msg ≡ (msg ∷ (deliveries fuel w' m).0, (deliveries fuel w' m).1)
  unfolding deliveries
  deliveries_more fuel w w' msg m ends new = ground arith

  module _ (A : IsApart K L handler) (quiet : IsQuiet K L worker handler unmarshal on_failed)
      (most : ℕ) (max_is : worker.max_retry ≡ pos most) (in_range : most < half_word)
      (fails : (w : K.World) (ev : Event) → (err : Text) × ((handler w ev).0 ≡ some err))
      (taken : (w : K.World) (m : Message) → (K.produce w m).0 ≡ none) where
    requeue_taken :
        (w : K.World) (msg : Message) (n : ℤ) (err : Text) → (requeue K worker w msg n err).0 ≡ none
    unfolding requeue
    requeue_taken w msg n err = taken _ _

    published-retry_taken :
        (w : K.World) (msg : Message) (n : ℤ) (ev : Event) (err : Text)
        → (handler w ev).0 ≡ some err
        → L.published (retry K worker handler w msg n ev)
          ≡ L.published w ++ requeued worker msg n err (K.now (handler w ev).1).0 ∷ []
    published-retry_taken w msg n ev err bad =
        published-retry_failed K L worker handler A w msg n ev err bad
        ∙ rw (requeue_taken (handler w ev).1 msg n err)

    -- One round over a message with attempts left.
    pub record Round (w : K.World) (msg : Message) (k : ℕ) : Type 0 where
      pub after : K.World
      pub copy : Message
      pub ends : process K worker handler unmarshal on_failed w msg false ≡ going after
      pub grown : L.published after ≡ L.published w ++ copy ∷ []
      pub count : count_of copy ≡ pos (k + 1)
      pub same_value : copy.value ≡ msg.value

    round :
        (w : K.World) (msg : Message) (ev : Event) (k : ℕ)
        → unmarshal msg.value ≡ some ev
        → count_of msg ≡ pos k
        → k < most
        → Round w msg k
    round w msg ev k good e h =
        let (err, bad) = fails w ev in
        let now = (K.now (handler w ev).1).0 in
        record {
          after = attempt K worker handler unmarshal on_failed w msg (pos k);
          copy = requeued worker msg (pos k) err now;
          ends =
              process_retry K L worker handler unmarshal on_failed w msg k
                (test_of_lt _ _ k most h e max_is) e;
          grown =
              ap L.published
                (attempt_parsed K L worker handler A unmarshal on_failed w msg (pos k) ev good)
              ∙ L.published-commit _ msg
              ∙ published-retry_taken w msg (pos k) ev err bad;
          count = count_of-requeued worker msg k err now (omega arith);
          same_value = refl;
        }

    -- The life of a message from count n on, k rounds before the maximum: its copies have the
    -- counts n to n + k, and the worker ends by giving up on the last one, with the same value.
    pub record IsExhausted (fuel : ℕ) (w : K.World) (msg : Message) (n k : ℕ) : Type 0 where
      pub tried : map count_of (deliveries fuel w msg).0 ≡ counts n k
      pub before : K.World
      pub final : Message
      pub final_value : final.value ≡ msg.value
      pub given_up :
          (deliveries fuel w msg).1
          ≡ (K.commit (give_up K worker handler unmarshal on_failed before final) final).1

    last_round :
        (fuel : ℕ) (w : K.World) (msg : Message)
        → count_of msg ≡ pos most
        → IsExhausted (suc fuel) w msg most zero
    last_round fuel w msg e =
        let end = (K.commit (give_up K worker handler unmarshal on_failed w msg) msg).1 in
        let ends =
          process_exhausted K L worker handler unmarshal on_failed w msg false
            (test_of_eq _ _ most e max_is) in
        let life =
          deliveries_last fuel w end msg ends
            (first_new_same _ _ (L.published-commit _ msg ∙ quiet w msg)) in
        record {
          tried = ap (λ d. map count_of d.0) life ∙ ap (λ c. c ∷ []) e;
          before = w;
          final = msg;
          final_value = refl;
          given_up = ap (λ d. d.1) life;
        }

    -- For a client that behaves as documented, a handler that neither publishes nor commits, and a
    -- callback that publishes nothing: if the handler always fails and the client takes every
    -- message, a parseable message of count n in the dead letter queue is delivered exactly with
    -- the counts n, n + 1, up to the maximum, for any fuel above the number of rounds left, and
    -- the worker then calls the callback for a copy with the same value and commits it.
    pub deliveries-IsExhausted :
        (k fuel n : ℕ) (w : K.World) (msg : Message) (ev : Event)
        → unmarshal msg.value ≡ some ev
        → count_of msg ≡ pos n
        → n + k ≡ most
        → k < fuel
        → IsExhausted fuel w msg n k
    deliveries-IsExhausted k zero n w msg ev good e sum enough = elim enough [ ]
    deliveries-IsExhausted zero (suc fuel) n w msg ev good e sum enough =
        let same : n ≡ most = omega arith in
        subst (λ x. IsExhausted (suc fuel) w msg x zero) (sym same)
          (last_round fuel w msg (e ∙ ap pos same))
    deliveries-IsExhausted (suc k) (suc fuel) n w msg ev good e sum enough =
        let r = round w msg ev n good e (omega arith) in
        let rest =
          deliveries-IsExhausted k fuel (n + 1) r.after r.copy ev (rw r.same_value good) r.count
            (omega arith) (omega arith) in
        let life =
          deliveries_more fuel w r.after msg r.copy r.ends (first_new-append _ _ r.copy r.grown) in
        record {
          tried =
              ap (λ d. map count_of d.0) life
              ∙ ap (λ c. c ∷ map count_of (deliveries fuel r.after r.copy).0) e
              ∙ ap (λ l. pos n ∷ l) rest.tried;
          before = rest.before;
          final = rest.final;
          final_value = rest.final_value ∙ r.same_value;
          given_up = ap (λ d. d.1) life ∙ rest.given_up;
        }
