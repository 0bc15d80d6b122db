-- ===== src/Messaging/Dlq/Retries.antt =====
-- How often a message goes round the dead letter queue.
use eventmind.Base.{
  ℕ, zero, suc, ◌+◌, ◌≤◌, ◌<◌, ◌≡◌, refl, ◌∙◌, sym, ap, ◌⊎◌, inl, inr, Text, Bool, true, false,
  Option, [], ◌∷◌, ◌++◌, arith, ℤ, pos, negsuc, ltb_ℤ, add64, add64-suc, half_word, Time,
  Bool-cases, subst, ℤ-cases, pos_inj, append-ne_self, append_last_inj,
}
use eventmind.Events.{Event}
use eventmind.Messaging.Headers.{header_int, retry_count_key}
use eventmind.Messaging.Headers.Laws.{header_int-merge_headers, others, others-merge_headers}
use eventmind.Messaging.Kafka.{Message, Client, Handler, commit, IsLawful, IsApart}
use eventmind.Messaging.Backoff.{backoff}
use eventmind.Messaging.Dlq.{DlqWorker, Flow, going, stopped, panicked, give_up, attempt, process}
use eventmind.Messaging.Dlq.Branches.{
  requeued, discarded, succeeded, back_in_queue, lost, attempt-Fate,
}

-- The retry count of a message, as the worker reads it.
abbrev pub count_of : Message → ℤ
count_of msg = header_int msg.headers retry_count_key

-- The state in which a loop body ends.
abbrev pub world_of : {W : Type 0} → Flow W → W
world_of (going w) = w
world_of (stopped w) = w
world_of (panicked w) = w

pub count_of-requeued :
    (worker : DlqWorker) (msg : Message) (k : ℕ) (err : Text) (now : Time)
    → suc k < half_word
    → count_of (requeued worker msg (pos k) err now) ≡ pos (k + 1)
count_of-requeued worker msg k err now h =
    header_int-merge_headers msg.headers (add64 (pos k) (pos 1)) err now
      (rw (add64-suc k h) (omega arith))
    ∙ add64-suc k h

lt_of_test : (n max : ℤ) (k most : ℕ) → ltb_ℤ n max ≡ true → n ≡ pos k → max ≡ pos most → k < most
lt_of_test n max k most h e d = ground arith

module _ (K : Client) (L : IsLawful K) (worker : DlqWorker) (handler : Handler K)
    (unmarshal : Text → Option Event) (on_failed : Option (K.World → Text → K.World)) where
  -- The callback for permanent failures leaves the queues alone.
  abbrev pub IsQuiet : Type 0
  IsQuiet =
      (w : K.World) (msg : Message)
      → L.published (give_up K worker handler unmarshal on_failed w msg) ≡ L.published w

  pub process_exhausted :
      (w : K.World) (msg : Message) (interrupted : Bool)
      → ltb_ℤ (count_of msg) worker.max_retry ≡ false
      → process K worker handler unmarshal on_failed w msg interrupted
        ≡ going (K.commit (give_up K worker handler unmarshal on_failed w msg) msg).1
  unfolding process commit
  process_exhausted w msg interrupted h = rw h

  pub process_negative :
      (w : K.World) (msg : Message) (interrupted : Bool) (k : ℕ)
      → ltb_ℤ (count_of msg) worker.max_retry ≡ true
      → count_of msg ≡ negsuc k
      → process K worker handler unmarshal on_failed w msg interrupted ≡ panicked w
  unfolding process backoff
  process_negative w msg interrupted k h e = ground arith

  pub process_interrupted :
      (w : K.World) (msg : Message) (k : ℕ)
      → ltb_ℤ (count_of msg) worker.max_retry ≡ true
      → count_of msg ≡ pos k
      → process K worker handler unmarshal on_failed w msg true ≡ stopped w
  unfolding process backoff
  process_interrupted w msg k h e = ground arith

  pub process_retry :
      (w : K.World) (msg : Message) (k : ℕ)
      → ltb_ℤ (count_of msg) worker.max_retry ≡ true
      → count_of msg ≡ pos k
      → process K worker handler unmarshal on_failed w msg false
        ≡ going (attempt K worker handler unmarshal on_failed w msg (pos k))
  unfolding process backoff
  process_retry w msg k h e = ground arith

  module _ (A : IsApart K L handler) (quiet : IsQuiet) (most : ℕ)
      (max_is : worker.max_retry ≡ pos most) (in_range : most < half_word) where
    -- What one round adds to the queue: nothing, or the message with its count raised by one.
    abbrev pub IsNextTo : K.World → K.World → Message → Message → Type 0
    IsNextTo w after msg m =
        (k : ℕ) × (L.published after ≡ L.published w ++ m ∷ [])
        × (count_of msg ≡ pos k)
        × (count_of m ≡ pos (k + 1))
        × (k + 1 ≤ most)
        × (m.topic ≡ worker.dlq_topic)
        × (m.key ≡ msg.key)
        × (m.value ≡ msg.value)
        × (others m.headers ≡ others msg.headers)

    attempt-IsNextTo :
        (w : K.World) (msg : Message) (k : ℕ)
        → count_of msg ≡ pos k
        → k < most
        → let after = attempt K worker handler unmarshal on_failed w msg (pos k) in
          (L.published after ≡ L.published w) ⊎ ((m : Message) × IsNextTo w after msg m)
    attempt-IsNextTo w msg k e h =
        elim (attempt-Fate K L worker handler A unmarshal on_failed w msg (pos k)) [
          | discarded bad same ↦ inl same
          | succeeded ev good fine same ↦ inl same
          | back_in_queue ev err now good bad grown ↦ inr (
            requeued worker msg (pos k) err now,
            (
              k,
              grown,
              e,
              count_of-requeued worker msg k err now (omega arith),
              omega arith,
              refl,
              refl,
              refl,
              others-merge_headers msg.headers _ err now,
            ),
          )
          | lost ev err refusal good bad refused same ↦ inl same
        ]

    process-nonneg :
        (w : K.World) (msg : Message) (interrupted : Bool) (k : ℕ)
        → ltb_ℤ (count_of msg) worker.max_retry ≡ true
        → count_of msg ≡ pos k
        → let after = world_of (process K worker handler unmarshal on_failed w msg interrupted) in
          (L.published after ≡ L.published w) ⊎ ((m : Message) × IsNextTo w after msg m)
    process-nonneg w msg true k h e = rw (process_interrupted w msg k h e) (inl refl)
    process-nonneg w msg false k h e =
        rw (process_retry w msg k h e)
          (attempt-IsNextTo w msg k e (lt_of_test _ _ k most h e max_is))

    -- One round of the dead letter worker publishes nothing, or one copy of the message that it
    -- took, to its own topic, with the same key, value and other headers and with the count raised
    -- by one, which is then at most the maximum.
    pub process-IsNextTo :
        (w : K.World) (msg : Message) (interrupted : Bool)
        → let after = world_of (process K worker handler unmarshal on_failed w msg interrupted) in
          (L.published after ≡ L.published w) ⊎ ((m : Message) × IsNextTo w after msg m)
    process-IsNextTo w msg interrupted = elim (Bool-cases (ltb_ℤ (count_of msg) worker.max_retry)) [
      | inr over ↦
          rw (process_exhausted w msg interrupted over)
            (inl (L.published-commit _ msg ∙ quiet w msg))
      | inl below ↦ elim (ℤ-cases (count_of msg)) [
        | inl (k, e) ↦ process-nonneg w msg interrupted k below e
        | inr (k, e) ↦ rw (process_negative w msg interrupted k below e) (inl refl)
      ]
    ]

    -- The copies of a message in the queue: each is put there by a round over the one before.
    pub data Descends (origin : Message) : ℕ → Message → Type 0 where
      first : Descends origin zero origin
      again :
          {n : ℕ} {msg m : Message}
          → Descends origin n msg
          → (w : K.World) (interrupted : Bool)
          → L.published (world_of (process K worker handler unmarshal on_failed w msg interrupted))
            ≡ L.published w ++ m ∷ []
          → Descends origin (suc n) m

    Descends-step :
        (w : K.World) (msg m : Message) (interrupted : Bool)
        → let after = world_of (process K worker handler unmarshal on_failed w msg interrupted) in
          L.published after ≡ L.published w ++ m ∷ [] → IsNextTo w after msg m
    Descends-step w msg m interrupted e = elim (process-IsNextTo w msg interrupted) [
      | inl same ↦ absurd (append-ne_self (L.published w) m (sym same ∙ e))
      | inr (m', next) ↦
          subst
            (λ x.
              IsNextTo w (world_of (process K worker handler unmarshal on_failed w msg interrupted))
                msg x)
            (append_last_inj (L.published w) m' m (sym (next.1) ∙ e)) next
    ]

    -- For a client that behaves as documented, a handler that neither publishes nor commits, a
    -- callback that publishes nothing, and a maximum from 0 to 2^63 - 1: a message that begins
    -- with retry count 0 is put back at most as often as the maximum says, in whatever states the
    -- rounds take place and whichever calls fail: its n-th copy has count n, n is at most the
    -- maximum, and key, value and all headers but the retry fields are those of the first copy.
    pub Descends-bound :
        {origin : Message} {n : ℕ} {msg : Message}
        → count_of origin ≡ pos 0
        → Descends origin n msg
        → (n ≤ most)
          × (count_of msg ≡ pos n)
          × (msg.key ≡ origin.key)
          × (msg.value ≡ origin.value)
          × (others msg.headers ≡ others origin.headers)
    Descends-bound zero_count first = (omega arith, zero_count, refl, refl, refl)
    Descends-bound zero_count (again {n} {msg} {m} d w interrupted e) =
        let (k, grown, was, now, small, topic, key, value, rest) =
          Descends-step w msg m interrupted e in
        let (bound, count, key', value', rest') = Descends-bound zero_count d in
        let same : k ≡ n = pos_inj k n (sym was ∙ count) in
        (omega arith, now ∙ ap pos (omega arith), key ∙ key', value ∙ value', rest ∙ rest')
