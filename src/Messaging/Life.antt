-- ===== src/Messaging/Life.antt =====
-- The life of a message that always fails, through both loops of internal/messaging.
use eventmind.Base.{
  ℕ, suc, ◌<◌, ◌≡◌, refl, arith, Text, Option, some, none, [], ◌∷◌, ◌++◌, pos, half_word,
}
use eventmind.Events.{Event}
use eventmind.Messaging.Kafka.{Message, Client, Handler, IsLawful, IsApart}
use eventmind.Messaging.Consumer.{to_dlq, consume}
use eventmind.Messaging.Consumer.Branches.{
  dead_letter, header_int-dead_letter_headers, Fate, skipped, handled, dead_lettered, lost,
  consume-Fate,
}
use eventmind.Messaging.Dlq.{DlqWorker}
use eventmind.Messaging.Dlq.Retries.{IsQuiet}
use eventmind.Messaging.Dlq.Exhaustion.{IsExhausted, deliveries-IsExhausted}

module _ (K : Client) (L : IsLawful K) (worker : DlqWorker) (handler : Handler K)
    (unmarshal : Text → Option Event) (on_failed : Option (K.World → Text → K.World))
    (A : IsApart K L handler) (quiet : IsQuiet K L worker handler unmarshal on_failed) (most : ℕ)
    (max_is : worker.max_retry ≡ pos most) (in_range : most < half_word)
    (fails : (w : K.World) (ev : Event) → (err : Text) × ((handler w ev).0 ≡ some err))
    (taken : (w : K.World) (m : Message) → (K.produce w m).0 ≡ none) where
  -- The letter of a message, and what becomes of it.
  pub record IsBuried (w : K.World) (msg : Message) (after : K.World) : Type 0 where
    pub letter : Message
    pub same_value : letter.value ≡ msg.value
    pub published : L.published after ≡ L.published w ++ letter ∷ []
    pub exhausted :
        (v : K.World)
        → IsExhausted K L worker handler unmarshal on_failed A quiet most max_is in_range fails
            taken
            (suc most)
            v
            letter
            0
            most

  IsBuried-Fate :
      (w : K.World) (msg : Message) (ev : Event) (after : K.World)
      → unmarshal msg.value ≡ some ev
      → Fate K L worker.dlq_topic handler unmarshal w msg after
      → IsBuried w msg after
  unfolding to_dlq
  IsBuried-Fate w msg ev after good (skipped bad same) = absurd cc
  IsBuried-Fate w msg ev after good (handled other good' fine same) =
      absurd (let (err, bad) = fails w other in cc)
  IsBuried-Fate w msg ev after good (lost other err refusal good' bad refused same) = absurd (
      let took =
        taken (K.now (handler w other).1).1
          (dead_letter worker.dlq_topic msg err (K.now (handler w other).1).0) in
      cc)
  IsBuried-Fate w msg ev after good (dead_lettered other err now good' bad grown) = record {
    letter = dead_letter worker.dlq_topic msg err now;
    same_value = refl;
    published = grown;
    exhausted = λ v.
        deliveries-IsExhausted K L worker handler unmarshal on_failed A quiet most max_is in_range
          fails taken most (suc most) 0 v (dead_letter worker.dlq_topic msg err now) ev good
          (header_int-dead_letter_headers msg err now) (omega arith) (omega arith);
  }

  -- With a lawful client that takes every message, a handler that always fails, a handler and a
  -- callback that leave the queues alone, and a maximum below 2^63: an event that is consumed
  -- leaves one dead letter with its value in the queue; from any later state the dead letter
  -- worker delivers that letter and its copies with exactly the counts 0, 1, up to the maximum,
  -- then calls the callback for a copy with the same value and commits it.
  pub consume-IsBuried :
      (w : K.World) (msg : Message) (ev : Event)
      → unmarshal msg.value ≡ some ev
      → IsBuried w msg (consume K worker.dlq_topic handler unmarshal w msg)
  consume-IsBuried w msg ev good =
      IsBuried-Fate w msg ev _ good (consume-Fate K L worker.dlq_topic handler A unmarshal w msg)
