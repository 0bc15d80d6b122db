-- ===== src/Messaging/Consumer.antt =====
-- internal/messaging/consumer.go: the main consume loop. What the loop meets, in order, is a list
-- of polls; logging is left out.
pub mod Branches
pub mod Runs
use eventmind.Base.{
  Text, bytes, Bool, true, false, Option, none, some, List, [], ◌∷◌, format_rfc3339, Time,
  if◌then◌else◌,
}
use eventmind.Events.{Event}
use eventmind.Messaging.Headers.{Header, retry_count_key, error_key}
use eventmind.Messaging.Kafka.{Message, ReadError, is_timeout, Client, Handler, publish_raw, commit}

-- One round of the loop up to the handler: `ctx.Done()`, or what `ReadMessage` returns.
pub data Poll : Type 0 where
  cancelled : Poll
  read_failed : ReadError → Poll
  received : Message → Poll

unfoldable pub original_topic_key : Text
original_topic_key = bytes "original-topic"

unfoldable pub failed_at_key : Text
failed_at_key = bytes "failed-at"

-- The headers of a dead letter. The retry count is the text "0".
abbrev pub dead_letter_headers : Message → Text → Time → List Header
dead_letter_headers msg err now =
    record { key = retry_count_key; value = bytes "0" }
    ∷ record { key = error_key; value = err }
    ∷ record { key = original_topic_key; value = msg.topic }
    ∷ record { key = failed_at_key; value = format_rfc3339 now }
    ∷ []

module _ (K : Client) (dlq_topic : Text) where
  -- `toDLQ`
  unfoldable pub to_dlq : K.World → Message → Text → Option Text × K.World
  unfolding publish_raw
  to_dlq w msg err =
      let (now, w') = K.now w in
      publish_raw K w' dlq_topic msg.key msg.value (dead_letter_headers msg err now)

  module _ (handler : Handler K) where
    -- The handler, and the dead letter on its failure; an error of that write is only logged.
    unfoldable pub handle : K.World → Message → Event → K.World
    handle w msg ev =
        let (failed, w') = handler w ev in
        elim failed [ none ↦ w' | some err ↦ (to_dlq w' msg err).1 ]

    -- `json.Unmarshal` into an `events.Event`, `none` for an error.
    module _ (unmarshal : Text → Option Event) where
      -- The body of the loop after a message was read.
      unfoldable pub consume : K.World → Message → K.World
      consume w msg = elim (unmarshal msg.value) [
        | none ↦ commit K w msg
        | some ev ↦ commit K (handle w msg ev) msg
      ]

      -- `Run`: both kinds of read error lead to the next round.
      unfoldable pub run : K.World → List Poll → K.World
      run w [] = w
      run w (cancelled ∷ polls) = w
      run w (read_failed err ∷ polls) =
          let retry = run w polls in if is_timeout err then retry else retry
      run w (received msg ∷ polls) = run (consume w msg) polls
