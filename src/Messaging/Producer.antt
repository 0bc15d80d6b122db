-- ===== src/Messaging/Producer.antt =====
-- internal/messaging/producer.go: `Publish`. The delivery reports of the client are only logged.
use eventmind.Base.{Text, bytes, ◌++◌, [], Option, some, Result, ok, err}
use eventmind.Events.{Event}
use eventmind.Messaging.Kafka.{Message, Client}

module _ (K : Client) (marshal : Event → Result Text) (topic : Text) where
  -- The message of an event: its id is the key.
  abbrev pub event_message : Event → Text → Message
  event_message ev value = record { topic = topic; key = ev.id; value = value; headers = [] }

  -- `Publish`, with `json.Marshal` as a parameter.
  unfoldable pub publish : K.World → Event → Option Text × K.World
  publish w ev = elim (marshal ev) [
    | err e ↦ (some (bytes "marshal event: " ++ e), w)
    | ok value ↦ K.produce w (event_message ev value)
  ]
