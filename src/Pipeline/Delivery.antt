-- ===== src/Pipeline/Delivery.antt =====
-- The journey of an event whose message is encoded and decoded by encoding/json.
use eventmind.Base.{ok_inj, ◌≡◌, ◌≢◌, refl, ◌∙◌, sym, ap, Text, true, none, some, ok}
use eventmind.Events.{Event}
use eventmind.Events.Codec.{Json, raw_value, marshal, unmarshal}
use eventmind.Events.Codec.Laws.{IsJson, ArePlain, unmarshal-marshal}
use eventmind.Cache as Cache
use eventmind.Storage.Postgres as Postgres
use eventmind.Storage.Postgres.Tables as Tables
use eventmind.Messaging.Kafka.{IsBroker}
use eventmind.Rest.Handlers.{status_created, respond, event_body, cache_hit}
use eventmind.Worker.{Services}
use eventmind.Worker.Handling.{guard}
use eventmind.Pipeline.{ApiParts, Site, post}
use eventmind.Pipeline.Offered.{IsOffered}
use eventmind.Pipeline.Journey.{
  IsKept, IsShown, after_post, decision_of, after_work, read-work-post,
}

-- The event as the worker gets it: its payload is the compact text of the posted one.
abbrev pub received : Event → Text → Event
received ev raw = record ev { payload = raw }

module _ (S : Services) (P : ApiParts) (J : Json) (L : IsJson J) where
  -- Both programs use this encoding.
  pub record UseJson : Type 0 where
    pub encodes : (ev : Event) → P.marshal_event ev ≡ marshal J ev
    pub decodes : (value : Text) → S.unmarshal value ≡ unmarshal J value

  decoded-received :
      (use_json : UseJson) (ev : Event) (value raw : Text)
      → ArePlain J L ev
      → P.marshal_event ev ≡ ok value
      → raw_value J ev.payload ≡ ok raw
      → S.unmarshal value ≡ some (received ev raw)
  decoded-received use_json ev value raw plain encoded is_raw =
      let (found, is_found, back, again) =
        unmarshal-marshal J L ev value plain (sym (use_json.encodes ev) ∙ encoded) in
      use_json.decodes value
      ∙ back
      ∙ ap (λ r. some (received ev r)) (ok_inj (sym is_found ∙ is_raw))

  -- If encoding/json, Postgres and the broker behave as documented, and both programs encode and
  -- decode events by it, an event with plain texts is posted, answered with status 201 and
  -- encoded, and what the worker then receives, the event with the compact text of its payload, is
  -- no duplicate to the guard, gives a decision whose insert Postgres takes, and that decision is
  -- not in the cache, then the event's message has been put behind the others in the queue, or was
  -- refused; Postgres has a row inserted with the event's values, or an older one with its id; the
  -- decision is about the event; and after the worker has consumed the message, a read of the
  -- decision answers with it, its time less than a microsecond off, or with status 500.
  pub read-work-post-marshal :
      (use_json : UseJson) (B : IsBroker S.broker) (T : Tables.IsLawful S.pg) (dlq_topic : Text)
      (site : Site S P) (body value raw : Text) (ev : Event)
      → ArePlain J L ev
      → (post S P site body).0 ≡ respond status_created (event_body ev)
      → P.marshal_event ev ≡ ok value
      → raw_value J ev.payload ≡ ok raw
      → guard S (after_post S P site body) (received ev raw) ≢ ok true
      → (Postgres.save_decision S.pg
          (after_post S P site body).pg
          (decision_of S P site body (received ev raw))).0
        ≡ none
      → cache_hit (
          Cache.get_decision S.redis
            (after_work S P dlq_topic site body ev value).worker.redis
            (decision_of S P site body (received ev raw)).id)
        ≡ none
      → IsOffered S P B site ev value (post S P site body).1
        × IsKept S P T site ev (post S P site body).1
        × ((decision_of S P site body (received ev raw)).event_id ≡ ev.id)
        × IsShown S P
            (after_work S P dlq_topic site body ev value)
            (decision_of S P site body (received ev raw))
  read-work-post-marshal use_json B T dlq_topic site body value raw ev plain created encoded is_raw
        fresh saved miss =
      read-work-post S P B T dlq_topic site body value ev (received ev raw) created encoded
        (decoded-received use_json ev value raw plain encoded is_raw) refl fresh saved miss
