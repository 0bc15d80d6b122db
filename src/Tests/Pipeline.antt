-- ===== src/Tests/Pipeline.antt =====
-- An order that is posted, consumed and read, over the services in memory.
use eventmind.Base.{
  Text, ◌≡◌, ◌≢◌, refl, bytes, index_byte, trim_space, last_index_byte, text_eq, true, none, some,
  ok, [],
}
use eventmind.Events.{Event, order_placed, valid}
use eventmind.Agent.Process as Agent
use eventmind.Agent.Extract as Extract
use eventmind.Agent.Tools as Tools
use eventmind.Cache as Cache
use eventmind.Cache.{seen, seen_key, decision_key, negate}
use eventmind.Storage.Postgres as Postgres
use eventmind.Messaging.Kafka.{commit}
use eventmind.Messaging.Producer.{publish}
use eventmind.Messaging.Consumer as Consumer
use eventmind.Messaging.Consumer.{consume}
use eventmind.Rest.Handlers.{
  respond, status_created, event_body, cache_hit, ingest_event, ingest_bound, store_event,
  publish_saved,
}
use eventmind.Worker.{Services, handler, store_raw, process_event, after_check}
use eventmind.Worker.Handling.{guard}
use eventmind.Pipeline.{ApiParts, Site, post, work}
use eventmind.Pipeline.Offered.{IsOffered}
use eventmind.Pipeline.Journey.{IsKept, IsShown, after_post, decision_of, after_work}
use eventmind.Pipeline.Delivery.{UseJson, read-work-post-marshal}
use eventmind.Events.Codec.{raw_value, marshal, unmarshal}
use eventmind.Events.Codec.Laws.{ArePlain, unmarshal-marshal}
use eventmind.Tests.Json as Json
use eventmind.Tests.Json.{small_json, is_plain}
use eventmind.Tests.Json.Laws.{small_json-IsJson, small_json-ArePlain}
use eventmind.Tests.Memory.{queue_broker-IsBroker, memory_pg-IsLawful}
use eventmind.Tests.Agent.{sure}
use eventmind.Tests.Rest as Rest
use eventmind.Tests.Worker.{services}

abbrev posted : Event
posted = record {
  id = bytes "e9";
  type = order_placed;
  payload = bytes "42";
  source = [];
  timestamp = 8;
}

-- Both programs use the same encoding.
abbrev both : Services
both = record (services sure) { unmarshal = unmarshal small_json }

abbrev parts : ApiParts
parts = record {
  Clock = Rest.api.Clock;
  now = Rest.api.now;
  new_uuid = Rest.api.new_uuid;
  topic = Rest.api.topic;
  bind = λ body. ok (record { type = order_placed; payload = bytes "42"; source = [] });
  quote = Rest.api.quote;
  marshal_event = marshal small_json;
  marshal_decision = Rest.api.marshal_decision;
}

abbrev before : Site both parts
before = record {
  clock = 7;
  worker = record {
    agent = 100;
    redis = [];
    pg = Rest.start_state.pg;
    mongo = [];
    kafka = Rest.start_state.kafka;
    counts = [];
  };
}

is_created : (post both parts before (bytes "body")).0 ≡ respond status_created (event_body posted)
unfolding post ingest_event ingest_bound store_event publish_saved valid text_eq Postgres.save_event
    publish
is_created = refl

abbrev posted_value : Text
posted_value =
    bytes "{\"id\":\"e9\",\"type\":\"order_placed\",\"payload\":42,\"timestamp\":\"00000000\"}"

is_encoded : marshal small_json posted ≡ ok posted_value
unfolding marshal Json.zeros Json.compact Json.object
is_encoded = refl

is_compact : raw_value small_json (bytes "42") ≡ ok (bytes "42")
unfolding raw_value Json.compact
is_compact = refl

are_plain : ArePlain small_json small_json-IsJson posted
unfolding is_plain
are_plain = small_json-ArePlain posted refl refl refl

both_use_json : UseJson both parts small_json small_json-IsJson
both_use_json = record { encodes = λ ev. refl; decodes = λ value. refl }

is_fresh : guard both (after_post both parts before (bytes "body")) posted ≢ ok true
unfolding post ingest_event ingest_bound store_event publish_saved valid text_eq Postgres.save_event
    publish seen negate seen_key marshal Json.compact
is_fresh e = cc

is_saved :
    (Postgres.save_decision both.pg
      (after_post both parts before (bytes "body")).pg
      (decision_of both parts before (bytes "body") posted)).0
    ≡ none
unfolding post ingest_event ingest_bound store_event publish_saved valid text_eq Postgres.save_event
    publish Postgres.save_decision Postgres.decision_row Postgres.event_row Agent.process
    Extract.extract_json index_byte trim_space last_index_byte Tools.valid marshal Json.compact
is_saved = refl

is_not_cached :
    cache_hit (
      Cache.get_decision both.redis
        (after_work both parts
          (bytes "dead")
          before
          (bytes "body")
          posted
          posted_value).worker.redis
        (decision_of both parts before (bytes "body") posted).id)
    ≡ none
unfolding work post ingest_event ingest_bound store_event publish_saved valid text_eq
    Postgres.save_event publish consume Consumer.handle Consumer.to_dlq commit handler store_raw
    after_check process_event seen negate seen_key decision_key Cache.get_decision Cache.get_result
    cache_hit Agent.process Extract.extract_json index_byte trim_space last_index_byte Tools.valid
    unmarshal Json.parse Json.unquote Json.read_count marshal Json.compact
is_not_cached = refl

read-work-post-marshal_example :
    IsOffered both parts queue_broker-IsBroker before posted posted_value
      (post both parts before (bytes "body")).1
    × IsKept both parts memory_pg-IsLawful before posted (post both parts before (bytes "body")).1
    × ((decision_of both parts before (bytes "body") posted).event_id ≡ posted.id)
    × IsShown both parts
        (after_work both parts (bytes "dead") before (bytes "body") posted posted_value)
        (decision_of both parts before (bytes "body") posted)
read-work-post-marshal_example =
    read-work-post-marshal both parts small_json small_json-IsJson both_use_json
      queue_broker-IsBroker memory_pg-IsLawful (bytes "dead") before (bytes "body") posted_value
      (bytes "42") posted are_plain is_created is_encoded is_compact is_fresh is_saved is_not_cached

unmarshal-marshal_example :
    (raw : Text) × (raw_value small_json posted.payload ≡ ok raw)
    × (unmarshal small_json posted_value ≡ some (record posted { payload = raw }))
    × (marshal small_json (record posted { payload = raw }) ≡ ok posted_value)
unmarshal-marshal_example =
    unmarshal-marshal small_json small_json-IsJson posted posted_value are_plain is_encoded
