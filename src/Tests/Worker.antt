-- ===== src/Tests/Worker.antt =====
-- The worker over the services in memory, with a provider that answers and with one that fails.
use eventmind.Base.{
  ◌≡◌, ◌≢◌, refl, ◌+◌, bytes, text_eq, true, false, none, some, [], ok, pos, if◌then◌else◌,
}
use eventmind.Agent.Process as Agent
use eventmind.Agent.Process.{Completion}
use eventmind.Cache.{seen, seen_key, negate}
use eventmind.Storage.Postgres as Postgres
use eventmind.Messaging.Kafka.{Message, commit}
use eventmind.Messaging.Consumer as Consumer
use eventmind.Messaging.Consumer.{consume}
use eventmind.Messaging.Dlq.{DlqWorker, attempt}
use eventmind.Worker.{
  Services, World, handler, client, store_raw, process_event, after_check, on_permanent_failure,
}
use eventmind.Worker.Handling.{
  guard, processed, IsCounted, handler_duplicate, handler_fresh, handler-foreign_key,
}
use eventmind.Worker.Redelivery.{handler_twice, retry_drops}
use eventmind.Tests.Memory.{
  find, no_queues, no_entries, queue_broker, memory_redis, memory_redis-IsLawful, memory_pg,
  memory_pg-IsLawful, memory_mongo,
}
use eventmind.Tests.Agent.{agent_env, payment, sure, no_model}

abbrev pub services : Completion → Services
services completion = record {
  env = agent_env completion;
  redis = memory_redis;
  pg = memory_pg;
  mongo = memory_mongo;
  broker = queue_broker;
  unmarshal = λ value. if text_eq value (bytes "payment") then some payment else none;
}

abbrev pub idle : (completion : Completion) → World (services completion)
idle completion = record {
  agent = 100;
  redis = [];
  pg = no_entries;
  mongo = [];
  kafka = no_queues;
  counts = [];
}

abbrev pub payment_message : Message
payment_message = record {
  topic = bytes "events";
  key = bytes "e7";
  value = bytes "payment";
  headers = [];
}

abbrev pub payment_letter : Message
payment_letter = record payment_message { topic = bytes "dead" }

abbrev pub dlq_worker : DlqWorker
dlq_worker = record { dlq_topic = bytes "dead"; max_retry = pos 5; base_ms = pos 1000 }

pub is_payment : (services no_model).unmarshal (bytes "payment") ≡ some payment
unfolding text_eq
is_payment = refl

pub lets_through :
    (completion : Completion) → guard (services completion) (idle completion) payment ≡ ok false
unfolding seen negate seen_key
lets_through completion = refl

-- The state after the failed first attempt.
abbrev pub after_failure : World (services no_model)
after_failure =
    consume (client (services no_model)) (bytes "dead") (handler (services no_model))
      (services no_model).unmarshal (idle no_model) payment_message

pub stops : guard (services no_model) after_failure payment ≡ ok true
unfolding seen negate seen_key text_eq consume Consumer.handle handler store_raw after_check
    process_event commit Agent.process Consumer.to_dlq
stops = refl

retry_drops_example :
    let w2 =
      attempt
        (client (services no_model))
        dlq_worker
        (handler (services no_model))
        (services no_model).unmarshal
        (some (on_permanent_failure (services no_model)))
        after_failure
        payment_letter
        (pos 0) in
    (w2.kafka ≡ (queue_broker.commit after_failure.kafka payment_letter).1)
    × (w2.pg ≡ after_failure.pg)
    × (w2.counts ≡ after_failure.counts)
    × (w2.agent ≡ after_failure.agent + 1)
retry_drops_example =
    retry_drops (services no_model) memory_redis-IsLawful (bytes "dead") dlq_worker
      (some (on_permanent_failure (services no_model))) (idle no_model) payment_message
      payment_letter payment (pos 0) false true is_payment (lets_through no_model) refl stops

-- The state after a first call of the handler.
abbrev after_call : World (services sure)
after_call = (handler (services sure) (idle sure) payment).1

second_call : guard (services sure) after_call payment ≡ ok true
unfolding seen negate seen_key text_eq handler store_raw after_check process_event
second_call = refl

handler_twice_example :
    let (failed, w2) = handler (services sure) after_call payment in
    (failed ≡ none)
    × (w2.pg ≡ after_call.pg)
    × (w2.counts ≡ after_call.counts)
    × (w2.kafka ≡ after_call.kafka)
    × (w2.agent ≡ after_call.agent + 1)
handler_twice_example =
    handler_twice (services sure) memory_redis-IsLawful (idle sure) payment false true
      (lets_through sure) second_call

handler_duplicate_example :
    let (failed, w2) = handler (services sure) after_call payment in
    (failed ≡ none)
    × (w2.pg ≡ after_call.pg)
    × (w2.counts ≡ after_call.counts)
    × (w2.kafka ≡ after_call.kafka)
    × (w2.agent ≡ after_call.agent + 1)
handler_duplicate_example = handler_duplicate (services sure) after_call payment second_call

let_through : guard (services sure) (idle sure) payment ≢ ok true
unfolding seen negate seen_key
let_through e = cc

handler_fresh_example :
    let (failed, w') = handler (services sure) (idle sure) payment in
    (failed ≡ (processed (services sure) (idle sure) payment).1)
    × (w'.pg
        ≡ (Postgres.save_decision memory_pg no_entries
            (processed (services sure) (idle sure) payment).0).1)
    × (w'.agent ≡ (processed (services sure) (idle sure) payment).2)
    × (w'.kafka ≡ no_queues)
    × IsCounted (services sure) (idle sure) payment failed w'.counts
handler_fresh_example = handler_fresh (services sure) (idle sure) payment let_through

handler-foreign_key_example :
    find (bytes "d1") (handler (services sure) (idle sure) payment).1.pg.decisions ≡ none
handler-foreign_key_example =
    handler-foreign_key (services sure) memory_pg-IsLawful (idle sure) payment refl (bytes "d1")
