-- ===== src/Tests/Messaging.antt =====
-- The loops over the queues, at short runs.
use eventmind.Base.{
  ◌*◌, ◌^◌, min, ◌≡◌, refl, Text, bytes, text_eq, Option, none, some, List, [], ◌∷◌, pos, arith,
  if◌then◌else◌,
}
use eventmind.Events.{Event, order_placed}
use eventmind.Messaging.Headers.{Header, header_int, retry_count_key, merge_headers}
use eventmind.Messaging.Headers.Laws.{header_int-merge_headers}
use eventmind.Messaging.Kafka.{
  Message, Client, Handler, IsLawful, IsApart, kafka_error, err_timed_out,
}
use eventmind.Messaging.Consumer as Consumer
use eventmind.Messaging.Consumer.{run, consume, to_dlq}
use eventmind.Messaging.Consumer.Runs.{
  AllAccounted, run-AllAccounted, committed-run, consume_loses, IsRefused,
}
use eventmind.Messaging.Backoff.{backoff}
use eventmind.Messaging.Backoff.Laws.{backoff_schedule}
use eventmind.Tests.Memory.{no_queues, queue_client, queue_client-IsLawful, constant_handler}

abbrev pub order : Event
order = record {
  id = bytes "e1";
  type = order_placed;
  payload = bytes "{}";
  source = bytes "shop";
  timestamp = 0;
}

abbrev pub only_order : Text → Option Event
only_order value = if text_eq value (bytes "order") then some order else none

abbrev pub order_message : Message
order_message = record {
  topic = bytes "events";
  key = bytes "e1";
  value = bytes "order";
  headers = [];
}

abbrev pub junk_message : Message
junk_message = record order_message { value = bytes "junk" }

abbrev pub dead : Text
dead = bytes "dead"

abbrev pub down : Text
down = bytes "llm: down"

abbrev pub full : Text
full = bytes "queue full"

-- A client that takes all messages, with a handler that never succeeds.
abbrev pub kafka : Client
kafka = queue_client none

abbrev pub kafka-IsLawful : IsLawful kafka
kafka-IsLawful = queue_client-IsLawful none

abbrev pub failing : Handler kafka
failing = constant_handler none (some down)

pub failing-IsApart : IsApart kafka kafka-IsLawful failing
failing-IsApart = record { published-handler = λ w ev. refl; committed-handler = λ w ev. refl }

abbrev three_polls : List Consumer.Poll
three_polls =
    Consumer.received order_message
    ∷ Consumer.read_failed (kafka_error err_timed_out [])
    ∷ Consumer.received junk_message
    ∷ []

run-AllAccounted_example :
    AllAccounted kafka kafka-IsLawful dead failing only_order
      (run kafka dead failing only_order no_queues three_polls)
      no_queues
      three_polls
run-AllAccounted_example =
    run-AllAccounted kafka kafka-IsLawful dead failing only_order failing-IsApart no_queues
      three_polls

committed-run_example :
    (run kafka dead failing only_order no_queues three_polls).committed
    ≡ order_message ∷ junk_message ∷ []
committed-run_example =
    committed-run kafka kafka-IsLawful dead failing only_order failing-IsApart no_queues three_polls
      (λ v m. refl)

-- A client that refuses all messages.
abbrev jammed : Client
jammed = queue_client (some full)

abbrev jammed-IsLawful : IsLawful jammed
jammed-IsLawful = queue_client-IsLawful (some full)

abbrev failing_jammed : Handler jammed
failing_jammed = constant_handler (some full) (some down)

failing_jammed-IsApart : IsApart jammed jammed-IsLawful failing_jammed
failing_jammed-IsApart = record {
  published-handler = λ w ev. refl;
  committed-handler = λ w ev. refl;
}

order-IsRefused :
    IsRefused jammed jammed-IsLawful dead failing_jammed only_order no_queues order_message
unfolding to_dlq text_eq
order-IsRefused = (order, down, full, refl, refl, refl)

consume_loses_example :
    ((consume jammed dead failing_jammed only_order no_queues order_message).published ≡ [])
    × ((consume jammed dead failing_jammed only_order no_queues order_message).committed
        ≡ order_message ∷ [])
consume_loses_example =
    consume_loses jammed jammed-IsLawful dead failing_jammed only_order failing_jammed-IsApart
      no_queues order_message order-IsRefused (λ v m. refl)

abbrev old_headers : List Header
old_headers =
    record { key = retry_count_key; value = bytes "7" }
    ∷ record { key = bytes "trace"; value = bytes "t" }
    ∷ []

header_int-merge_headers_example :
    header_int (merge_headers old_headers (pos 8) down 0) retry_count_key ≡ pos 8
header_int-merge_headers_example = header_int-merge_headers old_headers (pos 8) down 0 (omega arith)

backoff_schedule_example :
    backoff (pos 1000) (pos 4) ≡ some (pos (min (1000 * 2 ^ 4) 30000 * 1000000))
backoff_schedule_example = backoff_schedule 1000 4 (omega arith) (omega arith)
