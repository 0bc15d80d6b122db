-- ===== src/Tests/DeadLetters.antt =====
-- The dead letter worker over the queues, at short runs.
use eventmind.Base.{
  true, false, ◌≤◌, ◌≡◌, refl, bytes, text_eq, false, none, some, List, [], ◌∷◌, pos, arith,
}
use eventmind.Messaging.Headers.{header_int}
use eventmind.Messaging.Headers.Laws.{others}
use eventmind.Messaging.Kafka.{Message, kafka_error, err_timed_out, commit}
use eventmind.Messaging.Backoff.{backoff}
use eventmind.Messaging.Dlq as Dlq
use eventmind.Messaging.Dlq.{DlqWorker, process, give_up, attempt}
use eventmind.Messaging.Dlq.Branches.{requeued}
use eventmind.Messaging.Dlq.Retries.{
  count_of, world_of, IsQuiet, Descends, first, again, Descends-bound,
}
use eventmind.Messaging.Dlq.Runs.{IsStill, committed-dlq_run}
use eventmind.Messaging.Dlq.Exhaustion.{IsExhausted, deliveries-IsExhausted}
use eventmind.Messaging.Consumer.{consume}
use eventmind.Messaging.Life.{IsBuried, consume-IsBuried}
use eventmind.Tests.Memory.{no_queues}
use eventmind.Tests.Messaging.{
  order, only_order, order_message, junk_message, dead, down, kafka, kafka-IsLawful, failing,
  failing-IsApart,
}

abbrev worker : DlqWorker
worker = record { dlq_topic = dead; max_retry = pos 2; base_ms = pos 1000 }

failing-IsQuiet : IsQuiet kafka kafka-IsLawful worker failing only_order none
unfolding give_up
failing-IsQuiet w msg = refl

is_order : only_order (bytes "order") ≡ some order
unfolding text_eq
is_order = refl

no_count : count_of order_message ≡ pos 0
unfolding header_int
no_count = refl

deliveries-IsExhausted_example :
    IsExhausted kafka kafka-IsLawful worker failing only_order none failing-IsApart failing-IsQuiet
      2 refl
      (omega arith)
      (λ w ev. (down, refl))
      (λ w m. refl)
      3
      no_queues
      order_message
      0
      2
deliveries-IsExhausted_example =
    deliveries-IsExhausted kafka kafka-IsLawful worker failing only_order none failing-IsApart
      failing-IsQuiet 2 refl (omega arith) (λ w ev. (down, refl)) (λ w m. refl) 2 3 0 no_queues
      order_message order is_order no_count refl (omega arith)

consume-IsBuried_example :
    IsBuried kafka kafka-IsLawful worker failing only_order none failing-IsApart failing-IsQuiet 2
      refl
      (omega arith)
      (λ w ev. (down, refl))
      (λ w m. refl)
      no_queues
      order_message
      (consume kafka dead failing only_order no_queues order_message)
consume-IsBuried_example =
    consume-IsBuried kafka kafka-IsLawful worker failing only_order none failing-IsApart
      failing-IsQuiet 2 refl (omega arith) (λ w ev. (down, refl)) (λ w m. refl) no_queues
      order_message order is_order

abbrev second_copy : Message
second_copy = requeued worker order_message (pos 0) down 1735689600000000000

second-Descends :
    Descends kafka kafka-IsLawful worker failing only_order none failing-IsApart failing-IsQuiet 2
      refl
      (omega arith)
      order_message
      1
      second_copy
unfolding process attempt header_int backoff text_eq commit Dlq.retry Dlq.requeue
second-Descends = again {m = second_copy} first no_queues false refl

Descends-bound_example :
    (1 ≤ 2)
    × (count_of second_copy ≡ pos 1)
    × (second_copy.key ≡ bytes "e1")
    × (second_copy.value ≡ bytes "order")
    × (others second_copy.headers ≡ [])
Descends-bound_example =
    Descends-bound kafka kafka-IsLawful worker failing only_order none failing-IsApart
      failing-IsQuiet 2 refl (omega arith) no_count second-Descends

failing-IsStill : IsStill kafka kafka-IsLawful worker failing only_order none
unfolding give_up
failing-IsStill w msg = refl

-- A letter, a failed read, a letter whose wait is cut short, and one that is not reached.
abbrev dlq_polls : List Dlq.Poll
dlq_polls =
    Dlq.received order_message false
    ∷ Dlq.read_failed (kafka_error err_timed_out [])
    ∷ Dlq.received junk_message true
    ∷ Dlq.received order_message false
    ∷ []

committed-dlq_run_example :
    (world_of (Dlq.run kafka worker failing only_order none no_queues dlq_polls)).committed
    ≡ order_message ∷ []
unfolding header_int
committed-dlq_run_example =
    committed-dlq_run kafka kafka-IsLawful worker failing only_order none failing-IsApart
      failing-IsStill (λ v m. refl) no_queues dlq_polls
