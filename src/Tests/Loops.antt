-- ===== src/Tests/Loops.antt =====
-- The loops of the worker: the last retry, a run, and both loops in turn.
use eventmind.Base.{
  List, ◌∷◌, scan_int, ltb_ℤ, ◌≡◌, refl, bytes, text_eq, false, none, some, [], pos,
}
use eventmind.Storage.Postgres as Postgres
use eventmind.Messaging.Kafka.{Message}
use eventmind.Messaging.Consumer as Consumer
use eventmind.Messaging.Consumer.{consume}
use eventmind.Messaging.Headers.{header_int, retry_count_key}
use eventmind.Metrics.{retry_attempts}
use eventmind.Messaging.Dlq.{attempt}
use eventmind.Messaging.Dlq.Retries.{count_of, world_of}
use eventmind.Worker.{World, handler, client, permanent_failure, permanently_failed}
use eventmind.Worker.Runs.{AllSettled, run-AllSettled}
use eventmind.Worker.Permanent.{round, recorded, round_permanent}
use eventmind.Tests.Memory.{
  find, one_event, no_queues, queue_broker, queue_broker-IsBroker, memory_redis-IsLawful, memory_pg,
  memory_pg-IsLawful,
}
use eventmind.Tests.Agent.{payment, sure, no_model}
use eventmind.Events.{Event}
use eventmind.Worker.Handling.{guard}
use eventmind.Worker.Interleaving.{
  noted, Course, start, consumed, retried, AllKnown, Course-AllKnown,
}
use eventmind.Tests.Worker.{
  services, idle, payment_message, payment_letter, dlq_worker, after_failure, is_payment,
  lets_through, stops,
}

-- The event is in Postgres, and its letter has been tried five times.
abbrev with_event : World (services sure)
with_event = record (idle sure) { pg = one_event (bytes "e7") }

abbrev last_letter : Message
last_letter = record payment_letter {
  headers = record { key = retry_count_key; value = bytes "5" } ∷ [];
}

used_up : ltb_ℤ (count_of last_letter) (pos 5) ≡ false
unfolding header_int text_eq scan_int retry_count_key
used_up = refl

accepted :
    (Postgres.save_decision memory_pg with_event.pg
      (recorded (services sure) dlq_worker with_event payment)).0
    ≡ none
unfolding Postgres.save_decision Postgres.decision_row permanent_failure text_eq
accepted = refl

round_permanent_example :
    let w' = world_of (round (services sure) dlq_worker with_event last_letter false) in
    let d = recorded (services sure) dlq_worker with_event payment in
    (find d.id w'.pg.decisions ≡ some (Postgres.decision_row d))
    × (d.event_id ≡ bytes "e7")
    × (d.status ≡ permanently_failed)
    × (w'.kafka ≡ (queue_broker.commit no_queues last_letter).1)
    × (w'.counts ≡ retry_attempts (bytes "permanent_failure") ∷ [])
round_permanent_example =
    round_permanent (services sure) dlq_worker memory_pg-IsLawful with_event last_letter payment
      false is_payment used_up accepted

abbrev two_polls : List Consumer.Poll
two_polls = Consumer.received payment_message ∷ Consumer.received payment_message ∷ []

run-AllSettled_example :
    AllSettled
      (services sure)
      queue_broker-IsBroker
      (bytes "dead")
      (Consumer.run
        (client (services sure))
        (bytes "dead")
        (handler (services sure))
        (services sure).unmarshal
        (idle sure)
        two_polls)
      (idle sure)
      two_polls
run-AllSettled_example =
    run-AllSettled (services sure) queue_broker-IsBroker (bytes "dead") (idle sure) two_polls

-- The first attempt and a retry, both of which the guard answers.
abbrev handled_twice : List Event
handled_twice =
    noted (guard (services no_model) after_failure payment) payment
      (noted (guard (services no_model) (idle no_model) payment) payment [])

abbrev after_retry : World (services no_model)
after_retry =
    attempt (client (services no_model)) dlq_worker (handler (services no_model))
      (services no_model).unmarshal none after_failure payment_letter (pos 0)

both_loops :
    Course
      (services no_model)
      memory_redis-IsLawful
      (bytes "dead")
      dlq_worker
      none
      (idle no_model)
      handled_twice
      after_retry
both_loops =
    retried payment_letter (pos 0) payment (consumed payment_message payment start is_payment)
      is_payment

-- The guard has answered both times.
both_answered : handled_twice ≡ payment ∷ payment ∷ []
both_answered = rw (lets_through no_model) (rw stops refl)

Course-AllKnown_example :
    AllKnown
      (services no_model)
      memory_redis-IsLawful
      (bytes "dead")
      dlq_worker
      none
      after_retry
      handled_twice
Course-AllKnown_example =
    Course-AllKnown (services no_model) memory_redis-IsLawful (bytes "dead") dlq_worker none
      both_loops
