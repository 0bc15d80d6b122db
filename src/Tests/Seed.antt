-- ===== src/Tests/Seed.antt =====
-- The seed script with a client in memory that refuses some events.
use eventmind.Base.{
  ◌-◌, ◌≡◌, refl, Text, bytes, text_eq, Bool, not, none, some, List, map, keep, ok, arith,
  if◌then◌else◌,
}
use eventmind.Events.{
  Event, order_placed, support_ticket_created, payment_failed, user_signup, inventory_low,
}
use eventmind.Messaging.Kafka.{Client, IsLawful}
use eventmind.Messaging.Producer.{event_message}
use eventmind.Seed.Run.{Returns, Ends}
use eventmind.Seed.Samples.{
  Sources, seed_order_placed, seed_support_ticket, seed_payment_failed, seed_user_signup,
  seed_inventory_low,
}
use eventmind.Seed.Shapes.{IsGenerator, IsSample, samples_fit}
use eventmind.Seed.Build.{seed}
use eventmind.Seed.Counts.{IsEven}
use eventmind.Seed.Publication.{seed-Ends}
use eventmind.Tests.Memory.{no_queues, queue_client, send}
use eventmind.Tests.Messaging.{full}

abbrev refuses : Event → Bool
refuses ev = text_eq ev.type payment_failed

-- A client that refuses the events about payments.
abbrev picky : Client
picky = record (queue_client none) {
  produce = λ w m. send (if text_eq m.value payment_failed then some full else none) w m;
}

abbrev picky-IsLawful : IsLawful picky
picky-IsLawful = record {
  published = λ w. w.published;
  committed = λ w. w.committed;
  published-produce = λ w m. refl;
  committed-produce = λ w m. refl;
  published-commit = λ w m. refl;
  committed-commit = λ w m. refl;
  published-now = λ w. refl;
  committed-now = λ w. refl;
}

-- The largest draws, and one identifier.
abbrev dice : Sources picky
dice = record {
  int_n = λ w n. (n - 1, w);
  new_uuid = λ w. (bytes "01234567-89ab-4cde-8f01-23456789abcd", w);
  marshal = λ object. bytes "{}";
}

dice-IsGenerator : IsGenerator picky-IsLawful dice
dice-IsGenerator = record {
  int_n_lem = λ w n h. omega (arith, h);
  new_uuid_lem = λ w. refl;
  published-int_n = λ w n. refl;
  published-new_uuid = λ w. refl;
}

samples_fit_example :
    Returns picky-IsLawful.published (IsSample dice order_placed) (seed_order_placed dice)
    × Returns picky-IsLawful.published
        (IsSample dice support_ticket_created)
        (seed_support_ticket dice)
    × Returns picky-IsLawful.published (IsSample dice payment_failed) (seed_payment_failed dice)
    × Returns picky-IsLawful.published (IsSample dice user_signup) (seed_user_signup dice)
    × Returns picky-IsLawful.published (IsSample dice inventory_low) (seed_inventory_low dice)
samples_fit_example = samples_fit picky-IsLawful dice dice-IsGenerator

abbrev by_type : Event → Text
by_type ev = ev.type

seed-Ends_example :
    Ends
      (λ r.
        (evs : List Event) × IsEven 10 evs
        × (r.1.published
            ≡ map
                (λ ev. event_message picky (λ e. ok (by_type e)) (bytes "events") ev ev.type)
                (keep (λ ev. not (refuses ev)) evs)))
      (seed dice (λ ev. ok (by_type ev)) (bytes "events") no_queues)
seed-Ends_example =
    seed-Ends picky-IsLawful dice dice-IsGenerator (λ ev. ok (by_type ev)) (bytes "events") by_type
      (λ ev. refl) refuses full (λ w ev. refl) no_queues
