-- ===== src/Seed/Build.antt =====
-- scripts/seed.go: `buildSeedEvents` and the loop of `main` that publishes the events.
use eventmind.Base.{
  ℕ, zero, suc, Text, bytes, List, [], ◌∷◌, ◌++◌, Option, none, some, Result, is_empty,
  if◌then◌else◌,
}
use eventmind.Events.{Event}
use eventmind.Messaging.Kafka.{Client}
use eventmind.Messaging.Producer.{publish}
use eventmind.Seed.Run.{Run, Outcome, ◌>>=◌, pure}
use eventmind.Seed.Samples.{
  Sources, draw, seed_order_placed, seed_support_ticket, seed_payment_failed, seed_user_signup,
  seed_inventory_low,
}
use eventmind.Seed.Shuffle.{shuffle}

module _ {K : Client} (S : Sources K) where
  -- The rounds that are left of the loop, behind the events so far.
  unfoldable pub rounds : ℕ → List Event → Run K.World (List Event)
  rounds zero all = pure all
  rounds (suc n) all = do
    order ← seed_order_placed S
    ticket ← seed_support_ticket S
    payment ← seed_payment_failed S
    signup ← seed_user_signup S
    stock ← seed_inventory_low S
    rounds n (all ++ order ∷ ticket ∷ payment ∷ signup ∷ stock ∷ [])

  -- `buildSeedEvents`
  unfoldable pub build_seed_events : Run K.World (List Event)
  unfolding rounds
  build_seed_events = do all ← rounds 10 []; shuffle S all

  -- The rest of the loop: after a refused event it follows at once, else after a pause of a random
  -- length.
  unfoldable pub after_publish :
      Run K.World (Unit {0}) → Option Text × K.World → Outcome (Unit {0} × K.World)
  after_publish next (some err, w) = next w
  after_publish next (none, w) = (draw S 150 >>= λ pause. next) w

  module _ (marshal_event : Event → Result Text) (topic : Text) where
    -- The loop of `main`.
    unfoldable pub publish_each : List Event → Run K.World (Unit {0})
    unfolding after_publish
    publish_each [] w = pure tt w
    publish_each (ev ∷ evs) w =
        after_publish (publish_each evs) (publish K marshal_event topic w ev)

    -- `main` after the producer has been made.
    unfoldable pub seed : Run K.World (Unit {0})
    unfolding build_seed_events publish_each
    seed = build_seed_events >>= publish_each

-- The address of the brokers and the topic, with their defaults.
unfoldable pub seed_settings : (Text → Text) → Text × Text
seed_settings getenv =
    let brokers = getenv (bytes "KAFKA_BROKERS") in
    let topic = getenv (bytes "KAFKA_TOPIC_EVENTS") in
    (
      if is_empty brokers then bytes "localhost:9094" else brokers,
      if is_empty topic then bytes "events" else topic,
    )
