-- ===== src/Tests/Concurrent.antt =====
-- Two handlers of one event, whose calls interleave.
use eventmind.Base.{◌+◌, ◌≤◌, ◌≡◌, refl, text_eq, true, false, List, [], ◌∷◌, ok}
use eventmind.Events.{Event}
use eventmind.Cache.{seen, seen_key, negate}
use eventmind.Worker.{World, store_raw}
use eventmind.Worker.Handling.{guard}
use eventmind.Worker.Concurrent.{
  Phase, arrived, asking, advance, Reachable, start, step, arrival, call, behind,
}
use eventmind.Worker.Concurrent.Once.{count_processing}
use eventmind.Worker.Concurrent.Lossy as Lossy
use eventmind.Worker.Concurrent.Lossy.{
  LossyReachable, clean, lapse, losses, lossless, LossyReachable-bounded,
}
use eventmind.Tests.Memory.{memory_redis-IsLawful}
use eventmind.Tests.Agent.{payment, sure}
use eventmind.Tests.Worker.{services, idle}

abbrev after_call : World (services sure) → Phase → World (services sure)
after_call w p = (advance (services sure) w payment p).1

abbrev first_stored : World (services sure)
first_stored = after_call (idle sure) arrived

abbrev second_stored : World (services sure)
second_stored = after_call first_stored arrived

abbrev first_asked : World (services sure)
first_asked = after_call second_stored asking

abbrev second_asked : World (services sure)
second_asked = after_call first_asked asking

first_is_new : guard (services sure) second_stored payment ≡ ok false
unfolding advance store_raw seen negate
first_is_new = refl

second_is_known : guard (services sure) first_asked payment ≡ ok true
unfolding advance store_raw seen negate seen_key text_eq
second_is_known = refl

abbrev both_asked : List (Event × Phase)
both_asked =
    (payment, (advance (services sure) second_stored payment asking).0)
    ∷ (payment, (advance (services sure) first_asked payment asking).0)
    ∷ []

both_asked-Reachable : Reachable (services sure) (idle sure) both_asked second_asked
unfolding advance
both_asked-Reachable =
    step
      (step
        (step
          (step (step (step start (arrival payment)) (arrival payment)) (call payment arrived tt))
          (behind _ (call payment arrived tt)))
        (call payment asking (false, first_is_new)))
      (behind _ (call payment asking (true, second_is_known)))

-- Redis forgets the mark, and a third delivery of the event is let through.
abbrev forgotten : World (services sure)
forgotten = record second_asked { redis = [] }

abbrev third_stored : World (services sure)
third_stored = after_call forgotten arrived

third_is_new : guard (services sure) third_stored payment ≡ ok false
unfolding advance store_raw seen negate
third_is_new = refl

abbrev three_asked : List (Event × Phase)
three_asked = (payment, (advance (services sure) third_stored payment asking).0) ∷ both_asked

abbrev three_asked-LossyReachable :
    LossyReachable (services sure) (idle sure) three_asked (after_call third_stored asking)
unfolding both_asked-Reachable advance
three_asked-LossyReachable =
    Lossy.step
      (Lossy.step
        (Lossy.step (Lossy.step (lossless (services sure) both_asked-Reachable) (lapse forgotten))
          (clean (arrival payment)))
        (clean (call payment arrived tt)))
      (clean (call payment asking (false, third_is_new)))

LossyReachable-bounded_example :
    count_processing payment.id three_asked
    ≤ 1 + losses (services sure) payment.id three_asked-LossyReachable
LossyReachable-bounded_example =
    LossyReachable-bounded (services sure) memory_redis-IsLawful payment.id
      three_asked-LossyReachable
