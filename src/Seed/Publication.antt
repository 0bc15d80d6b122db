-- ===== src/Seed/Publication.antt =====
-- What the loop of scripts/seed.go's `main` leaves in the queue.
use eventmind.Base.{
  ◌≡◌, refl, ◌∙◌, subst, sym, ap, arith, Text, Bool, true, false, not, List, [], ◌∷◌, ◌++◌, map,
  keep, append-nil, append_assoc, Option, none, some, Result, ok, if◌then◌else◌,
}
use eventmind.Events.{Event}
use eventmind.Messaging.Kafka.{Client, Message, IsLawful, log_unless}
use eventmind.Messaging.Producer.{publish, event_message}
use eventmind.Seed.Run.{Ends, ends, Ends-map, Ends-continue_with}
use eventmind.Seed.Samples.{Sources}
use eventmind.Seed.Shapes.{IsGenerator, draw-Returns}
use eventmind.Seed.Build.{after_publish, publish_each, seed}
use eventmind.Seed.Counts.{IsEven, build_seed_events-IsEven}

module _ {K : Client} (L : IsLawful K) (S : Sources K) (G : IsGenerator L S)
    (marshal_event : Event → Result Text) (topic : Text) (encode : Event → Text)
    (encodes : (ev : Event) → marshal_event ev ≡ ok (encode ev)) (refuses : Event → Bool)
    (reason : Text)
    (answers : (w : K.World) (ev : Event)
      → (K.produce w (event_message K marshal_event topic ev (encode ev))).0
        ≡ (if refuses ev then some reason else none)) where
  abbrev message : Event → Message
  message ev = event_message K marshal_event topic ev (encode ev)

  -- The events that are not refused.
  abbrev accepted : List Event → List Event
  accepted = keep (λ ev. not (refuses ev))

  publish-accepted :
      (w : K.World) (ev : Event) → publish K marshal_event topic w ev ≡ K.produce w (message ev)
  unfolding publish
  publish-accepted w ev = rw (encodes ev, publish) refl

  abbrev Leaves : List Message → List Event → Unit {0} × K.World → Type 0
  Leaves before evs r = L.published r.1 ≡ before ++ map message evs

  -- The loop after one answer of the client.
  after_publish-Ends :
      (ev : Event) (evs : List Event) (before : List Message) (r : Option Text × K.World) (b : Bool)
      → r.0 ≡ (if b then some reason else none)
      → L.published r.1 ≡ log_unless r.0 before (message ev)
      → ((w : K.World)
          → Ends (Leaves (L.published w) (accepted evs)) (publish_each S marshal_event topic evs w))
      → Ends
          (Leaves before (if not b then ev ∷ accepted evs else accepted evs))
          (after_publish S (publish_each S marshal_event topic evs) r)
  unfolding after_publish
  after_publish-Ends ev evs before (none, w) true answer after next = absurd cc
  after_publish-Ends ev evs before (some e, w) false answer after next = absurd cc
  after_publish-Ends ev evs before (some e, w) true answer after next =
      Ends-map (next w) (λ r left. left ∙ ap (λ l. l ++ map message (accepted evs)) after)
  after_publish-Ends ev evs before (none, w) false answer after next =
      Ends-continue_with ((draw-Returns L S G 150 (omega arith)).from w) λ pause w' (small, same).
        Ends-map (next w') λ r e.
          e ∙ ap (λ l. l ++ map message (accepted evs)) (same ∙ after) ∙ append_assoc before _ _

  publish_each-Ends :
      (evs : List Event) (w : K.World)
      → Ends (Leaves (L.published w) (accepted evs)) (publish_each S marshal_event topic evs w)
  unfolding publish_each
  publish_each-Ends [] w = ends (sym (append-nil _))
  publish_each-Ends (ev ∷ evs) w =
      subst
        (λ r.
          Ends (Leaves (L.published w) (accepted (ev ∷ evs)))
            (after_publish S (publish_each S marshal_event topic evs) r))
        (sym (publish-accepted w ev))
        (after_publish-Ends ev evs (L.published w) (K.produce w (message ev)) (refuses ev)
          (answers w ev) (L.published-produce w (message ev)) (publish_each-Ends evs))

  -- For a lawful client and generator, if every event encodes and the client refuses, always with
  -- the same error, exactly the events that pass a test, the seed script ends without a panic,
  -- whatever is drawn. It has built 50 events, ten of each type, in some order, and the queue
  -- holds behind its old messages those of the events that were not refused, in that order.
  pub seed-Ends :
      (w : K.World)
      → Ends
          (λ r.
            (evs : List Event) × IsEven 10 evs
            × (L.published r.1
                ≡ L.published w
                  ++ map
                      (λ ev. event_message K marshal_event topic ev (encode ev))
                      (keep (λ ev. not (refuses ev)) evs)))
          (seed S marshal_event topic w)
  unfolding seed
  seed-Ends w = Ends-continue_with ((build_seed_events-IsEven L S G).from w) λ evs w' (even, same).
      Ends-map (publish_each-Ends evs w')
        λ r e. (evs, even, e ∙ ap (λ l. l ++ map message (accepted evs)) same)
