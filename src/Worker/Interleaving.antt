-- ===== src/Worker/Interleaving.antt =====
-- Both loops of the worker over the shared state, in any order: `cmd/worker/main.go` starts one
-- goroutine for each, and each step is one message that one of them takes.
use eventmind.Base.{
  if◌then◌else◌, Bool-cases, ◌≡◌, refl, ◌∙◌, sym, subst, ◌⊎◌, inl, inr, Text, Bool, true, false,
  Option, some, Option-cases, List, [], ◌∷◌, Result, ok, err, ℤ,
}
use eventmind.Events.{Event}
use eventmind.Cache.{seen}
use eventmind.Cache.Server as Server
use eventmind.Cache.Laws.{IsMarked, IsMarked-seen, seen-ok, seen-of_marked}
use eventmind.Messaging.Kafka.{Message, commit}
use eventmind.Messaging.Consumer.{consume}
use eventmind.Messaging.Dlq.{DlqWorker, attempt, retry, requeue}
use eventmind.Worker.{Services, World, handler, client, process_event, after_check, store_raw}
use eventmind.Worker.Handling.{guard}
use eventmind.Worker.Redelivery.{redis-consume}

-- The events after one was handled: it is added if the guard has answered.
abbrev pub noted : Result Bool → Event → List Event → List Event
noted (ok answer) ev evs = ev ∷ evs
noted (err e) ev evs = evs

-- The events but those whose key is lost.
abbrev pub remaining : (Text → Bool) → List Event → List Event
remaining lost [] = []
remaining lost (ev ∷ evs) = if lost ev.id then remaining lost evs else ev ∷ remaining lost evs

module _ (S : Services) (L : Server.IsLawful S.redis) (dlq_topic : Text) (worker : DlqWorker)
    (callback : Option (World S → Text → World S)) where
  -- A course of both loops, with the events that were handled while the guard answered and whose key
  -- has not been lost since, the last one first. Between two messages other programs and time may
  -- change everything, Redis included: any keys may expire or be removed.
  pub data Course (origin : World S) : List Event → World S → Type 0 where
    start : Course origin [] origin
    consumed :
        {evs : List Event} {w : World S} (msg : Message) (ev : Event)
        → Course origin evs w
        → S.unmarshal msg.value ≡ some ev
        → Course origin
            (noted (guard S w ev) ev evs)
            (consume (client S) dlq_topic (handler S) S.unmarshal w msg)
    retried :
        {evs : List Event} {w : World S} (letter : Message) (n : ℤ) (ev : Event)
        → Course origin evs w
        → S.unmarshal letter.value ≡ some ev
        → Course origin
            (noted (guard S w ev) ev evs)
            (attempt (client S) worker (handler S) S.unmarshal callback w letter n)
    elsewhere :
        {evs : List Event} {w w' : World S} (lost : Text → Bool)
        → Course origin evs w
        → ((id : Text)
            → lost id ≡ false
            → IsMarked S.redis L w.redis id
            → IsMarked S.redis L w'.redis id)
        → Course origin (remaining lost evs) w'

  -- The guard fails for the event, or calls it a duplicate.
  abbrev pub IsKnown : World S → Event → Type 0
  IsKnown w ev = ((e : Text) × (guard S w ev ≡ err e)) ⊎ (guard S w ev ≡ ok true)

  abbrev pub AllKnown : World S → List Event → Type 0
  AllKnown w [] = Unit
  AllKnown w (ev ∷ evs) = IsKnown w ev × AllKnown w evs

  AllMarked : S.redis.State → List Event → Type 0
  AllMarked s [] = Unit
  AllMarked s (ev ∷ evs) = IsMarked S.redis L s ev.id × AllMarked s evs

  redis-after_check :
      (w : World S) (ev : Event) (answer : Result Bool)
      → (after_check S w ev answer).1.redis ≡ w.redis
  unfolding after_check process_event
  redis-after_check w ev (err e) = refl
  redis-after_check w ev (ok true) = refl
  redis-after_check w ev (ok false) = refl

  redis-handler :
      (w : World S) (ev : Event) → (handler S w ev).1.redis ≡ (seen S.redis w.redis ev.id).1
  unfolding handler store_raw
  redis-handler w ev = redis-after_check _ ev _

  redis-retry :
      (w : World S) (letter : Message) (n : ℤ) (ev : Event)
      → (retry (client S) worker (handler S) w letter n ev).redis ≡ (handler S w ev).1.redis
  unfolding retry requeue
  redis-retry w letter n ev = elim (Option-cases (handler S w ev).0) [
    | inl fine ↦ rw (fine, retry) refl
    | inr (e, bad) ↦ rw (bad, retry) refl
  ]

  redis-attempt :
      (w : World S) (letter : Message) (n : ℤ) (ev : Event)
      → S.unmarshal letter.value ≡ some ev
      → (attempt (client S) worker (handler S) S.unmarshal callback w letter n).redis
        ≡ (handler S w ev).1.redis
  unfolding attempt commit
  redis-attempt w letter n ev good = rw (good, attempt) (redis-retry w letter n ev)

  AllMarked-seen :
      (s : S.redis.State) (id : Text) (evs : List Event)
      → AllMarked s evs
      → AllMarked (seen S.redis s id).1 evs
  unfolding AllMarked
  AllMarked-seen s id [] all = tt
  AllMarked-seen s id (ev ∷ evs) (one, all) =
      (IsMarked-seen S.redis L s id ev.id one, AllMarked-seen s id evs all)

  AllMarked-noted :
      (s : S.redis.State) (ev : Event) (evs : List Event) (answer : Result Bool)
      → (seen S.redis s ev.id).0 ≡ answer
      → AllMarked s evs
      → AllMarked (seen S.redis s ev.id).1 (noted answer ev evs)
  unfolding AllMarked
  AllMarked-noted s ev evs (ok answer) e all =
      ((seen-ok S.redis L s ev.id answer e).marked, AllMarked-seen s ev.id evs all)
  AllMarked-noted s ev evs (err e) failed all = AllMarked-seen s ev.id evs all

  -- A step that handles an event.
  AllMarked-handled :
      (w : World S) (after : S.redis.State) (ev : Event) (evs : List Event)
      → after ≡ (handler S w ev).1.redis
      → AllMarked w.redis evs
      → AllMarked after (noted (guard S w ev) ev evs)
  AllMarked-handled w after ev evs same all =
      subst (λ s. AllMarked s (noted (guard S w ev) ev evs)) (sym (same ∙ redis-handler w ev))
        (AllMarked-noted w.redis ev evs (guard S w ev) refl all)

  AllMarked-remaining :
      (s s' : S.redis.State) (lost : Text → Bool) (evs : List Event)
      → ((id : Text) → lost id ≡ false → IsMarked S.redis L s id → IsMarked S.redis L s' id)
      → AllMarked s evs
      → AllMarked s' (remaining lost evs)
  unfolding AllMarked
  AllMarked-remaining s s' lost [] keeps all = tt
  AllMarked-remaining s s' lost (ev ∷ evs) keeps (one, all) =
      let rest = AllMarked-remaining s s' lost evs keeps all in
      elim (Bool-cases (lost ev.id)) [
        | inl gone ↦ rw gone rest
        | inr here ↦ rw here (keeps ev.id here one, rest)
      ]

  AllMarked-Course :
      {origin w : World S} {evs : List Event} → Course origin evs w → AllMarked w.redis evs
  unfolding AllMarked
  AllMarked-Course start = tt
  AllMarked-Course (consumed {evs} {w} msg ev course good) =
      AllMarked-handled w _ ev evs (redis-consume S L dlq_topic w msg ev good)
        (AllMarked-Course course)
  AllMarked-Course (retried {evs} {w} letter n ev course good) =
      AllMarked-handled w _ ev evs (redis-attempt w letter n ev good) (AllMarked-Course course)
  AllMarked-Course (elsewhere {evs} {w} {w'} lost course keeps) =
      AllMarked-remaining w.redis w'.redis lost evs keeps (AllMarked-Course course)

  AllKnown-of_marked : (w : World S) (evs : List Event) → AllMarked w.redis evs → AllKnown w evs
  unfolding AllMarked
  AllKnown-of_marked w [] all = tt
  AllKnown-of_marked w (ev ∷ evs) (one, all) =
      (seen-of_marked S.redis L w.redis ev.id one, AllKnown-of_marked w evs all)

  -- In every interleaving of the consume loop and the dead letter loop over the shared state,
  -- message by message, where the guard may answer or fail at each, and where between messages
  -- anything may change and any keys of Redis may expire or be removed: for every event that was
  -- handled while the guard answered, and whose key has not been lost since, the guard fails or
  -- calls it a duplicate.
  pub Course-AllKnown :
      {origin w : World S} {evs : List Event} → Course origin evs w → AllKnown w evs
  Course-AllKnown {origin} {w} {evs} course = AllKnown-of_marked w evs (AllMarked-Course course)
