-- ===== src/Graphql/Subscriptions.antt =====
-- api/graphql/resolver.go: `subscriptionBroker`, and the goroutine of `OnDecision` in
-- api/graphql/schema.resolvers.go. A channel is the list of the values in its buffer; the lock makes
-- each method of the broker one step.
pub mod Laws
pub mod Ending
pub mod Delivery
pub mod Capacity
use eventmind.Base.{
  ℕ, ◌<◌, ◌≡◌, Text, text_eq, Bool, true, false, not, Option, none, some, List, [], ◌∷◌, ◌++◌,
  length, keep, map, ltb, if◌then◌else◌,
}

abbrev pub buffer_size : ℕ
buffer_size = 16

-- An entry of the map: the channel of a subscriber.
pub record Subscription (V : Type 0) : Type 0 where
  pub id : Text
  pub buffer : List V

module _ {V : Type 0} where
  -- `close` and `delete`: the buffer is gone with the entry, since only the subscriber itself
  -- unsubscribes and it does not read on.
  unfoldable pub unsubscribe : Text → List (Subscription V) → List (Subscription V)
  unsubscribe id subs = keep (λ s. not (text_eq s.id id)) subs

  -- `subscribe`, with the fresh identifier: an entry of that name would be replaced.
  unfoldable pub subscribe : Text → List (Subscription V) → List (Subscription V)
  subscribe id subs = record { id = id; buffer = [] } ∷ unsubscribe id subs

  -- The `select` of `Publish`: a full channel drops the value.
  unfoldable pub offer : V → List V → List V
  offer v buffer = if ltb (length buffer) buffer_size then buffer ++ v ∷ [] else buffer

  abbrev pub offer_to : V → Subscription V → Subscription V
  offer_to v s = record s { buffer = offer v s.buffer }

  -- `Publish`: every subscriber, in the order of the map, which does not matter.
  unfoldable pub publish : V → List (Subscription V) → List (Subscription V)
  publish v subs = map (offer_to v) subs

-- Where the goroutine is: in its loop, between its two deferred calls, or at its end.
pub data Mode : Type 0 where
  looping closed_out ended : Mode

-- One subscriber from its `subscribe` on: the channel of the broker and whether it is closed, the
-- decision that the goroutine holds while it waits for room, its channel to the client, what the
-- client has received, and where the goroutine is.
pub record Forwarder (V D : Type 0) : Type 0 where
  pub raw : List V
  pub raw_closed : Bool
  pub held : Option D
  pub out : List D
  pub received : List D
  pub mode : Mode

abbrev pub opened : {V D : Type 0} → Forwarder V D
opened = record {
  raw = [];
  raw_closed = false;
  held = none;
  out = [];
  received = [];
  mode = looping;
}

-- The steps of a subscriber, each with the values that it publishes: a call of `Publish`, or a step
-- of the goroutine or the client. `as_decision` is the type assertion `v.(*model.Decision)`. The
-- context may end at any time, and where both cases of the `select` are ready either is taken; while
-- the goroutine waits for room in the channel to the client it does not look at the context.
pub data Step {V D : Type 0} (as_decision : V → Option D)
    : List V → Forwarder V D → Forwarder V D → Type 0 where
  published :
      {s : Forwarder V D} (v : V)
      → s.raw_closed ≡ false
      → Step as_decision (v ∷ []) s (record s { raw = offer v s.raw })
  -- `unsubscribe` has taken the channel out of the map.
  unheard : {s : Forwarder V D} (v : V) → s.raw_closed ≡ true → Step as_decision (v ∷ []) s s
  took :
      {s : Forwarder V D} {v : V} {rest : List V} {d : D}
      → s.mode ≡ looping
      → s.raw ≡ v ∷ rest
      → s.held ≡ none
      → as_decision v ≡ some d
      → Step as_decision [] s (record s { raw = rest; held = some d })
  ignored :
      {s : Forwarder V D} {v : V} {rest : List V}
      → s.mode ≡ looping
      → s.raw ≡ v ∷ rest
      → s.held ≡ none
      → as_decision v ≡ none
      → Step as_decision [] s (record s { raw = rest })
  sent :
      {s : Forwarder V D} {d : D}
      → s.mode ≡ looping
      → s.held ≡ some d
      → length s.out < buffer_size
      → Step as_decision [] s (record s { held = none; out = s.out ++ d ∷ [] })
  delivered :
      {s : Forwarder V D} {d : D} {rest : List D}
      → s.out ≡ d ∷ rest
      → Step as_decision [] s (record s { out = rest; received = s.received ++ d ∷ [] })
  -- `<-ctx.Done()`, and then `close(out)`.
  cancelled :
      {s : Forwarder V D}
      → s.mode ≡ looping
      → s.held ≡ none
      → Step as_decision [] s (record s { mode = closed_out })
  -- The channel of the broker is closed and empty, and then `close(out)`.
  found_closed :
      {s : Forwarder V D}
      → s.mode ≡ looping
      → s.held ≡ none
      → s.raw ≡ []
      → s.raw_closed ≡ true
      → Step as_decision [] s (record s { mode = closed_out })
  -- `r.subs.unsubscribe(id)`, deferred first and so called last.
  unsubscribed :
      {s : Forwarder V D}
      → s.mode ≡ closed_out
      → Step as_decision [] s (record s { raw_closed = true; mode = ended })
