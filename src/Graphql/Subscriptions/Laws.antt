-- ===== src/Graphql/Subscriptions/Laws.antt =====
-- The broker: who receives what, and how much it holds.
use eventmind.Base.{
  ℕ, zero, suc, ◌≤◌, ◌<◌, ltb→lt, ◌≡◌, refl, ◌∙◌, ap, sym, Text, text_eq, text_eq_refl, text_eq_iff,
  Option, none, some, List, [], ◌∷◌, ◌++◌, append_assoc, append-nil, take, length, length-append,
  ltb, le→ltb, lt→ltb, arith, if◌then◌else◌, Bool-cases, inl, inr,
}
use eventmind.Graphql.Subscriptions.{
  buffer_size, Subscription, unsubscribe, subscribe, offer, publish,
}

module _ {V : Type 0} where
  -- The channel of a subscriber.
  abbrev pub channel : Text → List (Subscription V) → Option (List V)
  channel id [] = none
  channel id (s ∷ subs) = if text_eq id s.id then some s.buffer else channel id subs

  abbrev pub offer_opt : V → Option (List V) → Option (List V)
  offer_opt v none = none
  offer_opt v (some buffer) = some (offer v buffer)

  channel-publish :
      (id : Text) (v : V) (subs : List (Subscription V))
      → channel id (publish v subs) ≡ offer_opt v (channel id subs)
  unfolding publish
  channel-publish id v [] = refl
  channel-publish id v (s ∷ subs) = ground (arith, channel-publish id v subs)

  channel-unsubscribe :
      (id gone : Text) (subs : List (Subscription V))
      → channel id (unsubscribe gone subs) ≡ (if text_eq id gone then none else channel id subs)
  unfolding unsubscribe
  channel-unsubscribe id gone [] = ground arith
  channel-unsubscribe id gone (s ∷ subs) = ground (
    arith,
    channel-unsubscribe id gone subs,
    text_eq_iff id gone,
    text_eq_iff id s.id,
    text_eq_iff s.id gone,
  )

  channel-subscribe :
      (id new : Text) (subs : List (Subscription V))
      → channel id (subscribe new subs) ≡ (if text_eq id new then some [] else channel id subs)
  unfolding subscribe
  channel-subscribe id new subs = ground (arith, channel-unsubscribe id new subs)

  pub length-offer :
      (v : V) (buffer : List V)
      → length buffer ≤ buffer_size
      → length (offer v buffer) ≤ buffer_size
  unfolding offer
  length-offer v buffer h = ground (arith, length-append buffer (v ∷ []))

  -- Values that are published one after the other.
  abbrev pub publish_all : List V → List (Subscription V) → List (Subscription V)
  publish_all [] subs = subs
  publish_all (v ∷ vs) subs = publish_all vs (publish v subs)

  abbrev offer_all : List V → List V → List V
  offer_all [] buffer = buffer
  offer_all (v ∷ vs) buffer = offer_all vs (offer v buffer)

  channel-publish_all :
      (id : Text) (vs : List V) (subs : List (Subscription V)) (buffer : List V)
      → channel id subs ≡ some buffer
      → channel id (publish_all vs subs) ≡ some (offer_all vs buffer)
  channel-publish_all id [] subs buffer e = e
  channel-publish_all id (v ∷ vs) subs buffer e =
      channel-publish_all id vs (publish v subs) (offer v buffer)
        (channel-publish id v subs ∙ ap (offer_opt v) e)

  channel-publish_all-none :
      (id : Text) (vs : List V) (subs : List (Subscription V))
      → channel id subs ≡ none
      → channel id (publish_all vs subs) ≡ none
  channel-publish_all-none id [] subs e = e
  channel-publish_all-none id (v ∷ vs) subs e =
      channel-publish_all-none id vs (publish v subs)
        (channel-publish id v subs ∙ ap (offer_opt v) e)

  take_all : (n : ℕ) (xs : List V) → length xs ≤ n → take n xs ≡ xs
  take_all zero [] h = refl
  take_all (suc n) [] h = refl
  take_all zero (x ∷ xs) h = elim h [ ]
  take_all (suc n) (x ∷ xs) h = ap (λ l. x ∷ l) (take_all n xs (omega arith))

  take_full : (xs ys : List V) → take (length xs) (xs ++ ys) ≡ xs
  take_full [] ys = refl
  take_full (x ∷ xs) ys = ap (λ l. x ∷ l) (take_full xs ys)

  pub offer_room :
      (v : V) (buffer : List V) → length buffer < buffer_size → offer v buffer ≡ buffer ++ v ∷ []
  unfolding offer
  offer_room v buffer h = rw (lt→ltb (length buffer) buffer_size h) refl

  pub offer_full : (v : V) (buffer : List V) → buffer_size ≤ length buffer → offer v buffer ≡ buffer
  unfolding offer
  offer_full v buffer h = rw (le→ltb (length buffer) buffer_size h) refl

  offer_all_full : (vs buffer : List V) → buffer_size ≤ length buffer → offer_all vs buffer ≡ buffer
  offer_all_full [] buffer h = refl
  offer_all_full (v ∷ vs) buffer h =
      ap (offer_all vs) (offer_full v buffer h) ∙ offer_all_full vs buffer h

  offer_all-take :
      (vs buffer : List V)
      → length buffer ≤ buffer_size
      → offer_all vs buffer ≡ take buffer_size (buffer ++ vs)
  offer_all-take [] buffer h =
      sym (ap (take buffer_size) (append-nil buffer) ∙ take_all buffer_size buffer h)
  offer_all-take (v ∷ vs) buffer h = elim (Bool-cases (ltb (length buffer) buffer_size)) [
    | inl room ↦
        let lt = ltb→lt (length buffer) buffer_size room in
        ap (offer_all vs) (offer_room v buffer lt)
        ∙ offer_all-take vs (buffer ++ v ∷ []) (omega (arith, length-append buffer (v ∷ [])))
        ∙ ap (take buffer_size) (append_assoc buffer (v ∷ []) vs)
    | inr full ↦
        let exact : length buffer ≡ buffer_size = ground arith in
        offer_all_full (v ∷ vs) buffer (omega arith)
        ∙ sym (ap (λ n. take n (buffer ++ v ∷ vs)) (sym exact) ∙ take_full buffer (v ∷ vs))
  ]

  -- A new subscriber that reads nothing is left with the first 16 of the values published from
  -- then on, in their order, and an unsubscribed one with nothing.
  pub publish_all-subscribe :
      (id : Text) (vs : List V) (subs : List (Subscription V))
      → (channel id (publish_all vs (subscribe id subs)) ≡ some (take buffer_size vs))
        × (channel id (publish_all vs (unsubscribe id subs)) ≡ none)
  publish_all-subscribe id vs subs = (
    channel-publish_all id vs (subscribe id subs) [] (
          channel-subscribe id id subs
          ∙ ap (λ b. if b then some [] else channel id subs) (text_eq_refl id))
        ∙ ap some (offer_all-take vs [] (omega arith)),
    channel-publish_all-none id vs (unsubscribe id subs) (
        channel-unsubscribe id id subs
        ∙ ap (λ b. if b then none else channel id subs) (text_eq_refl id)),
  )
