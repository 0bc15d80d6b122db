-- ===== src/Graphql/Subscriptions/Delivery.antt =====
-- What a subscriber receives, over all interleavings of the publisher, the goroutine and the client.
use eventmind.Base.{
  ◌≤◌, ◌+◌, ◌≡◌, refl, ◌∙◌, ap, Bool, true, false, not, ◌&&◌, sym, Option, none, some, List, [],
  ◌∷◌, ◌++◌, append_assoc, append-nil, length, length-append, arith, ltb, ltb→lt, if◌then◌else◌,
  Bool-cases, inl, inr,
}
use eventmind.Graphql.Subscriptions.{
  buffer_size, offer, Forwarder, opened, Step, published, unheard, took, ignored, sent, delivered,
  cancelled, found_closed, unsubscribed,
}
use eventmind.Graphql.Subscriptions.Ending.{IsTidy, IsTidy-Step}
use eventmind.Graphql.Subscriptions.Laws.{length-offer, offer_room, offer_full}

-- The channel of the broker is open and has room.
abbrev pub has_room : {V D : Type 0} → Forwarder V D → Bool
has_room s = not s.raw_closed && ltb (length s.raw) buffer_size

-- The values of a step that the channel of the broker takes.
abbrev pub with_room : {V D : Type 0} → Forwarder V D → List V → List V
with_room s vs = if has_room s then vs else []

abbrev pub held_list : {D : Type 0} → Option D → List D
held_list none = []
held_list (some d) = d ∷ []

-- The second list without some of its elements, in the same order.
pub data Within {V : Type 0} : List V → List V → Type 0 where
  nothing : Within [] []
  both : {a b : List V} (x : List V) → Within a b → Within (a ++ x) (b ++ x)
  missed : {a b : List V} (x : List V) → Within a b → Within a (b ++ x)

module _ {V D : Type 0} (as_decision : V → Option D) where
  abbrev pub as_list : V → List D
  as_list v = held_list (as_decision v)

  abbrev pub decisions_of : List V → List D
  decisions_of [] = []
  decisions_of (v ∷ vs) = as_list v ++ decisions_of vs

  -- A course of the subscription: the values that were published, and those that the channel took.
  pub data Course : List V → List V → Forwarder V D → Type 0 where
    start : Course [] [] opened
    next :
        {vs taken more : List V} {s s' : Forwarder V D}
        → Course vs taken s
        → Step as_decision more s s'
        → Course (vs ++ more) (taken ++ with_room s more) s'

  decisions_of-append :
      (xs ys : List V) → decisions_of (xs ++ ys) ≡ decisions_of xs ++ decisions_of ys
  decisions_of-append [] ys = refl
  decisions_of-append (x ∷ xs) ys =
      ap (λ l. as_list x ++ l) (decisions_of-append xs ys)
      ∙ sym (append_assoc (as_list x) (decisions_of xs) (decisions_of ys))

  -- All decisions on their way, from those received to those in the channel of the broker.
  abbrev pub flow : Forwarder V D → List D
  flow s = s.received ++ (s.out ++ (held_list s.held ++ decisions_of s.raw))

  regroup : (a b c d e : List D) → a ++ (b ++ (c ++ (d ++ e))) ≡ (a ++ (b ++ (c ++ d))) ++ e
  regroup a b c d e =
      ap (λ l. a ++ (b ++ l)) (sym (append_assoc c d e))
      ∙ ap (λ l. a ++ l) (sym (append_assoc b (c ++ d) e))
      ∙ sym (append_assoc a (b ++ (c ++ d)) e)

  pub with_room-nil : (s : Forwarder V D) → with_room s [] ≡ []
  with_room-nil s = elim (Bool-cases (has_room s)) [
    | inl room ↦ rw room refl
    | inr full ↦ rw full refl
  ]

  flow-quiet :
      (s : Forwarder V D) (l : List D) → l ≡ flow s → l ≡ flow s ++ decisions_of (with_room s [])
  flow-quiet s l e =
      e ∙ sym (ap (λ x. flow s ++ decisions_of x) (with_room-nil s) ∙ append-nil (flow s))

  flow-publish :
      (s : Forwarder V D) (v : V)
      → s.raw_closed ≡ false
      → flow (record s { raw = offer v s.raw }) ≡ flow s ++ decisions_of (with_room s (v ∷ []))
  flow-publish s v unclosed = elim (Bool-cases (ltb (length s.raw) buffer_size)) [
    | inl room ↦ rw unclosed (
        rw room (
          ap (λ r. s.received ++ (s.out ++ (held_list s.held ++ decisions_of r)))
            (offer_room v s.raw (ltb→lt _ _ room))
          ∙ ap (λ l. s.received ++ (s.out ++ (held_list s.held ++ l)))
              (decisions_of-append s.raw (v ∷ []))
          ∙ regroup s.received s.out (held_list s.held) (decisions_of s.raw)
              (decisions_of (v ∷ []))))
    | inr full ↦ rw unclosed (
        rw full (
          ap (λ r. s.received ++ (s.out ++ (held_list s.held ++ decisions_of r)))
            (offer_full v s.raw (ground arith))
          ∙ sym (append-nil (flow s))))
  ]

  flow-unheard :
      (s : Forwarder V D) (vs : List V)
      → s.raw_closed ≡ true
      → flow s ≡ flow s ++ decisions_of (with_room s vs)
  flow-unheard s vs shut = rw shut (sym (append-nil (flow s)))

  -- The decisions on their way after a step are those before and those published with room.
  flow-Step :
      {more : List V} {s s' : Forwarder V D}
      → Step as_decision more s s'
      → flow s' ≡ flow s ++ decisions_of (with_room s more)
  flow-Step (published {s} v unclosed) = flow-publish s v unclosed
  flow-Step (unheard {s} v shut) = flow-unheard s (v ∷ []) shut
  flow-Step (took {s} {v} {rest} {d} on here free is) =
      let waiting : held_list s.held ++ decisions_of s.raw ≡ d ∷ decisions_of rest =
        rw here (rw free (rw is refl)) in
      flow-quiet s _ (ap (λ l. s.received ++ (s.out ++ l)) (sym waiting))
  flow-Step (ignored {s} {v} {rest} on here free is) =
      let waiting : decisions_of s.raw ≡ decisions_of rest = rw here (rw is refl) in
      flow-quiet s _ (ap (λ l. s.received ++ (s.out ++ (held_list s.held ++ l))) (sym waiting))
  flow-Step (sent {s} {d} on has room) =
      let held : held_list s.held ≡ d ∷ [] = ap held_list has in
      flow-quiet s _ (
        ap (λ l. s.received ++ l)
          (append_assoc s.out (d ∷ []) (decisions_of s.raw)
            ∙ ap (λ l. s.out ++ (l ++ decisions_of s.raw)) (sym held)))
  flow-Step (delivered {s} {d} {rest} has) = flow-quiet s _ (
      append_assoc s.received (d ∷ []) (rest ++ (held_list s.held ++ decisions_of s.raw))
      ∙ ap (λ l. s.received ++ (l ++ (held_list s.held ++ decisions_of s.raw))) (sym has))
  flow-Step (cancelled {s} on free) = flow-quiet s _ refl
  flow-Step (found_closed {s} on free dry shut) = flow-quiet s _ refl
  flow-Step (unsubscribed {s} left) = flow-quiet s _ refl

  pub record IsBounded (s : Forwarder V D) : Type 0 where
    pub raw : length s.raw ≤ buffer_size
    pub out : length s.out ≤ buffer_size

  IsBounded-Step :
      {more : List V} {s s' : Forwarder V D}
      → Step as_decision more s s'
      → IsBounded s
      → IsBounded s'
  IsBounded-Step (published {s} v unclosed) b = record {
    raw = length-offer v s.raw b.raw;
    out = b.out;
  }
  IsBounded-Step (unheard {s} v shut) b = b
  IsBounded-Step (took {s} {v} {rest} {d} on here free is) b =
      let grown : length s.raw ≡ length rest + 1 = ap length here ∙ omega arith in
      record { raw = omega (arith, grown, b.raw); out = b.out }
  IsBounded-Step (ignored {s} {v} {rest} on here free is) b =
      let grown : length s.raw ≡ length rest + 1 = ap length here ∙ omega arith in
      record { raw = omega (arith, grown, b.raw); out = b.out }
  IsBounded-Step (sent {s} {d} on has room) b = record {
    raw = b.raw;
    out = omega (arith, length-append s.out (d ∷ []));
  }
  IsBounded-Step (delivered {s} {d} {rest} has) b =
      let grown : length s.out ≡ length rest + 1 = ap length has ∙ omega arith in
      record { raw = b.raw; out = omega (arith, grown, b.out) }
  IsBounded-Step (cancelled {s} on free) b = record { raw = b.raw; out = b.out }
  IsBounded-Step (found_closed {s} on free dry shut) b = record { raw = b.raw; out = b.out }
  IsBounded-Step (unsubscribed {s} left) b = record { raw = b.raw; out = b.out }

  Within-room :
      {vs taken : List V} (more : List V) (s : Forwarder V D)
      → Within taken vs
      → Within (taken ++ with_room s more) (vs ++ more)
  Within-room {vs} {taken} more s w = elim (Bool-cases (has_room s)) [
    | inl room ↦ rw room (both more w)
    | inr full ↦ rw full (rw (append-nil taken) (missed more w))
  ]

  -- What is known of a subscriber.
  pub record IsOrderly (vs taken : List V) (s : Forwarder V D) : Type 0 where
    pub in_order : flow s ≡ decisions_of taken
    pub within : Within taken vs
    pub bounded : IsBounded s
    pub tidy : IsTidy s

  -- In every interleaving of publications, of the goroutine of a subscription and of its client,
  -- the end of the context and the deferred calls included: what the client has received, followed
  -- by what is in its channel, in the goroutine and in the channel of the broker, are exactly the
  -- decisions among the values that the channel of the broker took, in their order; these are
  -- published values in their order; neither channel ever holds more than 16; the channel of the
  -- broker is closed only at the end of the goroutine; and once the goroutine has left its loop it
  -- holds no decision.
  pub Course-IsOrderly :
      {vs taken : List V} {s : Forwarder V D} → Course vs taken s → IsOrderly vs taken s
  Course-IsOrderly start = record {
    in_order = refl;
    within = nothing;
    bounded = record { raw = omega arith; out = omega arith };
    tidy = record { closed_last = inl refl; nothing_held = inl refl };
  }
  Course-IsOrderly (next {vs} {taken} {more} {s} course step) =
      let before = Course-IsOrderly course in
      record {
        in_order =
            flow-Step step
            ∙ ap (λ l. l ++ decisions_of (with_room s more)) before.in_order
            ∙ sym (decisions_of-append taken (with_room s more));
        within = Within-room more s before.within;
        bounded = IsBounded-Step step before.bounded;
        tidy = IsTidy-Step step before.tidy;
      }
