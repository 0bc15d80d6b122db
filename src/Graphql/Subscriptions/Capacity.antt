-- ===== src/Graphql/Subscriptions/Capacity.antt =====
-- A subscriber that is slow loses values only after 16 of them.
use eventmind.Base.{
  ◌≤◌, false, ◌<◌, ◌+◌, ◌≡◌, refl, ◌∙◌, ap, Option, List, [], ◌∷◌, ◌++◌, append-nil, length,
  length-append, arith, ltb, lt→ltb, ltb→lt, Bool-cases, inl, inr,
}
use eventmind.Graphql.Subscriptions.{
  buffer_size, offer, looping, Forwarder, Step, published, unheard, took, ignored, sent, delivered,
  cancelled, found_closed, unsubscribed,
}
use eventmind.Graphql.Subscriptions.Laws.{offer_room, offer_full}
use eventmind.Graphql.Subscriptions.Delivery.{
  with_room, with_room-nil, Course, start, next, flow, decisions_of, Course-IsOrderly,
}

module _ {V D : Type 0} (as_decision : V → Option D) where
  length-offer_one : (v : V) (raw : List V) → length (offer v raw) ≤ length raw + 1
  length-offer_one v raw = elim (Bool-cases (ltb (length raw) buffer_size)) [
    | inl room ↦ rw (offer_room v raw (ltb→lt _ _ room)) (omega (arith, length-append raw (v ∷ [])))
    | inr full ↦ rw (offer_full v raw (ground arith)) (omega arith)
  ]

  raw_at_most-Step :
      {more : List V} {s s' : Forwarder V D} (vs : List V)
      → Step as_decision more s s'
      → length s.raw ≤ length vs
      → length s'.raw ≤ length (vs ++ more)
  raw_at_most-Step vs (published {s} v unclosed) h =
      omega (arith, length-append vs (v ∷ []), length-offer_one v s.raw)
  raw_at_most-Step vs (unheard {s} v shut) h = omega (arith, length-append vs (v ∷ []))
  raw_at_most-Step vs (took {s} {v} {rest} {d} on here free is) h =
      let grown : length s.raw ≡ length rest + 1 = ap length here ∙ omega arith in
      rw (append-nil vs) (omega (arith, grown))
  raw_at_most-Step vs (ignored {s} {v} {rest} on here free is) h =
      let grown : length s.raw ≡ length rest + 1 = ap length here ∙ omega arith in
      rw (append-nil vs) (omega (arith, grown))
  raw_at_most-Step vs (sent {s} {d} on has room) h = rw (append-nil vs) h
  raw_at_most-Step vs (delivered {s} {d} {rest} has) h = rw (append-nil vs) h
  raw_at_most-Step vs (cancelled {s} on free) h = rw (append-nil vs) h
  raw_at_most-Step vs (found_closed {s} on free dry shut) h = rw (append-nil vs) h
  raw_at_most-Step vs (unsubscribed {s} left) h = rw (append-nil vs) h

  raw_at_most :
      {vs taken : List V} {s : Forwarder V D}
      → Course as_decision vs taken s
      → length s.raw ≤ length vs
  raw_at_most start = omega arith
  raw_at_most (next {vs} {taken} {more} {s} course step) =
      raw_at_most-Step vs step (raw_at_most course)

  room_for :
      {more : List V} {s s' : Forwarder V D} (vs : List V)
      → Step as_decision more s s'
      → length s.raw ≤ length vs
      → length (vs ++ more) ≤ buffer_size
      → s.raw_closed ≡ false
      → with_room s more ≡ more
  room_for vs (published {s} v unclosed) h few still =
      let below : length s.raw < buffer_size = omega (arith, length-append vs (v ∷ [])) in
      rw unclosed (rw (lt→ltb (length s.raw) buffer_size below) refl)
  room_for vs (unheard {s} v shut) h few still = absurd cc
  room_for vs (took {s} {v} {rest} {d} on here free is) h few still = with_room-nil as_decision s
  room_for vs (ignored {s} {v} {rest} on here free is) h few still = with_room-nil as_decision s
  room_for vs (sent {s} {d} on has room) h few still = with_room-nil as_decision s
  room_for vs (delivered {s} {d} {rest} has) h few still = with_room-nil as_decision s
  room_for vs (cancelled {s} on free) h few still = with_room-nil as_decision s
  room_for vs (found_closed {s} on free dry shut) h few still = with_room-nil as_decision s
  room_for vs (unsubscribed {s} left) h few still = with_room-nil as_decision s

  -- A channel that is open now has always been.
  open_before :
      {more : List V} {s s' : Forwarder V D}
      → Step as_decision more s s'
      → s'.raw_closed ≡ false
      → s.raw_closed ≡ false
  open_before (published {s} v unclosed) still = still
  open_before (unheard {s} v shut) still = still
  open_before (took {s} {v} {rest} {d} on here free is) still = still
  open_before (ignored {s} {v} {rest} on here free is) still = still
  open_before (sent {s} {d} on has room) still = still
  open_before (delivered {s} {d} {rest} has) still = still
  open_before (cancelled {s} on free) still = still
  open_before (found_closed {s} on free dry shut) still = still
  open_before (unsubscribed {s} left) still = absurd cc

  all_taken :
      {vs taken : List V} {s : Forwarder V D}
      → Course as_decision vs taken s
      → length vs ≤ buffer_size
      → s.raw_closed ≡ false
      → taken ≡ vs
  all_taken start few still = refl
  all_taken (next {vs} {taken} {more} {s} course step) few still =
      let fewer : length vs ≤ buffer_size = omega (arith, length-append vs more) in
      let unclosed = open_before step still in
      ap (λ l. l ++ with_room s more) (all_taken course fewer unclosed)
      ∙ ap (λ l. vs ++ l) (room_for vs step (raw_at_most course) few unclosed)

  -- As long as the goroutine of a subscription is in its loop and at most 16 values have been
  -- published, the subscription has lost none: what the client has received, followed by what is
  -- on its way, are all decisions among the published values, in their order.
  pub Course-lossless :
      {vs taken : List V} {s : Forwarder V D}
      → Course as_decision vs taken s
      → s.mode ≡ looping
      → length vs ≤ buffer_size
      → flow as_decision s ≡ decisions_of as_decision vs
  Course-lossless {vs} {taken} {s} course on few =
      let known = Course-IsOrderly as_decision course in
      let unclosed : s.raw_closed ≡ false = elim known.tidy.closed_last [
        | inl unclosed ↦ unclosed
        | inr over ↦ absurd cc
      ] in
      known.in_order ∙ ap (decisions_of as_decision) (all_taken course few unclosed)
