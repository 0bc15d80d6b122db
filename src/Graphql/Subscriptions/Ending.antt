-- ===== src/Graphql/Subscriptions/Ending.antt =====
-- How the goroutine of a subscription ends.
use eventmind.Base.{◌≡◌, refl, false, ◌⊎◌, inl, inr, Option, none, List}
use eventmind.Graphql.Subscriptions.{
  looping, ended, Forwarder, Step, published, unheard, took, ignored, sent, delivered, cancelled,
  found_closed, unsubscribed,
}

-- The channel of the broker is closed only at the end of the goroutine, which by then holds no
-- decision.
pub record IsTidy {V D : Type 0} (s : Forwarder V D) : Type 0 where
  pub closed_last : (s.raw_closed ≡ false) ⊎ (s.mode ≡ ended)
  pub nothing_held : (s.mode ≡ looping) ⊎ (s.held ≡ none)

pub IsTidy-Step :
    {V D : Type 0} {as_decision : V → Option D} {more : List V} {s s' : Forwarder V D}
    → Step as_decision more s s'
    → IsTidy s
    → IsTidy s'
IsTidy-Step (published {s} v unclosed) t = record {
  closed_last = t.closed_last;
  nothing_held = t.nothing_held;
}
IsTidy-Step (unheard {s} v shut) t = t
IsTidy-Step (took {s} {v} {rest} {d} on here free is) t = record {
  closed_last = t.closed_last;
  nothing_held = inl on;
}
IsTidy-Step (ignored {s} {v} {rest} on here free is) t = record {
  closed_last = t.closed_last;
  nothing_held = inl on;
}
IsTidy-Step (sent {s} {d} on has room) t = record {
  closed_last = t.closed_last;
  nothing_held = inl on;
}
IsTidy-Step (delivered {s} {d} {rest} has) t = record {
  closed_last = t.closed_last;
  nothing_held = t.nothing_held;
}
IsTidy-Step (cancelled {s} on free) t = record {
  closed_last = elim t.closed_last [ inl unclosed ↦ inl unclosed | inr over ↦ absurd cc ];
  nothing_held = inr free;
}
IsTidy-Step (found_closed {s} on free dry shut) t = record {
  closed_last = elim t.closed_last [ inl unclosed ↦ inl unclosed | inr over ↦ absurd cc ];
  nothing_held = inr free;
}
IsTidy-Step (unsubscribed {s} left) t = record {
  closed_last = inr refl;
  nothing_held = elim t.nothing_held [ inl on ↦ absurd cc | inr free ↦ inr free ];
}
