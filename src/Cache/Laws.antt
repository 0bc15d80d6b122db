-- ===== src/Cache/Laws.antt =====
-- The guard lets each event through once, and the decision cache returns what was stored.
use eventmind.Base.{
  ◌≡◌, refl, ◌∙◌, ap, subst, ◌⊎◌, ◌≢◌, ◌↔◌, inl, inr, Text, text_eq, text_eq_refl, bytes, Bool,
  true, false, not, Option, none, some, ok, err, if◌then◌else◌,
}
use eventmind.Cache.{
  seen_key, decision_key, seen, negate, get_result, cache_decision, get_decision, seen_ttl,
  decision_ttl,
}
use eventmind.Cache.Server.{Redis, IsLawful, is_none, kept, answer}

-- The two families of keys do not meet, and each is one to one.
seen_key-ne-decision_key : (a b : Text) → text_eq (seen_key a) (decision_key b) ≡ false
unfolding seen_key decision_key text_eq
seen_key-ne-decision_key a b = refl

decision_key-ne-seen_key : (a b : Text) → text_eq (decision_key a) (seen_key b) ≡ false
unfolding seen_key decision_key text_eq
decision_key-ne-seen_key a b = refl

text_eq-decision_key : (a b : Text) → text_eq (decision_key a) (decision_key b) ≡ text_eq a b
unfolding decision_key text_eq
text_eq-decision_key a b = refl

text_eq-seen_key : (a b : Text) → text_eq (seen_key a) (seen_key b) ≡ text_eq a b
unfolding seen_key text_eq
text_eq-seen_key a b = refl

not-is_none : (o : Option Text) (b : Bool) → b ≡ not (is_none o) → o ≢ none → b ≡ true
not-is_none none b e h = absurd (h refl)
not-is_none (some v) b e h = e

not-is_none-none : (o : Option Text) (b : Bool) → b ≡ not (is_none o) → o ≡ none → b ≡ false
not-is_none-none none b e h = e
not-is_none-none (some v) b e h = cc

is_none_of : (o : Option Text) (b : Bool) → b ≡ not (is_none o) → b ≡ false → o ≡ none
is_none_of none b e h = refl
is_none_of (some v) b e h = cc

module _ (R : Redis) (L : IsLawful R) where
  -- The guard has the key of the event.
  abbrev pub IsMarked : R.State → Text → Type 0
  IsMarked s id = L.live s (seen_key id) ≢ none

  -- An answer of the guard is whether the event was marked before, and leaves it marked. All other
  -- events and all cached decisions stay as they are.
  pub record IsAnswered (s : R.State) (id : Text) (before : Bool) : Type 0 where
    pub is_before : before ≡ not (is_none (L.live s (seen_key id)))
    pub marked : IsMarked (seen R s id).1 id
    pub others :
        (other : Text)
        → text_eq other id ≡ false
        → L.live (seen R s id).1 (seen_key other) ≡ L.live s (seen_key other)
    pub decisions :
        (other : Text) → L.live (seen R s id).1 (decision_key other) ≡ L.live s (decision_key other)

  seen-IsMarked :
      (s : R.State) (id : Text) (b : Bool)
      → ((j : Text)
          → L.live (seen R s id).1 j ≡ (
              if text_eq j (seen_key id)
              then some (kept (L.live s (seen_key id)) (bytes "1"))
              else L.live s j))
      → IsMarked (seen R s id).1 id
  seen-IsMarked s id b after gone =
      let there = rw (text_eq_refl (seen_key id)) at (after (seen_key id)) in cc (there, gone)

  -- The guard fails, or it answers whether the event was marked and leaves it marked.
  seen-IsAnswered :
      (s : R.State) (id : Text)
      → ((e : Text) × ((seen R s id).0 ≡ err e))
        ⊎ ((before : Bool) × ((seen R s id).0 ≡ ok before) × IsAnswered s id before)
  unfolding seen
  seen-IsAnswered s id = elim (L.set_nx_lem s (seen_key id) (bytes "1") seen_ttl) [
    | inl (e, bad) ↦ inl (e, ap negate bad)
    | inr (good, after) ↦ inr (
      not (is_none (L.live s (seen_key id))),
      ap negate good,
      record {
        is_before = refl;
        marked = seen-IsMarked s id true after;
        others =
            λ other differs. after (seen_key other) ∙ (rw (text_eq-seen_key other id) (rw differs));
        decisions = λ other. after (decision_key other) ∙ (rw (decision_key-ne-seen_key other id));
      },
    )
  ]

  pub seen-ok : (s : R.State) (id : Text) (b : Bool) → (seen R s id).0 ≡ ok b → IsAnswered s id b
  seen-ok s id b e = elim (seen-IsAnswered s id) [
    | inl (message, bad) ↦ cc
    | inr (b', e', a) ↦ let same : b' ≡ b = cc in subst (λ x. IsAnswered s id x) same a
  ]

  -- The guard forgets nothing, whether it answers or fails.
  pub IsMarked-seen :
      (s : R.State) (id other : Text) → IsMarked s other → IsMarked (seen R s id).1 other
  unfolding seen
  IsMarked-seen s id other marked =
      L.set_nx_keeps s (seen_key id) (bytes "1") seen_ttl (seen_key other) marked

  -- An event that the guard calls new was not marked.
  pub live-of_unseen :
      (s : R.State) (id : Text) → (seen R s id).0 ≡ ok false → L.live s (seen_key id) ≡ none
  live-of_unseen s id e = is_none_of _ false (seen-ok s id false e).is_before refl

  -- For a marked event the guard fails or says that the event was seen.
  pub seen-of_marked :
      (s : R.State) (id : Text)
      → IsMarked s id
      → ((e : Text) × ((seen R s id).0 ≡ err e)) ⊎ ((seen R s id).0 ≡ ok true)
  seen-of_marked s id marked = elim (seen-IsAnswered s id) [
    | inl failed_call ↦ inl failed_call
    | inr (b, e, a) ↦ inr (e ∙ ap ok (not-is_none _ b a.is_before marked))
  ]

  -- If two successive calls of the guard for one event are answered, the second one says that the
  -- event was seen, and the first one says that it was not exactly if its key was not there.
  seen_again :
      (s : R.State) (id : Text) (first second : Bool)
      → (seen R s id).0 ≡ ok first
      → (seen R (seen R s id).1 id).0 ≡ ok second
      → (second ≡ true) × ((first ≡ false) ↔ (L.live s (seen_key id) ≡ none))
  seen_again s id first second one two =
      let a = (seen-ok s id first one).is_before in
      let marked = (seen-ok s id first one).marked in
      let b = (seen-ok (seen R s id).1 id second two).is_before in
      (
        not-is_none _ second b marked,
        (λ h. is_none_of _ first a h, λ h. not-is_none-none _ first a h),
      )

  -- If Redis takes a decision, reading it gives the stored text or an error of Redis; the entries
  -- of all other decisions and all keys of the guard stay.
  pub get_decision-cache_decision :
      (s : R.State) (id blob : Text)
      → (cache_decision R s id blob).0 ≡ none
      → let s' = (cache_decision R s id blob).1 in
        (((e : Text) × (get_decision R s' id ≡ err e)) ⊎ (get_decision R s' id ≡ ok blob))
        × ((other : Text)
            → L.live s' (decision_key other)
              ≡ (if text_eq other id then some blob else L.live s (decision_key other)))
        × ((other : Text) → L.live s' (seen_key other) ≡ L.live s (seen_key other))
  unfolding cache_decision get_decision get_result
  get_decision-cache_decision s id blob stored =
      elim (L.set_lem s (decision_key id) blob decision_ttl) [
        | inl (e, bad) ↦ cc
        | inr (good, after) ↦ (
          elim (L.get_lem (cache_decision R s id blob).1 (decision_key id)) [
            | inl (e, bad) ↦ inl (e, ap get_result bad)
            | inr found ↦
                let there = rw (text_eq_refl (decision_key id)) at (after (decision_key id)) in
                inr (ap get_result (found ∙ ap answer there))
          ],
          λ other. after (decision_key other) ∙ (rw (text_eq-decision_key other id) refl),
          λ other. after (seen_key other) ∙ (rw (seen_key-ne-decision_key other id)),
        )
      ]
