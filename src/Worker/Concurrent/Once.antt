-- ===== src/Worker/Concurrent/Once.antt =====
-- Whatever the interleaving, no event is processed twice.
use eventmind.Base.{
  ℕ, suc, ◌+◌, ◌≤◌, ◌≡◌, refl, ◌∙◌, sym, subst, ap, ◌⊎◌, inl, inr, arith, Text, text_eq,
  text_eq_iff, Bool, true, false, ◌&&◌, Bool-cases, List, [], ◌∷◌, ok, if◌then◌else◌,
}
use eventmind.Events.{Event}
use eventmind.Cache.{seen}
use eventmind.Cache.Server as Server
use eventmind.Cache.Laws.{IsMarked, IsMarked-seen, seen-ok, live-of_unseen}
use eventmind.Worker.{Services, World, store_raw}
use eventmind.Worker.Handling.{guard}
use eventmind.Worker.Concurrent.{
  Phase, arrived, asking, admitted, skipped, decided, saved, finished, is_processing, after_answer,
  advance, Answers, Step, arrival, call, behind, elsewhere, Reachable, start, step,
}

-- The handlers that process an event with this id, or have done so.
abbrev pub count_processing : Text → List (Event × Phase) → ℕ
count_processing id [] = 0
count_processing id ((ev, p) ∷ hs) =
    (if text_eq ev.id id && is_processing p then 1 else 0) + count_processing id hs

module _ (S : Services) (L : Server.IsLawful S.redis) where
  abbrev pub Marked : World S → Text → Type 0
  Marked w id = IsMarked S.redis L w.redis id

  -- What a step does about an event: nothing, but for a mark; or it admits one handler, and only
  -- then was there no mark before.
  pub record IsIdle (id : Text) (hs : List (Event × Phase)) (w : World S)
      (hs' : List (Event × Phase)) (w' : World S) : Type 0 where
    pub same : count_processing id hs' ≡ count_processing id hs
    pub keeps : Marked w id → Marked w' id

  pub record IsAdmission (id : Text) (hs : List (Event × Phase)) (w : World S)
      (hs' : List (Event × Phase)) (w' : World S) : Type 0 where
    pub one_more : count_processing id hs' ≡ suc (count_processing id hs)
    pub unmarked : ¬ Marked w id
    pub marked : Marked w' id

  abbrev pub Effect :
      Text → List (Event × Phase) → World S → List (Event × Phase) → World S → Type 0
  Effect id hs w hs' w' = IsIdle id hs w hs' w' ⊎ IsAdmission id hs w hs' w'

  idle_call :
      (id : Text) (hs : List (Event × Phase)) (w w' : World S) (ev : Event) (p q : Phase)
      → is_processing q ≡ is_processing p
      → w'.redis ≡ w.redis
      → Effect id ((ev, p) ∷ hs) w ((ev, q) ∷ hs) w'
  idle_call id hs w w' ev p q same kept = inl (record {
    same = rw same refl;
    keeps = λ m. subst (λ s. IsMarked S.redis L s id) (sym kept) m;
  })

  unmarked_of_fresh : (w : World S) (ev : Event) → guard S w ev ≡ ok false → ¬ Marked w ev.id
  unmarked_of_fresh w ev fresh marked = marked (live-of_unseen S.redis L w.redis ev.id fresh)

  asked :
      (id : Text) (hs : List (Event × Phase)) (w : World S) (ev : Event) (answer : Bool)
      → guard S w ev ≡ ok answer
      → Effect id
          ((ev, asking) ∷ hs)
          w
          ((ev, after_answer (ok answer)) ∷ hs)
          (record w { redis = (seen S.redis w.redis ev.id).1 })
  asked id hs w ev true e =
      inl (record { same = refl; keeps = IsMarked-seen S.redis L w.redis ev.id id })
  asked id hs w ev false e = elim (Bool-cases (text_eq ev.id id)) [
    | inr differs ↦
        inl (record { same = rw differs refl; keeps = IsMarked-seen S.redis L w.redis ev.id id })
    | inl same ↦ inr (
        let here = (text_eq_iff ev.id id).0 same in
        record {
          one_more = rw same (omega arith);
          unmarked = λ m. unmarked_of_fresh w ev e (subst (λ j. Marked w j) (sym here) m);
          marked =
              subst (λ j. IsMarked S.redis L (seen S.redis w.redis ev.id).1 j) here
                (seen-ok S.redis L w.redis ev.id false e).marked;
        })
  ]

  call_effect :
      (id : Text) (hs : List (Event × Phase)) (w : World S) (ev : Event) (p : Phase)
      → Answers S w ev p
      → Effect id ((ev, p) ∷ hs) w ((ev, (advance S w ev p).0) ∷ hs) (advance S w ev p).1
  unfolding advance store_raw
  call_effect id hs w ev arrived _ = idle_call id hs w _ ev arrived asking refl refl
  call_effect id hs w ev asking (answer, e) = rw e (asked id hs w ev answer e)
  call_effect id hs w ev skipped _ = idle_call id hs w _ ev skipped skipped refl refl
  call_effect id hs w ev admitted _ = idle_call id hs w _ ev admitted _ refl refl
  call_effect id hs w ev (decided d failed) _ =
      idle_call id hs w _ ev (decided d failed) (saved d failed) refl refl
  call_effect id hs w ev (saved d failed) _ =
      idle_call id hs w _ ev (saved d failed) (finished failed) refl refl
  call_effect id hs w ev (finished failed) _ =
      idle_call id hs w _ ev (finished failed) (finished failed) refl refl

  pub behind_effect :
      (id : Text) {hs hs' : List (Event × Phase)} {w w' : World S} (h : Event × Phase)
      → Effect id hs w hs' w'
      → Effect id (h ∷ hs) w (h ∷ hs') w'
  behind_effect id (ev, p) (inl i) = inl (record { same = omega (arith, i.same); keeps = i.keeps })
  behind_effect id (ev, p) (inr a) =
      inr
        (record { one_more = omega (arith, a.one_more); unmarked = a.unmarked; marked = a.marked })

  pub step_effect :
      (id : Text) {hs hs' : List (Event × Phase)} {w w' : World S}
      → Step S hs w hs' w'
      → Effect id hs w hs' w'
  step_effect id (arrival ev) = inl (record { same = ground arith; keeps = λ m. m })
  step_effect id (call {hs} {w} ev p answers) = call_effect id hs w ev p answers
  step_effect id (behind h s) = behind_effect id h (step_effect id s)
  step_effect id (elsewhere same) =
      inl (record { same = refl; keeps = λ m. subst (λ s. IsMarked S.redis L s id) (sym same) m })

  -- No handler has been admitted, or one has and the event is marked.
  IsOnce : Text → List (Event × Phase) → World S → Type 0
  IsOnce id hs w = (count_processing id hs ≡ 0) ⊎ ((count_processing id hs ≡ 1) × Marked w id)

  IsOnce-step :
      (id : Text) (hs hs' : List (Event × Phase)) (w w' : World S)
      → Effect id hs w hs' w'
      → IsOnce id hs w
      → IsOnce id hs' w'
  unfolding IsOnce
  IsOnce-step id hs hs' w w' (inl i) (inl none_yet) = inl (i.same ∙ none_yet)
  IsOnce-step id hs hs' w w' (inl i) (inr (once, m)) = inr (i.same ∙ once, i.keeps m)
  IsOnce-step id hs hs' w w' (inr a) (inl none_yet) = inr (a.one_more ∙ ap suc none_yet, a.marked)
  IsOnce-step id hs hs' w w' (inr a) (inr (once, m)) = absurd (a.unmarked m)

  Reachable-IsOnce :
      (id : Text) {origin : World S} {hs : List (Event × Phase)} {w : World S}
      → Reachable S origin hs w
      → IsOnce id hs w
  unfolding IsOnce
  Reachable-IsOnce id start = inl refl
  Reachable-IsOnce id (step {hs} {hs'} {w} {w'} before s) =
      IsOnce-step id hs hs' w w' (step_effect id s) (Reachable-IsOnce id before)

  -- In every interleaving of the calls of any number of handlers, from a state without handlers,
  -- where Redis behaves as documented, the guard answers whenever it is asked, and all else may
  -- change everything but Redis: of all handlers of events with one id, at most one is let through
  -- to the agent, or has been.
  pub Reachable-once :
      {origin w : World S} {hs : List (Event × Phase)} (id : Text)
      → Reachable S origin hs w
      → count_processing id hs ≤ 1
  unfolding IsOnce
  Reachable-once id r = elim (Reachable-IsOnce id r) [
    | inl none_yet ↦ omega (arith, none_yet)
    | inr (once, m) ↦ omega (arith, once)
  ]
