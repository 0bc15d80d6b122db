-- ===== src/Worker/Concurrent/Lossy.antt =====
-- How often an event is processed where Redis fails or forgets: the guard may not answer, a key may
-- expire or be evicted.
use eventmind.Base.{
  ℕ, ◌+◌, ◌≤◌, ◌≡◌, refl, sym, subst, ◌⊎◌, inl, inr, arith, Text, text_eq, Bool-cases, List, [],
  ◌∷◌, err, if◌then◌else◌,
}
use eventmind.Events.{Event}
use eventmind.Cache.Server as Server
use eventmind.Worker.{Services, World}
use eventmind.Worker.Handling.{guard}
use eventmind.Worker.Concurrent.{Phase, asking, advance, Step, Reachable}
use eventmind.Worker.Concurrent.Once.{count_processing, Marked, Effect, behind_effect, step_effect}

module _ (S : Services) where
  -- A step as before, or one at which the guard fails, or at which anything happens to the services.
  pub data Lossy : List (Event × Phase) → World S → List (Event × Phase) → World S → Type 0 where
    clean :
        {hs hs' : List (Event × Phase)} {w w' : World S} → Step S hs w hs' w' → Lossy hs w hs' w'
    refused :
        {hs : List (Event × Phase)} {w : World S} (ev : Event) (e : Text)
        → guard S w ev ≡ err e
        → Lossy
            ((ev, asking) ∷ hs)
            w
            ((ev, (advance S w ev asking).0) ∷ hs)
            (advance S w ev asking).1
    later :
        {hs hs' : List (Event × Phase)} {w w' : World S} (h : Event × Phase)
        → Lossy hs w hs' w'
        → Lossy (h ∷ hs) w (h ∷ hs') w'
    lapse : {hs : List (Event × Phase)} {w : World S} (w' : World S) → Lossy hs w hs w'

  pub data LossyReachable (origin : World S) : List (Event × Phase) → World S → Type 0 where
    start : LossyReachable origin [] origin
    step :
        {hs hs' : List (Event × Phase)} {w w' : World S}
        → LossyReachable origin hs w
        → Lossy hs w hs' w'
        → LossyReachable origin hs' w'

  -- How often the mark of an event may have been lost, and a handler of it let through unmarked.
  abbrev pub loss :
      (id : Text) {hs hs' : List (Event × Phase)} {w w' : World S} → Lossy hs w hs' w' → ℕ
  loss id (clean s) = 0
  loss id (refused ev e failed) = if text_eq ev.id id then 2 else 1
  loss id (later h s) = loss id s
  loss id (lapse w') = 1

  abbrev pub losses :
      (id : Text) {origin w : World S} {hs : List (Event × Phase)} → LossyReachable origin hs w → ℕ
  losses id start = 0
  losses id (step before s) = losses id before + loss id s

  -- The courses without a loss.
  pub lossless :
      {origin w : World S} {hs : List (Event × Phase)}
      → Reachable S origin hs w
      → LossyReachable origin hs w
  lossless Reachable.start = start
  lossless (Reachable.step before s) = step (lossless before) (clean s)

  losses-lossless :
      (id : Text) {origin w : World S} {hs : List (Event × Phase)} (r : Reachable S origin hs w)
      → losses id (lossless r) ≡ 0
  unfolding lossless
  losses-lossless id Reachable.start = refl
  losses-lossless id (Reachable.step before s) = omega (arith, losses-lossless id before)

module _ (S : Services) (L : Server.IsLawful S.redis) where
  -- The event is marked and one handler more than the losses may have been let through, or no more
  -- than the losses.
  IsBounded : Text → List (Event × Phase) → World S → ℕ → Type 0
  IsBounded id hs w n =
      (Marked S L w id × (count_processing id hs ≤ 1 + n)) ⊎ (count_processing id hs ≤ n)

  -- A loss raises the number of handlers by less than its weight.
  record IsLoss (id : Text) (hs hs' : List (Event × Phase)) (n : ℕ) : Type 0 where
    pub more : count_processing id hs' + 1 ≤ count_processing id hs + n

  clean-IsBounded :
      (id : Text) (hs hs' : List (Event × Phase)) (w w' : World S) (n : ℕ)
      → Effect S L id hs w hs' w'
      → IsBounded id hs w n
      → IsBounded id hs' w' (n + 0)
  unfolding IsBounded
  clean-IsBounded id hs hs' w w' n (inl i) (inl (m, few)) = inl (i.keeps m, omega (arith, i.same))
  clean-IsBounded id hs hs' w w' n (inl i) (inr few) = inr (omega (arith, i.same))
  clean-IsBounded id hs hs' w w' n (inr a) (inl (m, few)) = absurd (a.unmarked m)
  clean-IsBounded id hs hs' w w' n (inr a) (inr few) = inl (a.marked, omega (arith, a.one_more))

  loss-IsBounded :
      (id : Text) (hs hs' : List (Event × Phase)) (w w' : World S) (n k : ℕ)
      → IsLoss id hs hs' k
      → IsBounded id hs w n
      → IsBounded id hs' w' (n + k)
  unfolding IsBounded
  loss-IsBounded id hs hs' w w' n k l (inl (m, few)) = inr (omega (arith, l.more))
  loss-IsBounded id hs hs' w w' n k l (inr few) = inr (omega (arith, l.more))

  -- What a step does: it has no weight and is as before, or it is a loss of its weight.
  Weighs :
      (id : Text) {hs hs' : List (Event × Phase)} {w w' : World S} → Lossy S hs w hs' w' → Type 0
  Weighs id {hs} {hs'} {w} {w'} s =
      ((loss S id s ≡ 0) × Effect S L id hs w hs' w') ⊎ IsLoss id hs hs' (loss S id s)

  refused-IsLoss :
      (id : Text) (hs : List (Event × Phase)) (w : World S) (ev : Event) (e : Text)
      → guard S w ev ≡ err e
      → IsLoss id
          ((ev, asking) ∷ hs)
          ((ev, (advance S w ev asking).0) ∷ hs)
          (if text_eq ev.id id then 2 else 1)
  unfolding advance
  refused-IsLoss id hs w ev e failed = elim (Bool-cases (text_eq ev.id id)) [
    | inl same ↦ rw (failed, same) (record { more = rw same (omega arith) })
    | inr differs ↦ rw (failed, differs) (record { more = rw differs (omega arith) })
  ]

  later-Weighs :
      (id : Text) {hs hs' : List (Event × Phase)} {w w' : World S} (h : Event × Phase)
      (s : Lossy S hs w hs' w')
      → Weighs id s
      → Weighs id (later h s)
  unfolding Weighs
  later-Weighs id h s (inl (none_lost, effect)) = inl (none_lost, behind_effect S L id h effect)
  later-Weighs id (ev, p) s (inr l) = inr (record { more = omega (arith, l.more) })

  Lossy-Weighs :
      (id : Text) {hs hs' : List (Event × Phase)} {w w' : World S} (s : Lossy S hs w hs' w')
      → Weighs id s
  unfolding Weighs
  Lossy-Weighs id (clean s) = inl (refl, step_effect S L id s)
  Lossy-Weighs id (refused {hs} {w} ev e failed) = inr (refused-IsLoss id hs w ev e failed)
  Lossy-Weighs id (later h s) = later-Weighs id h s (Lossy-Weighs id s)
  Lossy-Weighs id (lapse w') = inr (record { more = omega arith })

  step-IsBounded :
      (id : Text) (hs hs' : List (Event × Phase)) (w w' : World S) (n : ℕ) (s : Lossy S hs w hs' w')
      → Weighs id s
      → IsBounded id hs w n
      → IsBounded id hs' w' (n + loss S id s)
  unfolding Weighs
  step-IsBounded id hs hs' w w' n s (inl (none_lost, effect)) b =
      subst (λ k. IsBounded id hs' w' (n + k)) (sym none_lost)
        (clean-IsBounded id hs hs' w w' n effect b)
  step-IsBounded id hs hs' w w' n s (inr l) b = loss-IsBounded id hs hs' w w' n (loss S id s) l b

  LossyReachable-IsBounded :
      (id : Text) {origin : World S} {hs : List (Event × Phase)} {w : World S}
      (r : LossyReachable S origin hs w)
      → IsBounded id hs w (losses S id r)
  unfolding IsBounded
  LossyReachable-IsBounded id start = inr (omega arith)
  LossyReachable-IsBounded id (step {hs} {hs'} {w} {w'} before s) =
      step-IsBounded id hs hs' w w' (losses S id before) s (Lossy-Weighs id s)
        (LossyReachable-IsBounded id before)

  -- In every interleaving of the calls of any number of handlers, from a state without handlers,
  -- where Redis behaves as documented but the guard may fail and marks may be lost: of all
  -- handlers of events with one id, at most one is let through to the agent, or has been, and one
  -- more for each lapse at which anything may happen to the services and for each failure of the
  -- guard, two if it fails for that id.
  pub LossyReachable-bounded :
      {origin w : World S} {hs : List (Event × Phase)} (id : Text)
      (r : LossyReachable S origin hs w)
      → count_processing id hs ≤ 1 + losses S id r
  unfolding IsBounded
  LossyReachable-bounded id r = elim (LossyReachable-IsBounded id r) [
    | inl (m, few) ↦ few
    | inr few ↦ omega (arith, few)
  ]
