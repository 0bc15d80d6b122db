-- ===== src/Worker/Concurrent.antt =====
-- The handler of cmd/worker/main.go call by call: both loops, and other workers over the same
-- services, are inside it at the same time, and their calls interleave.
pub mod Sequential
pub mod Once
pub mod Lossy
use eventmind.Base.{
  Text, Bool, true, false, Option, none, some, List, [], ◌∷◌, Result, ok, err, ◌≡◌,
}
use eventmind.Events.{Event}
use eventmind.Agent.Process.{Decision}
use eventmind.Agent.Process as Agent
use eventmind.Cache.{seen}
use eventmind.Storage.Postgres as Postgres
use eventmind.Worker.{Services, World, store_raw, count_decision, count_failure}
use eventmind.Worker.Handling.{guard}

-- Where a handler is: before it stores the raw document, before it asks the guard, before the agent,
-- before the insert of the decision, before the counters, or at its end. A duplicate is skipped.
pub data Phase : Type 0 where
  arrived asking admitted skipped : Phase
  decided saved : Decision → Option Text → Phase
  finished : Option Text → Phase

abbrev pub after_answer : Result Bool → Phase
after_answer (ok true) = skipped
after_answer (ok false) = admitted
after_answer (err e) = admitted

-- Whether the handler processes its event, or has done so.
abbrev pub is_processing : Phase → Bool
is_processing arrived = false
is_processing asking = false
is_processing skipped = false
is_processing admitted = true
is_processing (decided d failed) = true
is_processing (saved d failed) = true
is_processing (finished failed) = true

module _ (S : Services) where
  -- The next call of a handler.
  unfoldable pub advance : World S → Event → Phase → Phase × World S
  advance w ev arrived = (asking, store_raw S w ev)
  advance w ev asking =
      let (answer, redis') = seen S.redis w.redis ev.id in
      (after_answer answer, record w { redis = redis' })
  advance w ev admitted =
      let (d, failed, agent') = Agent.process S.env w.agent ev in
      (decided d failed, record w { agent = agent' })
  advance w ev (decided d failed) =
      (saved d failed, record w { pg = (Postgres.save_decision S.pg w.pg d).1 })
  advance w ev (saved d failed) = (
    finished failed,
    record w { counts = count_failure S ev failed (count_decision S ev d w.counts) },
  )
  advance w ev skipped = (skipped, w)
  advance w ev (finished failed) = (finished failed, w)

  -- The guard answers, if it is asked next.
  abbrev pub Answers : World S → Event → Phase → Type 0
  Answers w ev asking = (answer : Bool) × (guard S w ev ≡ ok answer)
  Answers w ev p = Unit

  -- One step of all handlers: a message arrives, one of the handlers makes its next call, or
  -- something else happens that leaves Redis as it is.
  pub data Step : List (Event × Phase) → World S → List (Event × Phase) → World S → Type 0 where
    arrival :
        {hs : List (Event × Phase)} {w : World S} (ev : Event) → Step hs w ((ev, arrived) ∷ hs) w
    call :
        {hs : List (Event × Phase)} {w : World S} (ev : Event) (p : Phase)
        → Answers w ev p
        → Step ((ev, p) ∷ hs) w ((ev, (advance w ev p).0) ∷ hs) (advance w ev p).1
    behind :
        {hs hs' : List (Event × Phase)} {w w' : World S} (h : Event × Phase)
        → Step hs w hs' w'
        → Step (h ∷ hs) w (h ∷ hs') w'
    elsewhere : {hs : List (Event × Phase)} {w w' : World S} → w'.redis ≡ w.redis → Step hs w hs w'

  -- What can be reached from a state without handlers; those that have ended stay in the list.
  pub data Reachable (origin : World S) : List (Event × Phase) → World S → Type 0 where
    start : Reachable origin [] origin
    step :
        {hs hs' : List (Event × Phase)} {w w' : World S}
        → Reachable origin hs w
        → Step hs w hs' w'
        → Reachable origin hs' w'
