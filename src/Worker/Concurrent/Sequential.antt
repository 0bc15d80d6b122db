-- ===== src/Worker/Concurrent/Sequential.antt =====
-- The calls of one handler, one after the other, are the handler.
use eventmind.Base.{◌≡◌, refl, Text, Bool, true, false, Option, Result, ok, err}
use eventmind.Events.{Event}
use eventmind.Worker.{Services, World, store_raw, process_event, after_check, handler}
use eventmind.Worker.Handling.{guard}
use eventmind.Worker.Concurrent.{Phase, arrived, skipped, finished, after_answer, advance}

-- How the handler ends.
abbrev ending : Result Bool → Option Text → Phase
ending (ok true) failed = skipped
ending (ok false) failed = finished failed
ending (err e) failed = finished failed

module _ (S : Services) where
  abbrev advance_all : World S → Event → Phase × World S → Phase × World S
  advance_all w ev (p, v) = advance S v ev p

  -- Five calls.
  abbrev complete : World S → Event → Phase × World S
  complete w ev =
      advance_all w ev
        (advance_all w ev (advance_all w ev (advance_all w ev (advance S w ev arrived))))

  complete_answer :
      (w : World S) (ev : Event) (answer : Result Bool)
      → let r = after_check S w ev answer in
        advance_all w ev (advance_all w ev (advance_all w ev (after_answer answer, w)))
        ≡ (ending answer r.0, r.1)
  unfolding advance after_check process_event
  complete_answer w ev (ok true) = refl
  complete_answer w ev (ok false) = refl
  complete_answer w ev (err e) = refl

  -- The five calls of a handler, one after the other, are the handler: they leave its state, and
  -- end as skipped if the guard called the event a duplicate, and else with the error of the
  -- handler, if any.
  complete-handler :
      (w : World S) (ev : Event)
      → complete w ev
        ≡ (ending (guard S (store_raw S w ev) ev) (handler S w ev).0, (handler S w ev).1)
  unfolding advance handler
  complete-handler w ev = complete_answer _ ev _
