-- ===== src/Startup/WorkerRun.antt =====
-- cmd/worker/main.go from the start of its goroutines to its end: the two loops, the channel of
-- their results, the metrics server, and the `select` at which `main` waits.
pub mod Sound
pub mod Laws
use eventmind.Base.{
  Text, Bool, true, false, Option, none, List, [], ◌∷◌, ◌++◌, Result, ok, err, if◌then◌else◌,
}
use eventmind.Resources.{Resources}
use eventmind.Startup.{
  Libraries, WorkerClients, start_worker, stop_worker, ServeEnd, WorkerEnd, loop_ended, interrupted,
  cancels_worker,
}
use eventmind.Startup.ApiRun.{Serving, running, returned, may_return}

-- Where `main` is: at the `select`, ended after its deferred calls, or ended with the process by a
-- panic in a loop, which runs no deferred call of `main`.
pub data Phase : Type 0 where
  selecting exited crashed : Phase

pub record WorkerRun (R : Resources) : Type 0 where
  pub signalled : Bool
  pub cancelled : Bool
  pub consumer_runs : Bool
  pub dlq_runs : Bool
  pub metrics : Serving
  pub results : List (Option Text)
  pub main : Phase
  pub world : R.World

-- What may happen next: a signal, the return of a loop or a panic in the one over the dead letters,
-- the return of the metrics server, a step of a loop, or one of the cases of the `select`.
pub data Turn (R : Resources) : Type 0 where
  signal : Turn R
  consumer_returns : Turn R
  dlq_returns : Turn R
  dlq_panics : Turn R
  metrics_returns : ServeEnd → Turn R
  loop_step : (R.World → R.World) → Turn R
  take_result : Turn R
  see_done : Turn R

module _ {R : Resources} (C : Libraries R) (clients : WorkerClients R) where
  -- Both loops return at `ctx.Done` only, with nil, which their goroutine puts in the channel.
  unfoldable pub consumer_returned : Bool → Bool → WorkerRun R → WorkerRun R
  consumer_returned true true s = record s {
    consumer_runs = false;
    results = s.results ++ none ∷ [];
  }
  consumer_returned true false s = s
  consumer_returned false cancelled s = s

  unfoldable pub dlq_returned : Bool → Bool → WorkerRun R → WorkerRun R
  dlq_returned true true s = record s { dlq_runs = false; results = s.results ++ none ∷ [] }
  dlq_returned true false s = s
  dlq_returned false cancelled s = s

  unfoldable pub metrics_returned : WorkerRun R → ServeEnd → WorkerRun R
  metrics_returned s end =
      if may_return s.metrics end then record s { metrics = returned end } else s

  -- The end of `main`: a case of the `select`, and then the deferred calls.
  unfoldable pub main_ends : WorkerRun R → List (Option Text) → WorkerEnd → WorkerRun R
  unfolding cancels_worker
  main_ends s rest why = record s {
    results = rest;
    cancelled = if cancels_worker why then true else s.cancelled;
    world = stop_worker C s.world clients;
    main = exited;
  }

  unfoldable pub result_taken : List (Option Text) → WorkerRun R → WorkerRun R
  unfolding main_ends
  result_taken [] s = s
  result_taken (r ∷ rest) s = main_ends s rest (loop_ended r)

  unfoldable pub turn : WorkerRun R → Turn R → WorkerRun R
  unfolding consumer_returned dlq_returned metrics_returned result_taken
  turn s signal = record s { signalled = true; cancelled = true }
  turn s consumer_returns = consumer_returned s.consumer_runs s.cancelled s
  turn s dlq_returns = dlq_returned s.dlq_runs s.cancelled s
  turn s dlq_panics = if s.dlq_runs then record s { main = crashed } else s
  turn s (metrics_returns end) = metrics_returned s end
  turn s (loop_step f) = record s { world = f s.world }
  turn s take_result = result_taken s.results s
  turn s see_done = if s.cancelled then main_ends s s.results interrupted else s

  unfoldable pub turn_in : Phase → WorkerRun R → Turn R → WorkerRun R
  unfolding turn
  turn_in selecting s t = turn s t
  turn_in exited s t = s
  turn_in crashed s t = s

  unfoldable pub turns : WorkerRun R → List (Turn R) → WorkerRun R
  unfolding turn_in
  turns s [] = s
  turns s (t ∷ ts) = turns (turn_in s.main s t) ts

-- The state in which the goroutines are started.
abbrev pub looping : {R : Resources} → R.World → WorkerRun R
looping w = record {
  signalled = false;
  cancelled = false;
  consumer_runs = true;
  dlq_runs = true;
  metrics = running false;
  results = [];
  main = selecting;
  world = w;
}

module _ {R : Resources} (C : Libraries R) where
  abbrev pub run_from : Result (WorkerClients R) × R.World → List (Turn R) → Result (WorkerRun R)
  run_from (err e, w) ts = err e
  run_from (ok clients, w) ts = ok (turns C clients (looping w) ts)

  -- `main`: an error of the start ends the process.
  unfoldable pub worker_main :
      (Text → Text) → (Text → Text) → R.World → List (Turn R) → Result (WorkerRun R)
  unfolding turns
  worker_main getenv quote w ts = run_from (start_worker getenv quote C w) ts
