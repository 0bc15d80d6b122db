-- ===== src/Startup/ApiRun.antt =====
-- cmd/api/main.go from the start of its servers to its end: the two servers, the context that a
-- signal or a failure of the API server cancels, and the shutdown.
pub mod Causes
pub mod Sound
pub mod Laws
pub mod Ending
use eventmind.Base.{
  Text, Bool, true, false, ◌&&◌, ◌||◌, List, [], ◌∷◌, Result, ok, err, if◌then◌else◌,
}
use eventmind.Resources.{Resources}
use eventmind.Startup.{
  Libraries, ApiClients, start_api, stop_api, ServeEnd, server_closed, serve_error, cancels,
}

-- A server in its goroutine: `ListenAndServe` has not returned, and whether `Shutdown` has been
-- called; or it has returned.
pub data Serving : Type 0 where
  running : Bool → Serving
  returned : ServeEnd → Serving

-- `Shutdown` closes the listener, also if it then runs into its time limit.
unfoldable pub shut_down : Serving → Serving
shut_down (running told) = running true
shut_down (returned e) = returned e

-- New connections are accepted.
unfoldable pub accepts : Serving → Bool
accepts (running true) = false
accepts (running false) = true
accepts (returned e) = false

-- Where `main` is: at `<-ctx.Done()`, before either `Shutdown`, before the deferred calls, or ended.
pub data Phase : Type 0 where
  waiting shutting_api shutting_metrics closing exited : Phase

pub record ApiRun (R : Resources) : Type 0 where
  pub signalled : Bool
  pub cancelled : Bool
  pub api : Serving
  pub metrics : Serving
  pub main : Phase
  pub world : R.World

-- What may happen next: a signal, `ListenAndServe` of a server returns, a request is handled, or
-- `main` goes on.
pub data Turn (R : Resources) : Type 0 where
  signal : Turn R
  api_returns : ServeEnd → Turn R
  metrics_returns : ServeEnd → Turn R
  request : (R.World → R.World) → Turn R
  go_on : Turn R

-- Whether `ListenAndServe` can return so: `ErrServerClosed` comes only after `Shutdown`.
unfoldable pub may_return : Serving → ServeEnd → Bool
may_return (running told) server_closed = told
may_return (running told) (serve_error e) = true
may_return (returned e) end = false

module _ {R : Resources} (C : Libraries R) (clients : ApiClients R) where
  -- The goroutine of the API server cancels the context if the server has failed.
  unfoldable pub api_returned : ApiRun R → ServeEnd → ApiRun R
  api_returned s end =
      if may_return s.api end
      then record s { api = returned end; cancelled = s.cancelled || cancels end }
      else s

  -- That of the metrics server only logs.
  unfoldable pub metrics_returned : ApiRun R → ServeEnd → ApiRun R
  metrics_returned s end =
      if may_return s.metrics end then record s { metrics = returned end } else s

  -- A step goes up to the effect of a call: that `Shutdown` has closed the listener, or that the
  -- deferred calls have closed the clients. The wait in a call for what is still in use (for open
  -- requests at most the time limit of `Shutdown`) is the time until the next step, in which any
  -- other turn may come; after a call that never returns `main` takes no step.
  unfoldable pub main_goes_on : Phase → ApiRun R → ApiRun R
  main_goes_on waiting s = if s.cancelled then record s { main = shutting_api } else s
  main_goes_on shutting_api s = record s { api = shut_down s.api; main = shutting_metrics }
  main_goes_on shutting_metrics s = record s { metrics = shut_down s.metrics; main = closing }
  main_goes_on closing s = record s {
    world = stop_api C s.world clients;
    cancelled = true;
    main = exited;
  }
  main_goes_on exited s = s

  unfoldable pub turn : ApiRun R → Turn R → ApiRun R
  unfolding api_returned metrics_returned main_goes_on shut_down may_return
  turn s signal = record s { signalled = true; cancelled = true }
  turn s (api_returns end) = api_returned s end
  turn s (metrics_returns end) = metrics_returned s end
  turn s (request f) = record s { world = f s.world }
  turn s go_on = main_goes_on s.main s

  -- After the end of `main` nothing happens.
  unfoldable pub turn_in : Phase → ApiRun R → Turn R → ApiRun R
  unfolding turn
  turn_in exited s t = s
  turn_in waiting s t = turn s t
  turn_in shutting_api s t = turn s t
  turn_in shutting_metrics s t = turn s t
  turn_in closing s t = turn s t

  unfoldable pub turns : ApiRun R → List (Turn R) → ApiRun R
  unfolding turn_in
  turns s [] = s
  turns s (t ∷ ts) = turns (turn_in s.main s t) ts

-- The state in which the servers are started.
abbrev pub serving : {R : Resources} → R.World → ApiRun R
serving w = record {
  signalled = false;
  cancelled = false;
  api = running false;
  metrics = running false;
  main = waiting;
  world = w;
}

module _ {R : Resources} (C : Libraries R) where
  abbrev pub run_from : Result (ApiClients R) × R.World → List (Turn R) → Result (ApiRun R)
  run_from (err e, w) ts = err e
  run_from (ok clients, w) ts = ok (turns C clients (serving w) ts)

  -- `main`: an error of the start ends the process.
  unfoldable pub api_main :
      (Text → Text) → (Text → Text) → R.World → List (Turn R) → Result (ApiRun R)
  unfolding turns
  api_main getenv quote w ts = run_from (start_api getenv quote C w) ts
