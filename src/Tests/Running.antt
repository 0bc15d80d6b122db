-- ===== src/Tests/Running.antt =====
-- The two programs from their start to their end.
use eventmind.Base.{text_eq, ◌≡◌, refl, bytes, true, false, List, [], ◌∷◌, ok, arith}
use eventmind.Resources.{within, or_close, ◌>>=◌, ◌>>◌}
use eventmind.Storage.Connections.{
  new_postgres, new_mongo, new_cache, close_postgres, close_mongo, close_cache,
}
use eventmind.Messaging.Clients.{
  new_producer, new_consumer, new_dlq_worker, close_producer, close_consumer, close_dlq_worker,
}
use eventmind.Llm as Llm
use eventmind.Worker.Config.{dlq_settings}
use eventmind.Startup.{
  cancels, stop_api, stop_worker, server_closed, serve_error, start_api, start_worker,
}
use eventmind.Startup as Startup
use eventmind.Startup.ApiRun.{
  ApiRun, running, returned, exited, signal, api_returns, metrics_returns, request, go_on, turns,
  serving, run_from, api_main,
}
use eventmind.Startup.ApiRun.Laws.{IsOrderlyRun, api_main-IsOrderlyRun}
use eventmind.Startup.ApiRun.Ending.{IsStopped, api_main-IsStopped}
use eventmind.Startup.WorkerRun as WorkerRun
use eventmind.Startup.WorkerRun.Laws as WorkerLaws
use eventmind.Startup.WorkerRun.Laws.{worker_main-IsOrderlyRun}
use eventmind.Tests.Llm.{only_key}
use eventmind.Tests.Startup.{
  numbered, numbered-IsStack, fine, libraries, libraries-AreLawful, fine-Opens,
}

-- The metrics server cannot listen, a request is handled, and the API server then fails.
abbrev failing : List (Startup.ApiRun.Turn numbered)
failing =
    metrics_returns (serve_error (bytes "address already in use"))
    ∷ request (λ w. w)
    ∷ api_returns (serve_error (bytes "accept"))
    ∷ go_on
    ∷ go_on
    ∷ go_on
    ∷ go_on
    ∷ []

abbrev at_end : ApiRun numbered
at_end = record {
  signalled = false;
  cancelled = true;
  api = returned (serve_error (bytes "accept"));
  metrics = returned (serve_error (bytes "address already in use"));
  main = exited;
  world = ([], 4);
}

api_ran : api_main (libraries fine) only_key (λ t. t) ([], 0) failing ≡ ok at_end
unfolding api_main start_api within or_close ◌>>=◌ ◌>>◌ new_postgres new_mongo new_cache
    new_producer cancels stop_api close_postgres close_mongo close_cache close_producer
api_ran = refl

api_main-IsOrderlyRun_example :
    IsOrderlyRun numbered-IsStack
      (libraries fine)
      (libraries-AreLawful fine fine-Opens)
      only_key
      (λ t. t)
      ([], 0)
      at_end
api_main-IsOrderlyRun_example =
    api_main-IsOrderlyRun numbered-IsStack (libraries fine) (libraries-AreLawful fine fine-Opens)
      only_key (λ t. t) ([], 0) failing at_end (tt, ((λ w. refl), (tt, (tt, (tt, (tt, (tt, tt)))))))
      api_ran

-- A signal, and then the end, which a failing metrics server and a request do not delay.
abbrev after_signal : ApiRun numbered
after_signal = record {
  signalled = true;
  cancelled = true;
  api = running false;
  metrics = running false;
  main = Startup.ApiRun.waiting;
  world = (3 ∷ 2 ∷ 1 ∷ 0 ∷ [], 4);
}

abbrev ending : List (Startup.ApiRun.Turn numbered)
ending =
    go_on
    ∷ metrics_returns (serve_error (bytes "accept"))
    ∷ go_on
    ∷ request (λ w. w)
    ∷ go_on
    ∷ go_on
    ∷ []

api_woken : api_main (libraries fine) only_key (λ t. t) ([], 0) (signal ∷ []) ≡ ok after_signal
unfolding api_main start_api within or_close ◌>>=◌ ◌>>◌ new_postgres new_mongo new_cache
    new_producer cancels
api_woken = refl

api_main-IsStopped_example :
    (s' : ApiRun numbered) × (api_main (libraries fine) only_key (λ t. t) ([], 0) (signal ∷ ending)
      ≡ ok s')
    × IsStopped numbered-IsStack
        (libraries fine)
        (libraries-AreLawful fine fine-Opens)
        only_key
        (λ t. t)
        ([], 0)
        s'
api_main-IsStopped_example =
    api_main-IsStopped numbered-IsStack (libraries fine) (libraries-AreLawful fine fine-Opens)
      only_key (λ t. t) ([], 0) (signal ∷ []) ending after_signal (tt, tt)
      (tt, (tt, (tt, ((λ w. refl), (tt, (tt, tt)))))) api_woken refl (omega arith)

-- A signal ends the worker while one of its loops still runs.
abbrev interrupted : List (WorkerRun.Turn numbered)
interrupted =
    WorkerRun.loop_step (λ w. w)
    ∷ WorkerRun.signal
    ∷ WorkerRun.dlq_returns
    ∷ WorkerRun.take_result
    ∷ WorkerRun.consumer_returns
    ∷ []

abbrev worker_at_end : WorkerRun.WorkerRun numbered
worker_at_end = record {
  signalled = true;
  cancelled = true;
  consumer_runs = true;
  dlq_runs = false;
  metrics = running false;
  results = [];
  main = WorkerRun.exited;
  world = ([], 7);
}

worker_ran :
    WorkerRun.worker_main (libraries fine) only_key (λ t. t) ([], 0) interrupted ≡ ok worker_at_end
unfolding WorkerRun.worker_main start_worker within or_close ◌>>=◌ ◌>>◌ new_postgres new_mongo
    new_cache new_consumer new_dlq_worker new_producer Llm.new Llm.choose Llm.new_claude text_eq
    dlq_settings stop_worker close_postgres close_mongo close_cache close_producer close_consumer
    close_dlq_worker
worker_ran = refl

worker_main-IsOrderlyRun_example :
    WorkerLaws.IsOrderlyRun numbered-IsStack
      (libraries fine)
      (libraries-AreLawful fine fine-Opens)
      only_key
      (λ t. t)
      ([], 0)
      worker_at_end
worker_main-IsOrderlyRun_example =
    worker_main-IsOrderlyRun numbered-IsStack (libraries fine) (libraries-AreLawful fine fine-Opens)
      only_key (λ t. t) ([], 0) interrupted worker_at_end ((λ w. refl), (tt, (tt, (tt, (tt, tt)))))
      worker_ran
