-- ===== src/Startup.antt =====
-- cmd/worker/main.go and cmd/api/main.go: the connections that the two programs open, in their
-- order, and the deferred calls that close them.
pub mod Laws
pub mod ApiRun
pub mod WorkerRun
use eventmind.Base.{
  ℕ, Text, bytes, text_eq, Bool, true, false, Option, is_empty, List, [], ◌∷◌, Result,
  if◌then◌else◌,
}
use eventmind.Llm.{Provider}
use eventmind.Llm as Llm
use eventmind.Messaging.Clients.{
  Library, Producer, Consumer, DlqClient, new_producer, new_consumer, new_dlq_worker,
  close_producer, close_consumer, close_dlq_worker,
}
use eventmind.Resources.{Resources, Call, ◌>>=◌, pure, of_result, within}
use eventmind.Storage.Connections.{
  PgLibrary, MongoLibrary, RedisLibrary, PgStore, MongoStore, Cache, new_postgres, new_mongo,
  new_cache, close_postgres, close_mongo, close_cache,
}
use eventmind.Worker.Config.{dlq_settings}

pub record Libraries (R : Resources) : Type 1 where
  pub kafka : Library R
  pub postgres : PgLibrary R
  pub mongo : MongoLibrary R
  pub redis : RedisLibrary R

pub record WorkerClients (R : Resources) : Type 0 where
  pub db : PgStore R
  pub mdb : MongoStore R
  pub rdb : Cache R
  pub provider : Provider
  pub consumer : Consumer R
  pub dlq_worker : DlqClient R

pub record ApiClients (R : Resources) : Type 0 where
  pub db : PgStore R
  pub mdb : MongoStore R
  pub rdb : Cache R
  pub producer : Producer R

-- `http.Server`
pub record Server : Type 0 where
  pub addr : Text
  pub read_timeout : ℕ
  pub write_timeout : ℕ
  pub idle_timeout : ℕ

-- What `ListenAndServe` returns, and whether the API server is stopped by it: an error of its own
-- server that is not that of a shutdown cancels the context.
pub data ServeEnd : Type 0 where
  server_closed : ServeEnd
  serve_error : Text → ServeEnd

unfoldable pub cancels : ServeEnd → Bool
cancels server_closed = false
cancels (serve_error e) = true

-- Why `main` of the worker ends: one of the two loops has ended, or the context is cancelled. Only
-- in the first case the context is still to be cancelled.
pub data WorkerEnd : Type 0 where
  loop_ended : Option Text → WorkerEnd
  interrupted : WorkerEnd

unfoldable pub cancels_worker : WorkerEnd → Bool
cancels_worker (loop_ended e) = true
cancels_worker interrupted = false

-- The environment, and `%q` for the error about an unknown provider.
module _ (getenv : Text → Text) (quote : Text → Text) where
  abbrev or_else : Text → Text → Text
  or_else v default = if is_empty v then default else v

  -- The ports of the servers.
  unfoldable pub worker_metrics_port : Text
  worker_metrics_port = or_else (getenv (bytes "WORKER_METRICS_PORT")) (bytes "9092")

  unfoldable pub api_port : Text
  api_port = or_else (getenv (bytes "PORT")) (bytes "8080")

  unfoldable pub api_metrics_port : Text
  api_metrics_port = or_else (getenv (bytes "METRICS_PORT")) (bytes "9091")

  -- The servers of the two programs, with their time limits in seconds; 0 is no limit.
  unfoldable pub worker_metrics_server : Server
  unfolding worker_metrics_port
  worker_metrics_server = record {
    addr = b':' ∷ worker_metrics_port;
    read_timeout = 0;
    write_timeout = 0;
    idle_timeout = 0;
  }

  unfoldable pub api_metrics_server : Server
  unfolding api_metrics_port
  api_metrics_server = record {
    addr = b':' ∷ api_metrics_port;
    read_timeout = 0;
    write_timeout = 0;
    idle_timeout = 0;
  }

  unfoldable pub api_server : Server
  unfolding api_port
  api_server = record {
    addr = b':' ∷ api_port;
    read_timeout = 15;
    write_timeout = 30;
    idle_timeout = 60;
  }

  -- `gin.SetMode(gin.ReleaseMode)`
  unfoldable pub release_mode : Bool
  release_mode = text_eq (getenv (bytes "ENV")) (bytes "production")

  module _ {R : Resources} (C : Libraries R) where
    -- `main` of the worker up to its loops. An error ends the process: `log.Fatal` runs no
    -- deferred call.
    unfoldable pub start_worker : Call R.World (WorkerClients R)
    start_worker = do
      db ←
          within (bytes "postgres init failed: ")
            (new_postgres getenv C.postgres (getenv (bytes "DATABASE_URL")))
      mdb ←
          within (bytes "mongo init failed: ")
            (new_mongo C.mongo (getenv (bytes "MONGODB_URI")) (getenv (bytes "MONGODB_DATABASE")))
      rdb ← within (bytes "redis init failed: ") (new_cache C.redis (getenv (bytes "REDIS_URL")))
      provider ← within (bytes "llm init failed: ") (of_result (Llm.new getenv quote))
      consumer ← within (bytes "kafka consumer init failed: ") (
          new_consumer getenv C.kafka (getenv (bytes "KAFKA_BROKERS"))
            (getenv (bytes "KAFKA_GROUP_ID")) (getenv (bytes "KAFKA_TOPIC_EVENTS"))
            (getenv (bytes "KAFKA_TOPIC_DLQ")))
      dlq_worker ← within (bytes "dlq worker init failed: ") (
          new_dlq_worker getenv C.kafka (getenv (bytes "KAFKA_BROKERS"))
            (getenv (bytes "KAFKA_GROUP_ID")) (dlq_settings getenv))
      pure (record {
        db = db;
        mdb = mdb;
        rdb = rdb;
        provider = provider;
        consumer = consumer;
        dlq_worker = dlq_worker;
      })

    -- `main` of the API server up to its servers.
    unfoldable pub start_api : Call R.World (ApiClients R)
    start_api = do
      db ←
          within (bytes "postgres init failed: ")
            (new_postgres getenv C.postgres (getenv (bytes "DATABASE_URL")))
      mdb ←
          within (bytes "mongo init failed: ")
            (new_mongo C.mongo (getenv (bytes "MONGODB_URI")) (getenv (bytes "MONGODB_DATABASE")))
      rdb ← within (bytes "redis init failed: ") (new_cache C.redis (getenv (bytes "REDIS_URL")))
      producer ← within (bytes "kafka producer init failed: ") (
          new_producer getenv C.kafka (getenv (bytes "KAFKA_BROKERS"))
            (getenv (bytes "KAFKA_TOPIC_EVENTS")))
      pure (record { db = db; mdb = mdb; rdb = rdb; producer = producer })

module _ {R : Resources} (C : Libraries R) where
  -- The deferred calls, the last one first.
  unfoldable pub stop_worker : R.World → WorkerClients R → R.World
  stop_worker w c =
      let w1 = close_dlq_worker C.kafka w c.dlq_worker in
      let w2 = close_consumer C.kafka w1 c.consumer in
      let w3 = close_cache w2 c.rdb in let w4 = close_mongo w3 c.mdb in close_postgres w4 c.db

  unfoldable pub stop_api : R.World → ApiClients R → R.World
  stop_api w c =
      let w1 = close_producer C.kafka w c.producer in
      let w2 = close_cache w1 c.rdb in let w3 = close_mongo w2 c.mdb in close_postgres w3 c.db
