-- ===== src/Startup/Laws.antt =====
-- The programs of cmd/ close what they have opened, and a constructor that fails leaves nothing open.
use eventmind.Base.{Text, List, [], ◌++◌, append_assoc, Result, ok, err, ◌≡◌, refl, ◌∙◌, sym, ap}
use eventmind.Messaging.Dlq.{DlqWorker}
use eventmind.Messaging.Clients.{new_producer, new_consumer, new_dlq_worker}
use eventmind.Messaging.Clients.Laws.{
  IsLibrary, producer_handles, consumer_handles, dlq_handles, new_producer_lem, new_consumer_lem,
  new_dlq_worker_lem, opened-close_producer, opened-close_consumer, opened-close_dlq_worker,
}
use eventmind.Resources.{Resources, Call, ◌>>=◌, continue_with, pure, within}
use eventmind.Resources.Laws.{IsStack, Opens, after, Opens-within}
use eventmind.Storage.Connections.{
  new_postgres, new_mongo, new_cache, close_postgres, close_mongo, close_cache,
}
use eventmind.Storage.Connections.Laws.{
  IsPgLibrary, IsMongoLibrary, IsRedisLibrary, postgres_handles, mongo_handles, cache_handles,
  of_result-Opens, new_postgres_lem, new_mongo_lem, new_cache_lem,
}
use eventmind.Startup.{
  Libraries, WorkerClients, ApiClients, start_worker, start_api, stop_worker, stop_api,
}

pub record AreLawful {R : Resources} (L : IsStack R) (C : Libraries R) : Type 0 where
  pub kafka : IsLibrary L C.kafka
  pub postgres : IsPgLibrary L C.postgres
  pub mongo : IsMongoLibrary L C.mongo
  pub redis : IsRedisLibrary L C.redis

module _ {R : Resources} (L : IsStack R) where
  -- A call that succeeds has the handles of its result open on top of the others; of an error
  -- nothing is said, since it ends the process.
  abbrev Built : {A : Type 0} → (A → List R.Handle) → Result A × R.World → List R.Handle → Type 0
  Built handles (ok a, w) others = L.opened w ≡ handles a ++ others
  Built handles (err e, w) others = Unit

  -- The same for a call that finds these handles open.
  record Builds {A : Type 0} (base : List R.Handle) (handles : A → List R.Handle)
      (m : Call R.World A) : Type 0 where
    pub from :
        (w : R.World) (others : List R.Handle)
        → L.opened w ≡ base ++ others
        → Built handles (m w) others

  Builds-pure :
      {A : Type 0} {base : List R.Handle} {handles : A → List R.Handle} (a : A)
      → handles a ≡ base
      → Builds base handles (pure a)
  Builds-pure a e = record { from = λ w others held. held ∙ ap (λ l. l ++ others) (sym e) }

  build_step :
      {A B : Type 0} (more : B → List R.Handle) (base : List R.Handle) (handles : A → List R.Handle)
      (r : Result B × R.World) (k : B → Call R.World A) (others : List R.Handle)
      → L.opened r.1 ≡ after L more r.0 (base ++ others) (base ++ others)
      → ((b : B) → Builds (more b ++ base) handles (k b))
      → Built handles (continue_with r k) others
  build_step more base handles (ok b, w) k others held rest =
      (rest b).from w others (held ∙ sym (append_assoc (more b) base others))
  build_step more base handles (err e, w) k others held rest = tt

  -- One more connection.
  Builds-then :
      {A B : Type 0} {more : B → List R.Handle} {base : List R.Handle} {handles : A → List R.Handle}
      {m : Call R.World B} {k : B → Call R.World A} (context : Text)
      → Opens L more m
      → ((b : B) → Builds (more b ++ base) handles (k b))
      → Builds base handles (within context m >>= k)
  unfolding ◌>>=◌
  Builds-then {more = more} {base = base} {handles = handles} {m = m} {k = k} context opens rest =
      record {
        from = λ w others held.
            build_step more base handles (within context m w) k others
              ((Opens-within L context opens).from w
                ∙ ap (λ l. after L more (within context m w).0 l l) held)
              rest;
      }

  built :
      {A : Type 0} (handles : A → List R.Handle) (r : Result A × R.World) (a : A)
      (others : List R.Handle)
      → Built handles r others
      → r.0 ≡ ok a
      → L.opened r.1 ≡ handles a ++ others
  built handles (ok b, w) a others held same = held ∙ ap (λ c. after L handles c others others) same
  built handles (err e, w) a others held same = absurd cc

module _ {R : Resources} (L : IsStack R) (C : Libraries R) (D : AreLawful L C)
    (getenv : Text → Text) (quote : Text → Text) where
  abbrev worker_handles : WorkerClients R → List R.Handle
  worker_handles c =
      dlq_handles c.dlq_worker
      ++ consumer_handles c.consumer
      ++ cache_handles c.rdb
      ++ mongo_handles c.mdb
      ++ postgres_handles c.db

  start_worker_lem : Builds L [] worker_handles (start_worker getenv quote C)
  unfolding start_worker
  start_worker_lem = Builds-then L _ (new_postgres_lem L getenv C.postgres D.postgres _) λ db.
      Builds-then L _ (new_mongo_lem L C.mongo D.mongo _ _) λ mdb.
        Builds-then L _ (new_cache_lem L C.redis D.redis _) λ rdb.
          Builds-then L _ (of_result-Opens L _) λ provider.
            Builds-then L _ (new_consumer_lem L C.kafka D.kafka getenv _ _ _ _) λ consumer.
              Builds-then L _ (new_dlq_worker_lem L C.kafka D.kafka getenv _ _ _)
                λ dlq_worker. Builds-pure L _ refl

  -- For client libraries that behave as documented, if the worker has started and its loops leave
  -- the open connections as they are, its deferred calls, in their order, close exactly what it
  -- has opened.
  pub stop_worker-start_worker :
      (w later : R.World) (c : WorkerClients R)
      → (start_worker getenv quote C w).0 ≡ ok c
      → L.opened later ≡ L.opened (start_worker getenv quote C w).1
      → L.opened (stop_worker C later c) ≡ L.opened w
  unfolding stop_worker close_cache close_mongo close_postgres
  stop_worker-start_worker w later c started same =
      let held =
        same ∙ built L worker_handles _ c _ (start_worker_lem.from w (L.opened w) refl) started in
      let a = opened-close_dlq_worker L C.kafka D.kafka later c.dlq_worker _ held in
      let b = opened-close_consumer L C.kafka D.kafka _ c.consumer _ a in
      L.opened-close _ c.db.pool _
        (L.opened-close _ c.mdb.client _ (L.opened-close _ c.rdb.rdb _ b))

  abbrev api_handles : ApiClients R → List R.Handle
  api_handles c =
      producer_handles c.producer
      ++ cache_handles c.rdb
      ++ mongo_handles c.mdb
      ++ postgres_handles c.db

  start_api_lem : Builds L [] api_handles (start_api getenv quote C)
  unfolding start_api
  start_api_lem = Builds-then L _ (new_postgres_lem L getenv C.postgres D.postgres _) λ db.
      Builds-then L _ (new_mongo_lem L C.mongo D.mongo _ _) λ mdb.
        Builds-then L _ (new_cache_lem L C.redis D.redis _) λ rdb.
          Builds-then L _ (new_producer_lem L C.kafka D.kafka getenv _ _)
            λ producer. Builds-pure L _ refl

  pub stop_api-start_api :
      (w later : R.World) (c : ApiClients R)
      → (start_api getenv quote C w).0 ≡ ok c
      → L.opened later ≡ L.opened (start_api getenv quote C w).1
      → L.opened (stop_api C later c) ≡ L.opened w
  unfolding stop_api close_cache close_mongo close_postgres
  stop_api-start_api w later c started same =
      let held =
        same ∙ built L api_handles _ c _ (start_api_lem.from w (L.opened w) refl) started in
      let a = opened-close_producer L C.kafka D.kafka later c.producer _ held in
      L.opened-close _ c.db.pool _
        (L.opened-close _ c.mdb.client _ (L.opened-close _ c.rdb.rdb _ a))

  -- For client libraries that behave as documented, each constructor of a client, of Postgres,
  -- Mongo, Redis, the producer, the consumer and the dead letter worker, leaves exactly the
  -- connections of its result open beside those before it, and after an error, at whatever step,
  -- only those before it.
  pub constructors_lem :
      (dsn uri db_name url brokers group_id topic dlq_topic : Text) (worker : DlqWorker)
      → Opens L postgres_handles (new_postgres getenv C.postgres dsn)
        × Opens L mongo_handles (new_mongo C.mongo uri db_name)
        × Opens L cache_handles (new_cache C.redis url)
        × Opens L producer_handles (new_producer getenv C.kafka brokers topic)
        × Opens L consumer_handles (new_consumer getenv C.kafka brokers group_id topic dlq_topic)
        × Opens L dlq_handles (new_dlq_worker getenv C.kafka brokers group_id worker)
  constructors_lem dsn uri db_name url brokers group_id topic dlq_topic worker = (
    new_postgres_lem L getenv C.postgres D.postgres dsn,
    new_mongo_lem L C.mongo D.mongo uri db_name,
    new_cache_lem L C.redis D.redis url,
    new_producer_lem L C.kafka D.kafka getenv brokers topic,
    new_consumer_lem L C.kafka D.kafka getenv brokers group_id topic dlq_topic,
    new_dlq_worker_lem L C.kafka D.kafka getenv brokers group_id worker,
  )
