-- ===== src/Rest/Routes/Quiet.antt =====
-- Behind any lawful router, the requests that only read leave Postgres and Kafka alone.
use eventmind.Base.{
  Text, bytes, text_eq, text_eq_iff, is_empty, Bool, [], Option, some, ok, err, ◌≡◌, ◌≢◌, refl, ◌∙◌,
  sym, Bool-cases, Option-cases, arith, subst, Result, inl, inr,
}
use eventmind.Agent.Process.{Decision}
use eventmind.Cache as Cache
use eventmind.Storage.Postgres as Postgres
use eventmind.Storage.Postgres.{no_rows, pg_error, Answer, row, error}
use eventmind.Rest.Handlers as Handlers
use eventmind.Rest.Handlers.{Response, Api, World, fill_cache, answer_decision, cache_hit}
use eventmind.Rest.Middleware.{Request}
use eventmind.Rest.Routes.{
  Endpoint, health, ingest_event, list_events, list_decisions, get_decision, playground, graphql,
  Params, api_routes, Found, found, answered, missing, Web, run_route, run_nothing, Incoming, run,
  stamp, read_clock, chain, answer_found, handle,
}
use eventmind.Rest.Routes.Table.{
  Page, health_page, events_page, decisions_page, playground_page, graphql_page, no_page,
  decision_page, IsAt, only, is_get, page, served_at, served, page-IsAt,
}
use eventmind.Rest.Routes.Laws.{IsRouter, endpoint_of, find-served, only-some}

-- The endpoints that only read.
abbrev IsReading : Endpoint → Type 0
IsReading health = Unit
IsReading ingest_event = ⊥
IsReading list_events = Unit
IsReading list_decisions = Unit
IsReading get_decision = Unit
IsReading playground = Unit
IsReading graphql = ⊥

-- A method and a path at which nothing writes.
pub record AreReading (method path : Text) : Type 0 where
  pub no_post : method ≡ bytes "POST" → path ≢ bytes "/api/v1/events"
  pub no_graphql : path ≢ bytes "/graphql"

only-IsReading :
    (b : Bool) (e e' : Endpoint) (qs ps : Params)
    → IsReading e
    → only b e qs ≡ some (e', ps)
    → IsReading e'
only-IsReading b e e' qs ps reads h = subst IsReading (only-some b e e' qs ps h).1 reads

IsReading-served_at :
    (k : Page) (method path : Text) (e : Endpoint) (ps : Params)
    → IsAt k path
    → AreReading method path
    → served_at k method ≡ some (e, ps)
    → IsReading e
unfolding served_at
IsReading-served_at health_page method path e ps there reading h =
    only-IsReading (is_get method) _ e _ ps tt h
IsReading-served_at events_page method path e ps there reading h =
    elim (Bool-cases (is_get method)) [
      | inl get ↦ only-IsReading (is_get method) list_events e [] ps tt (ground (arith, h, get))
      | inr other ↦
          let (post, same, bare) =
            only-some (text_eq method (bytes "POST")) ingest_event e [] ps
              (ground (arith, h, other)) in
          absurd (reading.no_post ((text_eq_iff method (bytes "POST")).0 post) there)
    ]
IsReading-served_at decisions_page method path e ps there reading h =
    only-IsReading (is_get method) _ e _ ps tt h
IsReading-served_at (decision_page id) method path e ps there reading h =
    only-IsReading (is_get method) _ e _ ps tt h
IsReading-served_at playground_page method path e ps there reading h =
    only-IsReading (is_get method) _ e _ ps tt h
IsReading-served_at graphql_page method path e ps there reading h =
    absurd (reading.no_graphql there)
IsReading-served_at no_page method path e ps there reading h = absurd cc

module _ (A : Api) where
  -- Postgres and Kafka are as before.
  pub record IsQuiet (w after : World A) : Type 0 where
    pub pg : after.pg ≡ w.pg
    pub kafka : after.kafka ≡ w.kafka

  fill_cache-IsQuiet : (w : World A) (id : Text) (r : Result Text) → IsQuiet w (fill_cache A w id r)
  unfolding fill_cache
  fill_cache-IsQuiet w id (ok blob) = record { pg = refl; kafka = refl }
  fill_cache-IsQuiet w id (err e) = record { pg = refl; kafka = refl }

  answer_decision-IsQuiet :
      (w : World A) (id : Text) (a : Answer Decision) → IsQuiet w (answer_decision A w id a).1
  unfolding answer_decision
  answer_decision-IsQuiet w id (error no_rows) = record { pg = refl; kafka = refl }
  answer_decision-IsQuiet w id (error (pg_error e)) = record { pg = refl; kafka = refl }
  answer_decision-IsQuiet w id (row d) = fill_cache-IsQuiet w id (A.marshal_decision d)

  get_decision-IsQuiet : (w : World A) (id : Text) → IsQuiet w (Handlers.get_decision A w id).1
  unfolding Handlers.get_decision
  get_decision-IsQuiet w id =
      elim (Option-cases (cache_hit (Cache.get_decision A.redis w.redis id))) [
        | inl miss ↦
            rw (miss, Handlers.get_decision)
              (answer_decision-IsQuiet w id (Postgres.get_decision A.pg w.pg id))
        | inr (cached, hit) ↦ rw (hit, Handlers.get_decision) (record { pg = refl; kafka = refl })
      ]

module _ (A : Api) where
  stamp-IsQuiet : (w : World A) (req : Request) → IsQuiet A w (stamp A w req).1
  unfolding stamp
  stamp-IsQuiet w req = elim (Bool-cases (is_empty req.header)) [
    | inl empty ↦ rw empty (record { pg = refl; kafka = refl })
    | inr full ↦ rw full (record { pg = refl; kafka = refl })
  ]

  chain-IsQuiet :
      (w : World A) (req : Incoming) (next : World A → Option Response × World A)
      → ((v : World A) → IsQuiet A v (next v).1)
      → IsQuiet A w (chain A w req next).world
  unfolding chain read_clock
  chain-IsQuiet w req next quiet =
      let first = stamp-IsQuiet w req.head in
      let then_ = quiet (read_clock A (stamp A w req.head).1) in
      record { pg = then_.pg ∙ first.pg; kafka = then_.kafka ∙ first.kafka }

module _ (A : Api) (W : Web A) where
  run-IsQuiet :
      (w : World A) (e : Endpoint) (ps : Params) (req : Incoming)
      → IsReading e
      → IsQuiet A w (run A W w e ps req).1
  unfolding run Handlers.health
  run-IsQuiet w health ps req reads = record { pg = refl; kafka = refl }
  run-IsQuiet w ingest_event ps req reads = elim reads [ ]
  run-IsQuiet w list_events ps req reads = record { pg = refl; kafka = refl }
  run-IsQuiet w list_decisions ps req reads = record { pg = refl; kafka = refl }
  run-IsQuiet w get_decision ps req reads = get_decision-IsQuiet A w _
  run-IsQuiet w playground ps req reads = record { pg = refl; kafka = refl }
  run-IsQuiet w graphql ps req reads = elim reads [ ]

  answer_found-IsQuiet :
      (w : World A) (req : Incoming) (f : Found)
      → ((e : Endpoint) (ps : Params) → endpoint_of f ≡ some (e, ps) → IsReading e)
      → IsQuiet A w (answer_found A W w req f).world
  unfolding answer_found
  answer_found-IsQuiet w req (found r ps) reads =
      chain-IsQuiet A w req (run_route A W r ps req)
        (λ v. run-IsQuiet v r.endpoint ps req (reads r.endpoint ps refl))
  answer_found-IsQuiet w req (answered r) reads = record { pg = refl; kafka = refl }
  answer_found-IsQuiet w req missing reads =
      chain-IsQuiet A w req (run_nothing A W) (λ v. record { pg = refl; kafka = refl })

  -- Behind such a router, a request leaves Postgres and Kafka as they are, unless its path is that
  -- of GraphQL or it posts to /api/v1/events.
  pub handle-IsQuiet :
      IsRouter W.gin
      → (w : World A) (req : Incoming) → AreReading req.head.method req.head.path
      → IsQuiet A w (handle A W w req).world
  unfolding handle served
  handle-IsQuiet router w req reading =
      let method = req.head.method in
      let path = req.head.path in
      answer_found-IsQuiet w req (W.gin.find api_routes method path) λ e ps h.
        IsReading-served_at (page path) method path e ps (page-IsAt path) reading
          (sym (find-served W.gin router method path) ∙ h)
