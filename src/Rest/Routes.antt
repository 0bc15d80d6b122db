-- ===== src/Rest/Routes.antt =====
-- The routes and the middleware of the API server: `RegisterRoutes` of api/rest/handlers.go and the
-- router of cmd/api/main.go.
pub mod Paths
pub mod Table
pub mod Laws
pub mod Quiet
pub mod Serving
use eventmind.Base.{
  ℕ, Text, bytes, text_eq, is_empty, List, [], ◌∷◌, ◌++◌, map, Option, none, some, if◌then◌else◌,
}
use eventmind.Rest.Handlers as Handlers
use eventmind.Rest.Handlers.{Response, Body, respond, raw_body, status_not_found, Api, World}
use eventmind.Rest.Middleware.{Request, LogLine, serve}

-- The functions that are registered: the handlers of api/rest, the playground and the server of
-- GraphQL.
pub data Endpoint : Type 0 where
  health ingest_event list_events list_decisions get_decision playground graphql : Endpoint

pub record Route : Type 0 where
  pub method : Text
  pub pattern : Text
  pub endpoint : Endpoint

abbrev pub route : Text → Text → Endpoint → Route
route method pattern endpoint = record { method = method; pattern = pattern; endpoint = endpoint }

-- The values of the parameters of a pattern, by their names.
abbrev pub Params : Type 0
Params = List (Text × Text)

-- `RegisterRoutes`; the group's prefix is put before the patterns of its routes.
unfoldable pub register_routes : List Route → List Route
register_routes routes =
    let v1 = λ (pattern : Text). bytes "/api/v1" ++ pattern in
    routes
    ++ route (bytes "GET") (bytes "/health") health
      ∷ route (bytes "POST") (v1 (bytes "/events")) ingest_event
      ∷ route (bytes "GET") (v1 (bytes "/events")) list_events
      ∷ route (bytes "GET") (v1 (bytes "/decisions")) list_decisions
      ∷ route (bytes "GET") (v1 (bytes "/decisions/:id")) get_decision
      ∷ []

-- The methods of `router.Any`.
abbrev pub any_methods : List Text
any_methods =
    bytes "GET"
    ∷ bytes "POST"
    ∷ bytes "PUT"
    ∷ bytes "PATCH"
    ∷ bytes "HEAD"
    ∷ bytes "OPTIONS"
    ∷ bytes "DELETE"
    ∷ bytes "CONNECT"
    ∷ bytes "TRACE"
    ∷ []

-- The routes of the API server, in the order of `main`.
unfoldable pub api_routes : List Route
unfolding register_routes
api_routes =
    register_routes []
    ++ route (bytes "GET") (bytes "/graphql/playground") playground
      ∷ map (λ method. route method (bytes "/graphql") graphql) any_methods

-- What the router makes of a request: a route with the values of its parameters; an answer of its
-- own, such as a redirection, for which no handler and no middleware runs; or nothing, for which
-- the middleware runs.
pub data Found : Type 0 where
  found : Route → Params → Found
  answered : Response → Found
  missing : Found

-- What the server uses of gin: the router over the registered routes, for a method and a path, and
-- the text of its answer where it finds nothing.
pub record Gin : Type 0 where
  pub find : List Route → Text → Text → Found
  pub not_found_text : Text

-- A request as the chain and the handlers read it.
pub record Incoming : Type 0 where
  pub head : Request
  pub query : Text → Text
  pub body : Text

-- `c.Param`
unfoldable pub param : Text → Params → Text
param name [] = []
param name ((key, value) ∷ ps) = if text_eq key name then value else param name ps

-- What the client gets, with the `X-Request-ID` if the middleware has run; the lines of the log.
pub record Served (A : Api) : Type 0 where
  pub response : Response
  pub id : Option Text
  pub lines : List LogLine
  pub world : World A

-- What the API server has of the libraries: gin, the generated server of GraphQL, its playground.
pub record Web (A : Api) : Type 0 where
  pub gin : Gin
  pub graphql_server : World A → Incoming → Option Response × World A
  pub playground_page : Incoming → Option Response

module _ (A : Api) where
  -- `RequestID` draws an identifier only for a request that brings none.
  unfoldable pub stamp : World A → Request → Text × World A
  stamp w req =
      let (fresh, clock) = A.new_uuid w.clock in
      if is_empty req.header then (fresh, record w { clock = clock }) else ([], w)

  -- `RequestLogger` reads the clock before and after the rest of the chain.
  unfoldable pub read_clock : World A → World A
  read_clock w = record w { clock = (A.now w.clock).1 }

  -- The middleware around a handler.
  unfoldable pub chain : World A → Incoming → (World A → Option Response × World A) → Served A
  unfolding stamp read_clock
  chain w req next =
      let (fresh, w1) = stamp w req.head in
      let (outcome, w2) = next (read_clock w1) in
      let ((r, id), lines) = serve req.head fresh outcome in
      record { response = r; id = some id; lines = lines; world = read_clock w2 }

module _ (A : Api) (W : Web A) where
  abbrev handled : Response × World A → Option Response × World A
  handled (r, w) = (some r, w)

  -- The handler of a route.
  unfoldable pub run : World A → Endpoint → Params → Incoming → Option Response × World A
  unfolding param
  run w health ps req = handled (Handlers.health A w)
  run w ingest_event ps req = handled (Handlers.ingest_event A w req.body)
  run w list_events ps req =
      (some (Handlers.list_events A w (req.query (bytes "limit")) (req.query (bytes "offset"))), w)
  run w list_decisions ps req = (
    some (
        Handlers.list_decisions A w (req.query (bytes "limit")) (req.query (bytes "offset"))
          (req.query (bytes "event_type"))),
    w,
  )
  run w get_decision ps req = handled (Handlers.get_decision A w (param (bytes "id") ps))
  run w playground ps req = (W.playground_page req, w)
  run w graphql ps req = W.graphql_server w req

  abbrev pub run_route : Route → Params → Incoming → World A → Option Response × World A
  run_route r ps req w = run w r.endpoint ps req

  -- Where there is no route, only the middleware runs before the router answers.
  abbrev pub run_nothing : World A → Option Response × World A
  run_nothing w = (some (respond status_not_found (raw_body W.gin.not_found_text)), w)

  unfoldable pub answer_found : World A → Incoming → Found → Served A
  unfolding chain run
  answer_found w req (found r ps) = chain A w req (run_route r ps req)
  answer_found w req (answered r) = record { response = r; id = none; lines = []; world = w }
  answer_found w req missing = chain A w req run_nothing

  -- The router of `main`, for one request.
  unfoldable pub handle : World A → Incoming → Served A
  unfolding answer_found
  handle w req = answer_found w req (W.gin.find api_routes req.head.method req.head.path)
