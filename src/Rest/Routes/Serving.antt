-- ===== src/Rest/Routes/Serving.antt =====
-- What a request is answered with, and what is logged of it, behind any lawful router.
use eventmind.Base.{[], sym, Text, is_empty, false, Option, none, some, ◌≡◌, refl}
use eventmind.Rest.Handlers.{Response, Api, World}
use eventmind.Rest.Middleware.{Request, request_id, serve}
use eventmind.Rest.Middleware.Laws.{IsLogged, serve-IsLogged}
use eventmind.Rest.Routes.{
  Endpoint, Params, api_routes, Found, found, answered, missing, Web, run_route, run_nothing,
  Incoming, Served, run, stamp, read_clock, chain, answer_found, handle,
}
use eventmind.Rest.Routes.Table.{served}
use eventmind.Rest.Routes.Laws.{IsRouter, endpoint_of, find-served}

module _ (A : Api) where
  -- A request that the router finds a handler for, or nothing, is logged under the id in its answer:
  -- its own if it brings one.
  pub record IsStamped (req : Request) (s : Served A) : Type 0 where
    pub id : Text
    pub sent : s.id ≡ some id
    pub logged : IsLogged req s.response id s.lines
    pub own : is_empty req.header ≡ false → id ≡ req.header

  request_id-own :
      (header fresh : Text) → is_empty header ≡ false → request_id header fresh ≡ header
  unfolding request_id
  request_id-own header fresh full = rw full refl

  chain-IsStamped :
      (w : World A) (req : Incoming) (next : World A → Option Response × World A)
      → IsStamped req.head (chain A w req next)
  unfolding chain serve
  chain-IsStamped w req next = record {
    id = request_id req.head.header (stamp A w req.head).0;
    sent = refl;
    logged =
        serve-IsLogged req.head (stamp A w req.head).0
          (next (read_clock A (stamp A w req.head).1)).0;
    own = request_id-own req.head.header _;
  }

module _ (A : Api) (W : Web A) where
  -- The ways in which a request is answered: by the endpoint that the table has for its method and
  -- path, inside the middleware; without one, by the router, inside the middleware or alone, and
  -- then with the services as they were.
  pub data Answers (w : World A) (req : Incoming) (s : Served A) : Type 0 where
    endpoint :
        (e : Endpoint) (ps : Params)
        → served req.head.method req.head.path ≡ some (e, ps)
        → s ≡ chain A w req (λ v. run A W v e ps req)
        → IsStamped A req.head s
        → Answers w req s
    nowhere :
        served req.head.method req.head.path ≡ none
        → s ≡ chain A w req (run_nothing A W)
        → IsStamped A req.head s
        → Answers w req s
    by_router :
        (r : Response)
        → served req.head.method req.head.path ≡ none
        → s ≡ record { response = r; id = none; lines = []; world = w }
        → Answers w req s

  answer_found-Answers :
      (w : World A) (req : Incoming) (f : Found)
      → endpoint_of f ≡ served req.head.method req.head.path
      → Answers w req (answer_found A W w req f)
  unfolding answer_found
  answer_found-Answers w req (found r ps) e =
      endpoint r.endpoint ps (sym e) refl (chain-IsStamped A w req (run_route A W r ps req))
  answer_found-Answers w req (answered r) e = by_router r (sym e) refl
  answer_found-Answers w req missing e =
      nowhere (sym e) refl (chain-IsStamped A w req (run_nothing A W))

  -- Behind such a router, every request is answered in one of three ways: by the endpoint that the
  -- table has for its method and path; without one, by the router inside the middleware; or
  -- without one, by the router alone, with the services as they were. In the first two ways the
  -- answer carries an id, the request's own if it brings one, and the last line of the log is
  -- about the request, with that id and the status of the answer, at the level of an error exactly
  -- from status 500 on.
  pub handle-Answers :
      IsRouter W.gin → (w : World A) (req : Incoming) → Answers w req (handle A W w req)
  unfolding handle
  handle-Answers router w req =
      answer_found-Answers w req (W.gin.find api_routes req.head.method req.head.path)
        (find-served W.gin router req.head.method req.head.path)
