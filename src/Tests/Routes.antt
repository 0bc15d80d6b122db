-- ===== src/Tests/Routes.antt =====
-- The routes of the API server behind a router that takes the first route that matches.
use eventmind.Base.{
  ◌≡◌, refl, ◌∙◌, ap, sym, Text, bytes, text_eq, text_eq_iff, true, List, [], ◌∷◌, Option, none,
  some, inl, inr, Bool-cases, Option-cases, if◌then◌else◌, arith,
}
use eventmind.Rest.Routes.{
  Endpoint, Route, Params, api_routes, Found, found, missing, Gin, Web, Incoming, handle,
}
use eventmind.Rest.Routes.Paths.{match_path}
use eventmind.Rest.Routes.Table.{served}
use eventmind.Rest.Routes.Laws.{IsRouter, IsListed, endpoint_of, find-served}
use eventmind.Rest.Routes.Quiet.{AreReading, IsQuiet, handle-IsQuiet}
use eventmind.Rest.Routes.Serving.{Answers, handle-Answers}
use eventmind.Tests.Rest.{api, start_state}

abbrev found_or : Route → Option Params → Found → Found
found_or r none other = other
found_or r (some ps) other = found r ps

first_route : List Route → Text → Text → Found
first_route [] method path = missing
first_route (r ∷ routes) method path =
    let rest = first_route routes method path in
    if text_eq r.method method then found_or r (match_path r.pattern path) rest else rest

abbrev first_gin : Gin
first_gin = record { find = first_route; not_found_text = bytes "404 page not found" }

-- What such a router finds in the rest of a list, it finds in the list.
abbrev IsHit : List Route → Text → Text → Route → Params → Type 0
IsHit routes method path r ps =
    IsListed r routes × (r.method ≡ method) × (match_path r.pattern path ≡ some ps)

found_inj : {s r : Route} {qs ps : Params} → found s qs ≡ found r ps → (s ≡ r) × (qs ≡ ps)
found_inj e = (cc, cc)

IsHit-later :
    (s : Route) (routes : List Route) (method path : Text) (r : Route) (ps : Params)
    → IsHit routes method path r ps
    → IsHit (s ∷ routes) method path r ps
IsHit-later s routes method path r ps (listed, same, matches) = (inr listed, same, matches)

from_first :
    (routes : List Route) (method path : Text) (r : Route) (ps : Params)
    → first_route routes method path ≡ found r ps
    → IsHit routes method path r ps
unfolding first_route
from_first [] method path r ps e = absurd cc
from_first (s ∷ routes) method path r ps e = elim (Bool-cases (text_eq s.method method)) [
  | inl same ↦ elim (Option-cases (match_path s.pattern path)) [
    | inl no_match ↦
        IsHit-later s routes method path r ps
          (from_first routes method path r ps (ground (arith, e, same, no_match)))
    | inr (qs, matches) ↦
        let here : found s qs ≡ found r ps = ground (arith, e, same, matches) in
        (
          inl (found_inj here).0,
          ap (λ t. t.method) (sym (found_inj here).0) ∙ (text_eq_iff s.method method).0 same,
          ap (λ t. match_path t.pattern path) (sym (found_inj here).0)
              ∙ matches
              ∙ ap some (found_inj here).1,
        )
  ]
  | inr differs ↦
      IsHit-later s routes method path r ps
        (from_first routes method path r ps (ground (arith, e, differs)))
]

to_first :
    (routes : List Route) (method path : Text) (r : Route) (ps : Params)
    → IsListed r routes
    → r.method ≡ method
    → match_path r.pattern path ≡ some ps
    → (s : Route) × (qs : Params) × (first_route routes method path ≡ found s qs)
unfolding first_route
to_first [] method path r ps listed same matches = elim listed [ ]
to_first (s ∷ routes) method path r ps (inl is_r) same matches = (
  s,
  ps,
  let here : text_eq s.method method ≡ true =
        (text_eq_iff s.method method).1 (ap (λ t. t.method) is_r ∙ same) in
      let matched : match_path s.pattern path ≡ some ps =
        ap (λ t. match_path t.pattern path) is_r ∙ matches in
      rw (here, matched) refl,
)
to_first (s ∷ routes) method path r ps (inr listed) same matches =
    elim (Bool-cases (text_eq s.method method)) [
      | inl here ↦ elim (Option-cases (match_path s.pattern path)) [
        | inl no_match ↦
            let (t, qs, rest) = to_first routes method path r ps listed same matches in
            (t, qs, ground (arith, here, no_match, rest))
        | inr (qs, matched) ↦ (s, qs, ground (arith, here, matched))
      ]
      | inr differs ↦
          let (t, qs, rest) = to_first routes method path r ps listed same matches in
          (t, qs, ground (arith, differs, rest))
    ]

first_gin-IsRouter : IsRouter first_gin
first_gin-IsRouter = record { from_found = from_first; to_found = to_first }

abbrev web : Web api
web = record { gin = first_gin; graphql_server = λ w req. (none, w); playground_page = λ req. none }

abbrev read_request : Incoming
read_request = record {
  head = record {
    method = bytes "GET";
    path = bytes "/api/v1/decisions/d1";
    header = bytes "r1";
    client_ip = bytes "10.0.0.1";
  };
  query = λ key. [];
  body = [];
}

is_served :
    served (bytes "GET") (bytes "/api/v1/decisions/d1")
    ≡ some (Endpoint.get_decision, (bytes "id", bytes "d1") ∷ [])
unfolding served
is_served = refl

find-served_example :
    endpoint_of (first_route api_routes (bytes "GET") (bytes "/api/v1/decisions/d1"))
    ≡ served (bytes "GET") (bytes "/api/v1/decisions/d1")
find-served_example =
    find-served first_gin first_gin-IsRouter (bytes "GET") (bytes "/api/v1/decisions/d1")

is_reading : AreReading (bytes "GET") (bytes "/api/v1/decisions/d1")
is_reading = record { no_post = λ e. cc; no_graphql = λ e. cc }

handle-IsQuiet_example : IsQuiet api start_state (handle api web start_state read_request).world
handle-IsQuiet_example =
    handle-IsQuiet api web first_gin-IsRouter start_state read_request is_reading

handle-Answers_example :
    Answers api web start_state read_request (handle api web start_state read_request)
handle-Answers_example = handle-Answers api web first_gin-IsRouter start_state read_request
