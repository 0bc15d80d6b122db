-- ===== src/Rest/Routes/Laws.antt =====
-- Every lawful router serves each method and path of the table by its endpoint, and nothing else.
use eventmind.Base.{
  Text, bytes, text_eq, text_eq_iff, text_eq_refl, Bool, true, List, [], ◌∷◌, map, Option, none,
  some, ◌≡◌, refl, ◌∙◌, sym, ap, ◌⊎◌, inl, inr, Bool-cases, Option-cases, arith,
}
use eventmind.Rest.Routes.{
  Endpoint, get_decision, graphql, Route, route, Params, any_methods, api_routes, Found, found,
  answered, missing, Gin,
}
use eventmind.Rest.Routes.Paths.{split_slash, match_path, join_slash}
use eventmind.Rest.Routes.Paths.Laws.{all_fixed, split-no_slash, match_path-fixed, match_path-named}
use eventmind.Rest.Routes.Table.{
  Page, health_page, events_page, decisions_page, playground_page, graphql_page, no_page,
  decision_page, IsAt, only, is_get, contains, page, served_at, served, page-IsAt, page-decision,
}

abbrev pub IsListed : Route → List Route → Type 0
IsListed r [] = ⊥
IsListed r (s ∷ routes) = (s ≡ r) ⊎ IsListed r routes

-- What gin documents of its router: it finds a registered route that matches, if there is one.
pub record IsRouter (G : Gin) : Type 0 where
  pub from_found :
      (routes : List Route) (method path : Text) (r : Route) (ps : Params)
      → G.find routes method path ≡ found r ps
      → IsListed r routes × (r.method ≡ method) × (match_path r.pattern path ≡ some ps)
  pub to_found :
      (routes : List Route) (method path : Text) (r : Route) (ps : Params)
      → IsListed r routes
      → r.method ≡ method
      → match_path r.pattern path ≡ some ps
      → (s : Route) × (qs : Params) × (G.find routes method path ≡ found s qs)

static_served :
    (m pattern : Text) (e : Endpoint) (r : Route) (method path : Text) (ps : Params)
    → route m pattern e ≡ r
    → all_fixed (split_slash pattern) ≡ true
    → served m pattern ≡ some (e, [])
    → r.method ≡ method
    → match_path r.pattern path ≡ some ps
    → served method path ≡ some (r.endpoint, ps)
static_served m pattern e r method path ps is_r fixed serves same matches =
    let (there, none_named) =
      match_path-fixed pattern path ps fixed (ap (λ s. match_path s.pattern path) is_r ∙ matches) in
    cc

named_served :
    (r : Route) (method path : Text) (ps : Params)
    → route (bytes "GET") (bytes "/api/v1/decisions/:id") get_decision ≡ r
    → r.method ≡ method
    → match_path r.pattern path ≡ some ps
    → served method path ≡ some (r.endpoint, ps)
unfolding split_slash join_slash served served_at
named_served r method path ps is_r same matches =
    let (id, there, full, whole, named) =
      match_path-named (bytes "/api/v1/decisions/:id") path (bytes "id")
        ([] ∷ bytes "api" ∷ bytes "v1" ∷ bytes "decisions" ∷ []) ps refl refl
        (ap (λ s. match_path s.pattern path) is_r ∙ matches) in
    let at_id : page path ≡ decision_page id = ap page there ∙ page-decision id full whole in
    let get : method ≡ bytes "GET" = sym same ∙ sym (ap (λ s. s.method) is_r) in
    ap (λ m. served m path) get
    ∙ ap (λ k. served_at k (bytes "GET")) at_id
    ∙ ap (λ l. some (get_decision, l)) (sym named)
    ∙ ap (λ s. some (s.endpoint, ps)) is_r

any_served :
    (ms : List Text) (r : Route) (method path : Text) (ps : Params)
    → ((m : Text) → contains ms m ≡ true → served m (bytes "/graphql") ≡ some (graphql, []))
    → IsListed r (map (λ m. route m (bytes "/graphql") graphql) ms)
    → r.method ≡ method
    → match_path r.pattern path ≡ some ps
    → served method path ≡ some (r.endpoint, ps)
unfolding contains split_slash
any_served [] r method path ps all listed same matches = elim listed [ ]
any_served (m ∷ ms) r method path ps all (inl is_r) same matches =
    static_served m (bytes "/graphql") graphql r method path ps is_r refl
      (all m (rw (text_eq_refl m) refl)) same matches
any_served (m ∷ ms) r method path ps all (inr more) same matches =
    any_served ms r method path ps (λ k h. all k (ground (arith, h))) more same matches

route_served :
    (r : Route) (method path : Text) (ps : Params)
    → IsListed r api_routes
    → r.method ≡ method
    → match_path r.pattern path ≡ some ps
    → served method path ≡ some (r.endpoint, ps)
unfolding api_routes served split_slash
route_served r method path ps (inl e) = static_served _ _ _ r method path ps e refl refl
route_served r method path ps (inr (inl e)) = static_served _ _ _ r method path ps e refl refl
route_served r method path ps (inr (inr (inl e))) = static_served _ _ _ r method path ps e refl refl
route_served r method path ps (inr (inr (inr (inl e)))) =
    static_served _ _ _ r method path ps e refl refl
route_served r method path ps (inr (inr (inr (inr (inl e))))) = named_served r method path ps e
route_served r method path ps (inr (inr (inr (inr (inr (inl e)))))) =
    static_served _ _ _ r method path ps e refl refl
route_served r method path ps (inr (inr (inr (inr (inr (inr more)))))) =
    any_served any_methods r method path ps (λ m h. rw h refl) more

-- A registered route that matches.
abbrev Registered : Text → Text → Endpoint → Params → Type 0
Registered method path e ps =
    (r : Route) × IsListed r api_routes
    × (r.method ≡ method)
    × (match_path r.pattern path ≡ some ps)
    × (r.endpoint ≡ e)

pub only-some :
    (b : Bool) (e e' : Endpoint) (ps ps' : Params)
    → only b e ps ≡ some (e', ps')
    → (b ≡ true) × (e ≡ e') × (ps ≡ ps')
only-some b e e' ps ps' h = ground arith

-- A route of the table under its own path.
Registered-static :
    (m pattern : Text) (b : Bool) (e e' : Endpoint) (method path : Text) (qs ps : Params)
    → IsListed (route m pattern e) api_routes
    → match_path pattern path ≡ some qs
    → ((b ≡ true) → m ≡ method)
    → only b e qs ≡ some (e', ps)
    → Registered method path e' ps
Registered-static m pattern b e e' method path qs ps listed matches is_method h =
    let (holds, same, none_named) = only-some b e e' qs ps h in
    (route m pattern e, listed, is_method holds, rw (← none_named) matches, same)

method_of : (m method : Text) → text_eq method m ≡ true → m ≡ method
method_of m method h = sym ((text_eq_iff method m).0 h)

IsListed-any :
    (ms : List Text) (m : Text)
    → contains ms m ≡ true
    → IsListed
        (route m (bytes "/graphql") graphql)
        (map (λ k. route k (bytes "/graphql") graphql) ms)
unfolding contains
IsListed-any [] m h = absurd cc
IsListed-any (k ∷ ms) m h = elim (Bool-cases (text_eq k m)) [
  | inl same ↦ inl (ap (λ t. route t (bytes "/graphql") graphql) ((text_eq_iff k m).0 same))
  | inr differs ↦ inr (IsListed-any ms m (ground (arith, differs)))
]

decision_matches :
    (id path : Text)
    → IsAt (decision_page id) path
    → match_path (bytes "/api/v1/decisions/:id") path ≡ some ((bytes "id", id) ∷ [])
unfolding match_path
decision_matches id path (there, full, whole) = rw there (rw (split-no_slash id whole, full) refl)

in_place :
    (pattern path : Text)
    → path ≡ pattern
    → match_path pattern pattern ≡ some []
    → match_path pattern path ≡ some []
in_place pattern path there matches = ap (match_path pattern) there ∙ matches

page-Registered :
    (k : Page) (method path : Text) (e : Endpoint) (ps : Params)
    → IsAt k path
    → served_at k method ≡ some (e, ps)
    → Registered method path e ps
unfolding served_at api_routes match_path
page-Registered health_page method path e ps there h =
    Registered-static _ _ _ _ _ method path [] ps (inl refl) (in_place _ path there refl)
      (method_of _ method) h
page-Registered events_page method path e ps there h = elim (Bool-cases (is_get method)) [
  | inl get ↦
      Registered-static _ _ _ _ _ method path [] ps (inr (inr (inl refl)))
        (in_place _ path there refl) (method_of _ method) (ground (arith, h, get))
  | inr other ↦
      Registered-static _ _ _ _ _ method path [] ps (inr (inl refl)) (in_place _ path there refl)
        (method_of _ method) (ground (arith, h, other))
]
page-Registered decisions_page method path e ps there h =
    Registered-static _ _ _ _ _ method path [] ps (inr (inr (inr (inl refl))))
      (in_place _ path there refl) (method_of _ method) h
page-Registered (decision_page id) method path e ps there h =
    Registered-static _ _ _ _ _ method path _ ps (inr (inr (inr (inr (inl refl)))))
      (decision_matches id path there) (method_of _ method) h
page-Registered playground_page method path e ps there h =
    Registered-static _ _ _ _ _ method path [] ps (inr (inr (inr (inr (inr (inl refl))))))
      (in_place _ path there refl) (method_of _ method) h
page-Registered graphql_page method path e ps there h =
    let (holds, same, none_named) = only-some (contains any_methods method) graphql e [] ps h in
    (
      route method (bytes "/graphql") graphql,
      inr (inr (inr (inr (inr (inr (IsListed-any any_methods method holds)))))),
      refl,
      rw (there, ← none_named) refl,
      same,
    )
page-Registered no_page method path e ps there h = absurd cc

-- What a router has found, as the endpoint and the values of the parameters.
abbrev pub endpoint_of : Found → Option (Endpoint × Params)
endpoint_of (found r ps) = some (r.endpoint, ps)
endpoint_of (answered r) = none
endpoint_of missing = none

nothing_served :
    (G : Gin) (router : IsRouter G) (method path : Text) (f : Found)
    → G.find api_routes method path ≡ f
    → endpoint_of f ≡ none
    → endpoint_of f ≡ served method path
unfolding served
nothing_served G router method path f is_found no_endpoint =
    elim (Option-cases (served method path)) [
      | inl nothing ↦ no_endpoint ∙ sym nothing
      | inr ((e, ps), some_served) ↦
          let (r, listed, same, matches, at) =
            page-Registered (page path) method path e ps (page-IsAt path) some_served in
          let (s, qs, found_one) =
            router.to_found api_routes method path r ps listed same matches in
          absurd cc
    ]

-- Whatever router finds, as gin documents it, a registered route that matches whenever there is
-- one: for every method and path, the endpoint and the parameters that it finds in the routes of
-- the API server are those of the table written out over paths, and it finds none exactly where
-- the table has none.
pub find-served :
    (G : Gin) (router : IsRouter G) (method path : Text)
    → endpoint_of (G.find api_routes method path) ≡ served method path
find-served G router method path = found_served (G.find api_routes method path) refl
  where
    found_served :
        (f : Found) → G.find api_routes method path ≡ f → endpoint_of f ≡ served method path
    found_served (found r ps) e =
        let (listed, same, matches) = router.from_found api_routes method path r ps e in
        sym (route_served r method path ps listed same matches)
    found_served (answered r) e = nothing_served G router method path _ e refl
    found_served missing e = nothing_served G router method path _ e refl
