-- ===== src/Rest/Routes/Table.antt =====
-- What each method and path is served by, read off the path alone, whatever the router.
use eventmind.Base.{
  Text, bytes, text_eq, text_eq_iff, ◌==◌, is_empty, Bool, false, ◌||◌, List, [], ◌∷◌, ◌++◌, Option,
  none, some, if◌then◌else◌, ◌≡◌, refl, sym, inl, inr, Bool-cases, arith, subst,
}
use eventmind.Rest.Routes.{
  Endpoint, health, ingest_event, list_events, list_decisions, get_decision, playground, graphql,
  Params, any_methods,
}
use eventmind.Rest.Routes.Paths.{has_slash}

-- The pages of the server.
pub data Page : Type 0 where
  health_page events_page decisions_page playground_page graphql_page no_page : Page
  decision_page : Text → Page

abbrev pub decisions_prefix : Text
decisions_prefix = bytes "/api/v1/decisions/"

-- What follows the prefix.
strip : Text → Text → Option Text
strip [] s = some s
strip (c ∷ p) [] = none
strip (c ∷ p) (d ∷ s) = if c == d then strip p s else none

strip-append : (p s : Text) → strip p (p ++ s) ≡ some s
unfolding strip
strip-append [] s = refl
strip-append (c ∷ p) s = ground (arith, strip-append p s)

strip-some : (p s rest : Text) → strip p s ≡ some rest → s ≡ p ++ rest
unfolding strip
strip-some [] s rest e = cc
strip-some (c ∷ p) [] rest e = absurd cc
strip-some (c ∷ p) (d ∷ s) rest e = ground (arith, strip-some p s rest)

abbrev page_of_id : Option Text → Page
page_of_id none = no_page
page_of_id (some id) = if is_empty id || has_slash id then no_page else decision_page id

unfoldable pub page : Text → Page
unfolding text_eq strip has_slash
page path =
    if text_eq path (bytes "/health")
    then health_page
    else if text_eq path (bytes "/api/v1/events")
    then events_page
    else if text_eq path (bytes "/api/v1/decisions")
    then decisions_page
    else if text_eq path (bytes "/graphql/playground")
    then playground_page
    else if text_eq path (bytes "/graphql")
    then graphql_page
    else page_of_id (strip decisions_prefix path)

abbrev pub only : Bool → Endpoint → Params → Option (Endpoint × Params)
only b e ps = if b then some (e, ps) else none

abbrev pub is_get : Text → Bool
is_get method = text_eq method (bytes "GET")

unfoldable pub contains : List Text → Text → Bool
contains [] t = false
contains (s ∷ ss) t = text_eq s t || contains ss t

unfoldable pub served_at : Page → Text → Option (Endpoint × Params)
unfolding text_eq contains
served_at health_page method = only (is_get method) health []
served_at events_page method =
    if is_get method
    then some (list_events, [])
    else only (text_eq method (bytes "POST")) ingest_event []
served_at decisions_page method = only (is_get method) list_decisions []
served_at (decision_page id) method = only (is_get method) get_decision ((bytes "id", id) ∷ [])
served_at playground_page method = only (is_get method) playground []
served_at graphql_page method = only (contains any_methods method) graphql []
served_at no_page method = none

-- The endpoint for a method and a path, and the values of its parameters.
unfoldable pub served : Text → Text → Option (Endpoint × Params)
unfolding page served_at
served method path = served_at (page path) method

-- Where a page is.
abbrev pub IsAt : Page → Text → Type 0
IsAt health_page path = path ≡ bytes "/health"
IsAt events_page path = path ≡ bytes "/api/v1/events"
IsAt decisions_page path = path ≡ bytes "/api/v1/decisions"
IsAt playground_page path = path ≡ bytes "/graphql/playground"
IsAt graphql_page path = path ≡ bytes "/graphql"
IsAt (decision_page id) path =
    (path ≡ decisions_prefix ++ id) × (is_empty id ≡ false) × (has_slash id ≡ false)
IsAt no_page path = Unit

page_of_id-IsAt :
    (o : Option Text) (path : Text) → strip decisions_prefix path ≡ o → IsAt (page_of_id o) path
page_of_id-IsAt none path e = tt
page_of_id-IsAt (some id) path e = elim (Bool-cases (is_empty id)) [
  | inl empty ↦ rw empty tt
  | inr full ↦ rw full (elim (Bool-cases (has_slash id)) [
    | inl cut ↦ rw cut tt
    | inr whole ↦ rw whole (strip-some decisions_prefix path id e, full, whole)
  ])
]

test-IsAt :
    (path place : Text) (k other : Page)
    → IsAt k place
    → IsAt other path
    → IsAt (if text_eq path place then k else other) path
test-IsAt path place k other here there = elim (Bool-cases (text_eq path place)) [
  | inl same ↦ rw same (subst (IsAt k) (sym ((text_eq_iff path place).0 same)) here)
  | inr differs ↦ rw differs there
]

pub page-IsAt : (path : Text) → IsAt (page path) path
unfolding page
page-IsAt path = test-IsAt path _ health_page _ refl (
    test-IsAt path _ events_page _ refl (
      test-IsAt path _ decisions_page _ refl (
        test-IsAt path _ playground_page _ refl
          (test-IsAt path _ graphql_page _ refl (page_of_id-IsAt _ path refl)))))

pub page-decision :
    (id : Text)
    → is_empty id ≡ false
    → has_slash id ≡ false
    → page (decisions_prefix ++ id) ≡ decision_page id
unfolding page
page-decision id full whole = rw (full, whole) refl
