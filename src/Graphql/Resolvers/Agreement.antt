-- ===== src/Graphql/Resolvers/Agreement.antt =====
-- The resolvers and the REST handlers do the same to the services.
use eventmind.Base.{
  ℕ, ◌≤◌, ◌<◌, half_word, ◌≡◌, refl, inl, inr, Text, bytes, true, Option, none, some, Bool-cases,
  List, ◌++◌, map, Result, ok, err, ℤ, pos, format_int, arith,
}
use eventmind.Events.{Event, valid}
use eventmind.Agent.Process.{Decision}
use eventmind.Storage.Postgres as Postgres
use eventmind.Storage.Postgres.{PgError, Answer, row, error}
use eventmind.Rest.Query.{page_limit, page_offset}
use eventmind.Rest.Query.Laws.{page_as_asked}
use eventmind.Rest.Handlers as Rest
use eventmind.Rest.Handlers.{
  Api, World, IngestRequest, Response, Body, status_created, status_ok, event_body, respond,
  decisions_body, status_internal, error_body,
}
use eventmind.Graphql.Resolvers.{
  Json, ModelEvent, ModelDecision, to_model_event, to_model_decision, decisions_limit, pg_message,
  publish_saved, store_event, ingest_event, decisions,
}

module _ (A : Api) (J : Json) where
  -- The two answers to one request: an event that both report, or an error of both.
  pub data Agrees : Result ModelEvent → Response → Type 0 where
    both_accept :
        {ev : Event} {response : Response}
        → response ≡ respond status_created (event_body ev)
        → Agrees (ok (to_model_event ev)) response
    both_refuse : {e : Text} {response : Response} → 400 ≤ response.status → Agrees (err e) response

  Agrees-publish_saved :
      (w : World A) (ev : Event) (refused : Option PgError)
      → ((publish_saved A J w ev refused).1 ≡ (Rest.publish_saved A w ev refused).1)
        × Agrees (publish_saved A J w ev refused).0 (Rest.publish_saved A w ev refused).0
  unfolding publish_saved Rest.publish_saved
  Agrees-publish_saved w ev none = (refl, both_accept refl)
  Agrees-publish_saved w ev (some e) = (refl, both_refuse (omega arith))

  Agrees-store_event :
      (w : World A) (req : IngestRequest)
      → ((store_event A J w req.type req.payload (some req.source)).1
          ≡ (Rest.store_event A w req).1)
        × Agrees
            (store_event A J w req.type req.payload (some req.source)).0
            (Rest.store_event A w req).0
  unfolding store_event Rest.store_event
  Agrees-store_event w req = Agrees-publish_saved _ _ _

  Agrees-ingest_bound :
      (w : World A) (req : IngestRequest)
      → J.valid_json req.payload ≡ true
      → ((ingest_event A J w req.type req.payload (some req.source)).1
          ≡ (Rest.ingest_bound A w (ok req)).1)
        × Agrees
            (ingest_event A J w req.type req.payload (some req.source)).0
            (Rest.ingest_bound A w (ok req)).0
  unfolding ingest_event Rest.ingest_bound
  Agrees-ingest_bound w req json = elim (Bool-cases (valid req.type)) [
    | inl good ↦ rw good (rw json (Agrees-store_event w req))
    | inr bad ↦ rw bad (refl, both_refuse (omega arith))
  ]

  -- If the body of a REST request binds to a request whose payload is valid JSON, the resolver and
  -- the REST handler leave all services in the same state for it, and both report the same event
  -- or both an error.
  pub ingest_event-Agrees :
      (w : World A) (body : Text) (req : IngestRequest)
      → A.bind body ≡ ok req
      → J.valid_json req.payload ≡ true
      → let (result, w') = ingest_event A J w req.type req.payload (some req.source) in
        let (response, w'') = Rest.ingest_event A w body in (w' ≡ w'') × Agrees result response
  unfolding Rest.ingest_event
  ingest_event-Agrees w body req bound json =
      rw (bound, Rest.ingest_event) (Agrees-ingest_bound w req json)

  decisions_limit_small : (limit : ℕ) → limit ≤ 100 → decisions_limit (some (pos limit)) ≡ pos limit
  unfolding decisions_limit
  decisions_limit_small limit h = ground arith

  -- The two answers to one page: the same decisions, or an error of both.
  pub data SamePage (limit offset : ℤ) : Result (List ModelDecision) → Response → Type 0 where
    both_list :
        {items : List Decision} {response : Response}
        → response ≡ respond status_ok (decisions_body items limit offset)
        → SamePage limit offset (ok (map to_model_decision items)) response
    both_fail :
        {e : Text} {response : Response}
        → 500 ≤ response.status
        → SamePage limit offset (err e) response

  -- The pages of the two interfaces, after the parameters are read.
  abbrev model_page : Answer (List Decision) → Result (List ModelDecision)
  model_page (error e) = err (bytes "ListDecisions: " ++ pg_message e)
  model_page (row items) = ok (map to_model_decision items)

  abbrev rest_page : ℤ → ℤ → Answer (List Decision) → Response
  rest_page lim off (error e) =
      respond status_internal (error_body (bytes "failed to fetch decisions"))
  rest_page lim off (row items) = respond status_ok (decisions_body items lim off)

  SamePage-answer :
      (lim off : ℤ) (answer : Answer (List Decision))
      → SamePage lim off (model_page answer) (rest_page lim off answer)
  SamePage-answer lim off (error e) = both_fail (omega arith)
  SamePage-answer lim off (row items) = both_list refl

  decisions_lem :
      (w : World A) (limit offset : ℤ) (event_type : Text)
      → decisions A J w (some limit) (some offset) (some event_type)
        ≡ model_page
            (Postgres.list_decisions A.pg w.pg (decisions_limit (some limit)) offset event_type)
  unfolding decisions
  decisions_lem w limit offset event_type = refl

  list_decisions_lem :
      (w : World A) (limit offset event_type : Text)
      → Rest.list_decisions A w limit offset event_type
        ≡ rest_page
            (page_limit limit)
            (page_offset offset)
            (Postgres.list_decisions A.pg w.pg (page_limit limit) (page_offset offset) event_type)
  unfolding Rest.list_decisions
  list_decisions_lem w limit offset event_type = refl

  -- For a limit from 1 to 100 and an offset below 2^63 the resolver and the REST handler list the
  -- same decisions, or both report an error.
  pub decisions-SamePage :
      (w : World A) (limit offset : ℕ) (event_type : Text)
      → 1 ≤ limit
      → limit ≤ 100
      → offset < half_word
      → SamePage
          (pos limit)
          (pos offset)
          (decisions A J w (some (pos limit)) (some (pos offset)) (some event_type))
          (Rest.list_decisions A w (format_int (pos limit)) (format_int (pos offset)) event_type)
  decisions-SamePage w limit offset event_type low high in_range =
      let (lim, off, _, _) = page_as_asked limit offset low high in_range in
      rw (decisions_lem w (pos limit) (pos offset) event_type) (
        rw (list_decisions_lem w (format_int (pos limit)) (format_int (pos offset)) event_type) (
          rw lim (
            rw off (
              rw (decisions_limit_small limit high) (
                SamePage-answer (pos limit) (pos offset)
                  (Postgres.list_decisions A.pg w.pg (pos limit) (pos offset) event_type))))))
