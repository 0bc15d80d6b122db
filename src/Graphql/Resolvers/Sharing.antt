-- ===== src/Graphql/Resolvers/Sharing.antt =====
-- The resolvers and the REST handlers share the entries of the decision cache, in two formats.
use eventmind.Base.{◌≡◌, refl, ap, sym, subst, Text, false, none, some, ok, is_empty}
use eventmind.Agent.Process.{Decision}
use eventmind.Cache as Cache
use eventmind.Cache.Server as Server
use eventmind.Storage.Postgres as Postgres
use eventmind.Storage.Postgres.{row}
use eventmind.Rest.Handlers as Rest
use eventmind.Rest.Handlers.{Api, World, Response, status_ok, respond, decision_body, raw_body}
use eventmind.Rest.Handlers.Reading.{IsReread, get_decision-IsReread}
use eventmind.Graphql.Resolvers.{
  Json, to_model_decision, cached_model, fill_cache, answer_decision, decision,
}

module _ (A : Api) (J : Json) (L : Server.IsLawful A.redis) where
  abbrev cached_state : World A → Text → Text → World A
  cached_state w id blob = record w { redis = (Cache.cache_decision A.redis w.redis id blob).1 }

  decision_fills :
      (w : World A) (id : Text) (d : Decision) (blob : Text)
      → cached_model A J (Cache.get_decision A.redis w.redis id) ≡ none
      → Postgres.get_decision A.pg w.pg id ≡ row d
      → J.marshal_model (to_model_decision d) ≡ ok blob
      → decision A J w id ≡ (ok (some (to_model_decision d)), cached_state w id blob)
  unfolding decision answer_decision fill_cache
  decision_fills w id d blob miss found encoded =
      rw (miss, decision) (rw found (rw (encoded, fill_cache) refl))

  -- If a resolver reads a decision that is not in the cache, finds it in Postgres, encodes it to a
  -- text that is not empty, and Redis takes it, then the REST handler next answers with the
  -- encoding of the resolver's type, or with the decision where Redis fails.
  pub get_decision-decision :
      (w : World A) (id : Text) (d : Decision) (blob : Text)
      → cached_model A J (Cache.get_decision A.redis w.redis id) ≡ none
      → Postgres.get_decision A.pg w.pg id ≡ row d
      → J.marshal_model (to_model_decision d) ≡ ok blob
      → is_empty blob ≡ false
      → (Cache.cache_decision A.redis w.redis id blob).0 ≡ none
      → let (result, w') = decision A J w id in
        (result ≡ ok (some (to_model_decision d)))
        × IsReread A L d blob w' (Rest.get_decision A w' id)
  get_decision-decision w id d blob miss found encoded full taken =
      let whole = decision_fills w id d blob miss found encoded in
      (
        ap (λ r. r.0) whole,
        subst (λ v. IsReread A L d blob v (Rest.get_decision A v id)) (sym (ap (λ r. r.1) whole))
            (get_decision-IsReread A L w id d blob found full taken),
      )
