-- ===== src/Rest/Handlers/Reading.antt =====
-- What a read of a decision finds, and what it leaves in the cache.
use eventmind.Base.{
  ◌≡◌, refl, ◌∙◌, ap, sym, subst, ◌⊎◌, inl, inr, Text, false, none, some, ok, is_empty,
}
use eventmind.Agent.Process.{Decision}
use eventmind.Cache as Cache
use eventmind.Cache.Server as Server
use eventmind.Cache.Laws.{get_decision-cache_decision}
use eventmind.Storage.Postgres as Postgres
use eventmind.Storage.Postgres.{no_rows, pg_error, Answer, row, error}
use eventmind.Rest.Handlers.{
  Response, Api, World, status_ok, respond, decision_body, raw_body, cache_hit, fill_cache,
  answer_decision, get_decision,
}

cache_hit-ok : (blob : Text) → is_empty blob ≡ false → cache_hit (ok blob) ≡ some blob
unfolding cache_hit
cache_hit-ok blob full = rw full refl

module _ (A : Api) where
  pub get_decision_miss :
      (w : World A) (id : Text)
      → cache_hit (Cache.get_decision A.redis w.redis id) ≡ none
      → get_decision A w id ≡ answer_decision A w id (Postgres.get_decision A.pg w.pg id)
  unfolding get_decision
  get_decision_miss w id miss = rw (miss, get_decision) refl

module _ (A : Api) (L : Server.IsLawful A.redis) where
  get_decision_hit :
      (w : World A) (id cached : Text)
      → cache_hit (Cache.get_decision A.redis w.redis id) ≡ some cached
      → get_decision A w id ≡ (respond status_ok (raw_body cached), w)
  unfolding get_decision
  get_decision_hit w id cached hit = rw (hit, get_decision) refl

  -- The state after a decision was found and cached.
  abbrev cached_state : World A → Text → Text → World A
  cached_state w id blob = record w { redis = (Cache.cache_decision A.redis w.redis id blob).1 }

  get_decision_found :
      (w : World A) (id : Text) (d : Decision)
      → cache_hit (Cache.get_decision A.redis w.redis id) ≡ none
      → Postgres.get_decision A.pg w.pg id ≡ row d
      → get_decision A w id
        ≡ (respond status_ok (decision_body d), fill_cache A w id (A.marshal_decision d))
  unfolding answer_decision
  get_decision_found w id d miss found =
      get_decision_miss A w id miss ∙ ap (answer_decision A w id) found

  get_decision_fills :
      (w : World A) (id : Text) (d : Decision) (blob : Text)
      → cache_hit (Cache.get_decision A.redis w.redis id) ≡ none
      → Postgres.get_decision A.pg w.pg id ≡ row d
      → A.marshal_decision d ≡ ok blob
      → get_decision A w id ≡ (respond status_ok (decision_body d), cached_state w id blob)
  unfolding fill_cache
  get_decision_fills w id d blob miss found encoded =
      get_decision_found w id d miss found
      ∙ ap (λ b. (respond status_ok (decision_body d), fill_cache A w id b)) encoded

  -- What the second of two reads may answer.
  abbrev pub IsReread : Decision → Text → World A → Response × World A → Type 0
  IsReread d blob w' (answer, w'') =
      ((answer ≡ respond status_ok (raw_body blob)) × (w'' ≡ w'))
      ⊎ (answer ≡ respond status_ok (decision_body d))

  pub get_decision-IsReread :
      (w : World A) (id : Text) (d : Decision) (blob : Text)
      → Postgres.get_decision A.pg w.pg id ≡ row d
      → is_empty blob ≡ false
      → (Cache.cache_decision A.redis w.redis id blob).0 ≡ none
      → IsReread d blob (cached_state w id blob) (get_decision A (cached_state w id blob) id)
  unfolding cache_hit
  get_decision-IsReread w id d blob found full taken =
      elim (get_decision-cache_decision A.redis L w.redis id blob taken).0 [
        | inl (e, bad) ↦ inr (
            ap (λ r. r.0)
              (get_decision_found (cached_state w id blob) id d (ap cache_hit bad) found))
        | inr good ↦
            let whole =
              get_decision_hit (cached_state w id blob) id blob
                (ap cache_hit good ∙ cache_hit-ok blob full) in
            inl (ap (λ r. r.0) whole, ap (λ r. r.1) whole)
      ]

  -- If a decision is not in the cache, is found in Postgres and encodes to a text that is not
  -- empty, and Redis takes it, then the first read answers with the decision, and the next one
  -- with the cached text and an unchanged state, or with the decision where Redis fails.
  pub get_decision_again :
      (w : World A) (id : Text) (d : Decision) (blob : Text)
      → cache_hit (Cache.get_decision A.redis w.redis id) ≡ none
      → Postgres.get_decision A.pg w.pg id ≡ row d
      → A.marshal_decision d ≡ ok blob
      → is_empty blob ≡ false
      → (Cache.cache_decision A.redis w.redis id blob).0 ≡ none
      → let (first, w') = get_decision A w id in
        (first ≡ respond status_ok (decision_body d))
        × (w'.pg ≡ w.pg)
        × (w'.kafka ≡ w.kafka)
        × IsReread d blob w' (get_decision A w' id)
  get_decision_again w id d blob miss found encoded full taken =
      let whole = get_decision_fills w id d blob miss found encoded in
      (
        ap (λ r. r.0) whole,
        ap (λ r. r.1.pg) whole,
        ap (λ r. r.1.kafka) whole,
        subst (λ v. IsReread d blob v (get_decision A v id)) (sym (ap (λ r. r.1) whole))
            (get_decision-IsReread w id d blob found full taken),
      )

  -- Without a hit and without a row nothing is cached: the state stays.
  get_decision_absent :
      (w : World A) (id : Text) (e : Postgres.PgError)
      → cache_hit (Cache.get_decision A.redis w.redis id) ≡ none
      → Postgres.get_decision A.pg w.pg id ≡ error e
      → (get_decision A w id).1 ≡ w
  unfolding answer_decision
  get_decision_absent w id no_rows miss found =
      ap (λ r. r.1) (get_decision_miss A w id miss ∙ ap (answer_decision A w id) found)
  get_decision_absent w id (pg_error e) miss found =
      ap (λ r. r.1) (get_decision_miss A w id miss ∙ ap (answer_decision A w id) found)
