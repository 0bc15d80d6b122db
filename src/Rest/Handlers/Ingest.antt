-- ===== src/Rest/Handlers/Ingest.antt =====
-- What an ingest request may lead to.
use eventmind.Base.{
  ◌≡◌, refl, ◌∙◌, ap, sym, inl, inr, Text, text_eq_refl, bytes, true, Option, none, some,
  Bool-cases, Result, ok, err, arith, if◌then◌else◌,
}
use eventmind.Events.{Event, valid}
use eventmind.Storage.Postgres as Postgres
use eventmind.Storage.Postgres.{Pg, PgError}
use eventmind.Storage.Postgres.Tables as Tables
use eventmind.Messaging.Producer.{publish}
use eventmind.Rest.Handlers.{
  IngestRequest, error_body, event_body, Response, Api, World, status_created, status_bad_request,
  status_internal, respond, client, publish_saved, store_event, ingest_bound, ingest_event,
}

pub bad_request-created : ¬ (status_bad_request ≡ status_created)
bad_request-created e = absurd (omega arith)

pub internal-created : ¬ (status_internal ≡ status_created)
internal-created e = absurd (omega arith)

module _ (A : Api) where
  -- The three ways in which a request ends: it is rejected and nothing changes; the event is valid
  -- but Postgres refuses it, and nothing is published; or it is saved, and then published.
  pub data Outcome (w : World A) (r : Response) (w' : World A) : Type 0 where
    rejected :
        (message : Text)
        → r ≡ respond status_bad_request (error_body message)
        → w' ≡ w
        → Outcome w r w'
    not_saved :
        (ev : Event) (e : PgError) (message : Text)
        → valid ev.type ≡ true
        → (Postgres.save_event A.pg w.pg ev).0 ≡ some e
        → r ≡ respond status_internal (error_body message)
        → w'.kafka ≡ w.kafka
        → Outcome w r w'
    accepted :
        (ev : Event) (before : World A)
        → valid ev.type ≡ true
        → (Postgres.save_event A.pg w.pg ev).0 ≡ none
        → r ≡ respond status_created (event_body ev)
        → before.kafka ≡ w.kafka
        → before.pg ≡ (Postgres.save_event A.pg w.pg ev).1
        → w' ≡ (publish (client A) A.marshal_event A.topic before ev).1
        → Outcome w r w'

  Outcome-publish_saved :
      (w before : World A) (ev : Event) (refused : Option PgError)
      → valid ev.type ≡ true
      → (Postgres.save_event A.pg w.pg ev).0 ≡ refused
      → before.kafka ≡ w.kafka
      → before.pg ≡ (Postgres.save_event A.pg w.pg ev).1
      → Outcome w (publish_saved A before ev refused).0 (publish_saved A before ev refused).1
  unfolding publish_saved
  Outcome-publish_saved w before ev none good saved same_kafka same_pg =
      accepted ev before good saved refl same_kafka same_pg refl
  Outcome-publish_saved w before ev (some e) good saved same_kafka same_pg =
      not_saved ev e (bytes "failed to save event") good saved refl same_kafka

  Outcome-store_event :
      (w : World A) (req : IngestRequest)
      → valid req.type ≡ true
      → Outcome w (store_event A w req).0 (store_event A w req).1
  unfolding store_event
  Outcome-store_event w req good = Outcome-publish_saved w _ _ _ good refl refl refl

  Outcome-ingest_bound :
      (w : World A) (bound : Result IngestRequest)
      → Outcome w (ingest_bound A w bound).0 (ingest_bound A w bound).1
  unfolding ingest_bound
  Outcome-ingest_bound w (err e) = rejected e refl refl
  Outcome-ingest_bound w (ok req) = elim (Bool-cases (valid req.type)) [
    | inl good ↦ rw good (Outcome-store_event w req good)
    | inr bad ↦ rw bad (rejected _ refl refl)
  ]

  -- Every ingest request ends in one of three ways: it is rejected with status 400 and the state
  -- stays; the event is valid but Postgres refuses it, the status is 500 and nothing is published;
  -- or the event is valid and saved, the status is 201 and it is then published.
  pub ingest_event-Outcome :
      (w : World A) (body : Text) → Outcome w (ingest_event A w body).0 (ingest_event A w body).1
  unfolding ingest_event
  ingest_event-Outcome w body = Outcome-ingest_bound w (A.bind body)

  pg-publish-case :
      (w : World A) (ev : Event) (value : Result Text)
      → A.marshal_event ev ≡ value
      → (publish (client A) A.marshal_event A.topic w ev).1.pg ≡ w.pg
  unfolding publish
  pg-publish-case w ev (err e) marshalled = rw (marshalled, publish) refl
  pg-publish-case w ev (ok value) marshalled = rw (marshalled, publish) refl

  pg-publish :
      (w : World A) (ev : Event) → (publish (client A) A.marshal_event A.topic w ev).1.pg ≡ w.pg
  pg-publish w ev = pg-publish-case w ev _ refl

  event_of-saved :
      (T : Tables.IsLawful A.pg) (s : A.pg.State) (ev : Event)
      → (Postgres.save_event A.pg s ev).0 ≡ none
      → T.events (Postgres.save_event A.pg s ev).1 ev.id
        ≡ some (Tables.kept_row (T.events s ev.id) (Postgres.event_row ev))
  unfolding Postgres.save_event Postgres.event_row
  event_of-saved T s ev saved = elim (T.insert_event_lem s (Postgres.event_row ev)) [
    | inl (e, refused) ↦ cc
    | inr (_, rows) ↦
        rows ev.id
        ∙ ap
            (λ b.
              if b
              then some (Tables.kept_row (T.events s ev.id) (Postgres.event_row ev))
              else T.events s ev.id)
            (text_eq_refl ev.id)
  ]

  abbrev IsStored : Tables.IsLawful A.pg → World A → Response → World A → Type 0
  IsStored T w r w' =
      (ev : Event) × (r.body ≡ event_body ev)
      × (T.events w'.pg ev.id
          ≡ some (Tables.kept_row (T.events w.pg ev.id) (Postgres.event_row ev)))

  IsStored-Outcome :
      (T : Tables.IsLawful A.pg) (w : World A) (r : Response) (w' : World A)
      → Outcome w r w'
      → r.status ≡ status_created
      → IsStored T w r w'
  IsStored-Outcome T w r w' (rejected message answer same) created =
      absurd (bad_request-created (sym (ap (λ r. r.status) answer) ∙ created))
  IsStored-Outcome T w r w' (not_saved ev e message good refused answer same) created =
      absurd (internal-created (sym (ap (λ r. r.status) answer) ∙ created))
  IsStored-Outcome T w r w' (accepted ev before good saved answer same_kafka same_pg published)
        created =
      (
        ev,
        ap (λ r. r.body) answer,
        ap (λ v. T.events v.pg ev.id) published
            ∙ ap (λ s. T.events s ev.id) (pg-publish before ev ∙ same_pg)
            ∙ event_of-saved T w.pg ev saved,
      )

  -- If Postgres behaves as documented and an ingest request is answered with status 201, the event
  -- of the answer is in the table of events under its id, whatever became of its publication: its
  -- own row, or an older row with that id.
  pub ingest_event-stored :
      (T : Tables.IsLawful A.pg) (w : World A) (body : Text)
      → (ingest_event A w body).0.status ≡ status_created
      → (ev : Event) × ((ingest_event A w body).0.body ≡ event_body ev)
        × (T.events (ingest_event A w body).1.pg ev.id
            ≡ some (Tables.kept_row (T.events w.pg ev.id) (Postgres.event_row ev)))
  ingest_event-stored T w body = IsStored-Outcome T w _ _ (ingest_event-Outcome w body)
