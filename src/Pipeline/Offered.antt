-- ===== src/Pipeline/Offered.antt =====
-- What a request that posts an event puts in the queue of its topic.
use eventmind.Base.{◌≡◌, ◌∙◌, ap, sym, ◌⊎◌, inl, inr, Text, Option-cases, [], ◌∷◌, ◌++◌, ok}
use eventmind.Events.{Event}
use eventmind.Messaging.Kafka.{Message, IsBroker, log_unless}
use eventmind.Messaging.Producer.{publish, event_message}
use eventmind.Rest.Handlers as Rest
use eventmind.Rest.Handlers.{
  Response, status_ok, status_created, status_internal, respond, event_body, decision_body,
  cache_hit, answer_decision, get_decision, ingest_event,
}
use eventmind.Rest.Handlers.Ingest.{
  Outcome, rejected, not_saved, accepted, ingest_event-Outcome, bad_request-created,
  internal-created,
}
use eventmind.Worker.{Services}
use eventmind.Pipeline.{ApiParts, Site, api, api_world, post}

module _ (S : Services) (P : ApiParts) where
  abbrev pub message_of : Event → Text → Message
  message_of ev value = event_message (Rest.client (api S P)) P.marshal_event P.topic ev value

  -- The message is in the queue, or the broker refused it and the queue is as before.
  abbrev pub IsOffered : IsBroker S.broker → Site S P → Event → Text → Site S P → Type 0
  IsOffered B site ev value site1 =
      (B.published site1.worker.kafka ≡ B.published site.worker.kafka ++ message_of ev value ∷ [])
      ⊎ (B.published site1.worker.kafka ≡ B.published site.worker.kafka)

  log_cases :
      (B : IsBroker S.broker) (s : S.broker.State) (m : Message)
      → (B.published (S.broker.produce s m).1 ≡ B.published s ++ m ∷ [])
        ⊎ (B.published (S.broker.produce s m).1 ≡ B.published s)
  log_cases B s m = elim (Option-cases (S.broker.produce s m).0) [
    | inl taken ↦ inl (B.published-produce s m ∙ ap (λ o. log_unless o (B.published s) m) taken)
    | inr (e, refused) ↦
        inr (B.published-produce s m ∙ ap (λ o. log_unless o (B.published s) m) refused)
  ]

  published-publish :
      (B : IsBroker S.broker) (w : Rest.World (api S P)) (ev : Event) (value : Text)
      → P.marshal_event ev ≡ ok value
      → let w' = (publish (Rest.client (api S P)) P.marshal_event P.topic w ev).1 in
        (B.published w'.kafka ≡ B.published w.kafka ++ message_of ev value ∷ [])
        ⊎ (B.published w'.kafka ≡ B.published w.kafka)
  unfolding publish
  published-publish B w ev value encoded =
      rw (encoded, publish) (log_cases B w.kafka (message_of ev value))

  pub same_event : (a b : Event) → event_body a ≡ event_body b → a ≡ b
  same_event a b e = cc

  offered-Outcome :
      (B : IsBroker S.broker) (w w' : Rest.World (api S P)) (r : Response) (ev : Event)
      (value : Text)
      → Outcome (api S P) w r w'
      → r ≡ respond status_created (event_body ev)
      → P.marshal_event ev ≡ ok value
      → (B.published w'.kafka ≡ B.published w.kafka ++ message_of ev value ∷ [])
        ⊎ (B.published w'.kafka ≡ B.published w.kafka)
  offered-Outcome B w w' r ev value (rejected message answer same) created encoded =
      absurd (bad_request-created (sym (ap (λ a. a.status) answer) ∙ ap (λ a. a.status) created))
  offered-Outcome B w w' r ev value (not_saved other e message good refused answer same) created
        encoded =
      absurd (internal-created (sym (ap (λ a. a.status) answer) ∙ ap (λ a. a.status) created))
  offered-Outcome B w w' r ev value
        (accepted other before good saved answer same_kafka same_pg after) created encoded =
      let same = same_event other ev (sym (ap (λ a. a.body) answer) ∙ ap (λ a. a.body) created) in
      let whole =
        after
        ∙ ap (λ e. (publish (Rest.client (api S P)) P.marshal_event P.topic before e).1) same in
      elim (published-publish B before ev value encoded) [
        | inl taken ↦ inl (
            ap (λ v. B.published v.kafka) whole
            ∙ taken
            ∙ ap (λ k. B.published k ++ message_of ev value ∷ []) same_kafka)
        | inr refused ↦
            inr (ap (λ v. B.published v.kafka) whole ∙ refused ∙ ap B.published same_kafka)
      ]

  abbrev pub Created : Site S P → Text → Event → Type 0
  Created site body ev = (post S P site body).0 ≡ respond status_created (event_body ev)

  pub IsOffered-post :
      (B : IsBroker S.broker) (site : Site S P) (body value : Text) (ev : Event)
      → Created site body ev
      → P.marshal_event ev ≡ ok value
      → IsOffered B site ev value (post S P site body).1
  unfolding post
  IsOffered-post B site body value ev created encoded =
      offered-Outcome B (api_world S P site) _ _ ev value
        (ingest_event-Outcome (api S P) (api_world S P site) body) created encoded
