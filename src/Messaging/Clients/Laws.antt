-- ===== src/Messaging/Clients/Laws.antt =====
-- The clients of internal/messaging give back what they have opened.
use eventmind.Base.{ℕ, Text, List, [], ◌∷◌, ◌++◌, ◌≡◌, refl, ◌∙◌}
use eventmind.Messaging.Dlq.{DlqWorker}
use eventmind.Messaging.Clients.{
  Config, Library, Producer, Consumer, DlqClient, new_producer, new_consumer, new_dlq_worker,
  close_producer, close_consumer, close_dlq_worker,
}
use eventmind.Resources.{Resources, ◌>>◌}
use eventmind.Resources.Laws.{
  IsStack, Opens, one, none_of, Opens-within, Opens-or_close, Takes-then, Takes-join, Opens-map,
}

-- What each client holds, the newest connection first.
abbrev pub producer_handles : {R : Resources} → Producer R → List R.Handle
producer_handles p = p.p ∷ []

abbrev pub consumer_handles : {R : Resources} → Consumer R → List R.Handle
consumer_handles c = c.dlq.p ∷ c.c ∷ []

abbrev pub dlq_handles : {R : Resources} → DlqClient R → List R.Handle
dlq_handles d = d.producer.p ∷ d.consumer ∷ []

-- The documented behaviour: a client that is made is open, and the other calls open nothing.
pub record IsLibrary {R : Resources} (L : IsStack R) (K : Library R) : Type 0 where
  pub new_producer-Opens : (cfg : Config) → Opens L (one L) (K.new_producer cfg)
  pub new_consumer-Opens : (cfg : Config) → Opens L (one L) (K.new_consumer cfg)
  pub subscribe-Opens : (h : R.Handle) (topic : Text) → Opens L (none_of L) (K.subscribe h topic)
  pub opened-flush : (w : R.World) (h : R.Handle) (ms : ℕ) → L.opened (K.flush w h ms) ≡ L.opened w

module _ {R : Resources} (L : IsStack R) (K : Library R) (D : IsLibrary L K)
    (getenv : Text → Text) where
  pub new_producer_lem :
      (brokers topic : Text) → Opens L producer_handles (new_producer getenv K brokers topic)
  unfolding new_producer
  new_producer_lem brokers topic =
      Opens-map L _ (Opens-within L _ (D.new_producer-Opens _)) (λ p. refl)

  pub new_consumer_lem :
      (brokers group_id topic dlq_topic : Text)
      → Opens L consumer_handles (new_consumer getenv K brokers group_id topic dlq_topic)
  unfolding new_consumer ◌>>◌
  new_consumer_lem brokers group_id topic dlq_topic =
      Opens-or_close L (Opens-within L _ (D.new_consumer-Opens _)) λ c.
        Takes-then L (Opens-within L _ (D.subscribe-Opens c topic))
          λ _. Takes-join L _ (Opens-within L _ (new_producer_lem brokers dlq_topic)) (λ dlq. refl)

  pub new_dlq_worker_lem :
      (brokers group_id : Text) (worker : DlqWorker)
      → Opens L dlq_handles (new_dlq_worker getenv K brokers group_id worker)
  unfolding new_dlq_worker ◌>>◌
  new_dlq_worker_lem brokers group_id worker =
      Opens-or_close L (Opens-within L _ (D.new_consumer-Opens _)) λ c.
        Takes-then L (Opens-within L _ (D.subscribe-Opens c worker.dlq_topic))
          λ _. Takes-join L _ (new_producer_lem brokers worker.dlq_topic) (λ prod. refl)

module _ {R : Resources} (L : IsStack R) (K : Library R) (D : IsLibrary L K) where
  -- Closing a client closes what it holds.
  pub opened-close_producer :
      (w : R.World) (p : Producer R) (rest : List R.Handle)
      → L.opened w ≡ p.p ∷ rest
      → L.opened (close_producer K w p) ≡ rest
  unfolding close_producer
  opened-close_producer w p rest held = L.opened-close _ p.p rest (D.opened-flush w p.p 5000 ∙ held)

  pub opened-close_consumer :
      (w : R.World) (c : Consumer R) (rest : List R.Handle)
      → L.opened w ≡ consumer_handles c ++ rest
      → L.opened (close_consumer K w c) ≡ rest
  unfolding close_consumer
  opened-close_consumer w c rest held =
      L.opened-close _ c.c rest (opened-close_producer w c.dlq (c.c ∷ rest) held)

  pub opened-close_dlq_worker :
      (w : R.World) (d : DlqClient R) (rest : List R.Handle)
      → L.opened w ≡ dlq_handles d ++ rest
      → L.opened (close_dlq_worker K w d) ≡ rest
  unfolding close_dlq_worker
  opened-close_dlq_worker w d rest held =
      L.opened-close _ d.consumer rest (opened-close_producer w d.producer (d.consumer ∷ rest) held)
