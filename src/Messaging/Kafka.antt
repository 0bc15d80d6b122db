-- ===== src/Messaging/Kafka.antt =====
-- What the messaging code uses of librdkafka (confluent-kafka-go) and of the clock, over an unknown
-- state of the outside world, and the part of internal/messaging that is shared by both loops.
use eventmind.Base.{Text, Bool, true, false, Option, none, some, List, [], ◌∷◌, ◌++◌, ℤ, Time, ◌≡◌}
use eventmind.Events.{Event}
use eventmind.Messaging.Headers.{Header}

-- `kafka.Message`: the fields that the code reads and writes.
pub record Message : Type 0 where
  pub topic : Text
  pub key : Text
  pub value : Text
  pub headers : List Header

-- The errors of `ReadMessage`.
pub data ErrorCode : Type 0 where
  err_timed_out : ErrorCode
  err_code : ℤ → ErrorCode

pub data ReadError : Type 0 where
  kafka_error : ErrorCode → Text → ReadError
  other_error : Text → ReadError

-- `isTimeout`
unfoldable pub is_timeout : ReadError → Bool
is_timeout (kafka_error err_timed_out message) = true
is_timeout (kafka_error (err_code c) message) = false
is_timeout (other_error message) = false

-- The calls of the client, each with the error that it returns, if any.
pub record Client : Type 1 where
  pub World : Type 0
  pub produce : World → Message → Option Text × World
  pub commit : World → Message → Option Text × World
  pub now : World → Time × World

-- `Handler`
abbrev pub Handler : Client → Type 0
Handler K = K.World → Event → Option Text × K.World

-- `publishRaw`
unfoldable pub publish_raw :
    (K : Client) → K.World → Text → Text → Text → List Header → Option Text × K.World
publish_raw K w topic key value headers =
    K.produce w (record { topic = topic; key = key; value = value; headers = headers })

-- `Consumer.commit` and `DLQWorker.commit`: an error is logged and dropped.
unfoldable pub commit : (K : Client) → K.World → Message → K.World
commit K w msg = (K.commit w msg).1

abbrev pub log_unless {ℓ} : {A : Type ℓ} → Option Text → List A → A → List A
log_unless none l a = l ++ a ∷ []
log_unless (some err) l a = l

-- The documented behaviour: a call without an error has been taken by the client, a call with one
-- has not, and each call does its own work only.
pub record IsLawful (K : Client) : Type 0 where
  pub published : K.World → List Message
  pub committed : K.World → List Message
  pub published-produce :
      (w : K.World) (m : Message)
      → published (K.produce w m).1 ≡ log_unless (K.produce w m).0 (published w) m
  pub committed-produce : (w : K.World) (m : Message) → committed (K.produce w m).1 ≡ committed w
  pub published-commit : (w : K.World) (m : Message) → published (K.commit w m).1 ≡ published w
  pub committed-commit :
      (w : K.World) (m : Message)
      → committed (K.commit w m).1 ≡ log_unless (K.commit w m).0 (committed w) m
  pub published-now : (w : K.World) → published (K.now w).1 ≡ published w
  pub committed-now : (w : K.World) → committed (K.now w).1 ≡ committed w

-- A handler that leaves the queues alone.
pub record IsApart (K : Client) (L : IsLawful K) (handler : Handler K) : Type 0 where
  pub published-handler : (w : K.World) (ev : Event) → L.published (handler w ev).1 ≡ L.published w
  pub committed-handler : (w : K.World) (ev : Event) → L.committed (handler w ev).1 ≡ L.committed w

-- The queues alone, for a program that joins them to other services.
pub record Broker : Type 1 where
  pub State : Type 0
  pub produce : State → Message → Option Text × State
  pub commit : State → Message → Option Text × State

-- The same behaviour of the queues.
pub record IsBroker (B : Broker) : Type 0 where
  pub published : B.State → List Message
  pub committed : B.State → List Message
  pub published-produce :
      (s : B.State) (m : Message)
      → published (B.produce s m).1 ≡ log_unless (B.produce s m).0 (published s) m
  pub committed-produce : (s : B.State) (m : Message) → committed (B.produce s m).1 ≡ committed s
  pub published-commit : (s : B.State) (m : Message) → published (B.commit s m).1 ≡ published s
  pub committed-commit :
      (s : B.State) (m : Message)
      → committed (B.commit s m).1 ≡ log_unless (B.commit s m).0 (committed s) m
