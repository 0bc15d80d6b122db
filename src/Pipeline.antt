-- ===== src/Pipeline.antt =====
-- The API server (api/rest) and the worker (cmd/worker) over the same Postgres, Redis and Kafka: an
-- event is posted, its message is consumed, and a decision is read.
pub mod Offered
pub mod Journey
pub mod Delivery
use eventmind.Base.{Text, Result, Time}
use eventmind.Events.{Event}
use eventmind.Agent.Process.{Decision}
use eventmind.Messaging.Kafka.{Message}
use eventmind.Messaging.Consumer.{consume}
use eventmind.Rest.Handlers as Rest
use eventmind.Rest.Handlers.{IngestRequest, Response, Api, ingest_event, get_decision}
use eventmind.Worker.{Services, World, client, handler}

-- What the API server has of its own.
pub record ApiParts : Type 1 where
  pub Clock : Type 0
  pub now : Clock → Time × Clock
  pub new_uuid : Clock → Text × Clock
  pub topic : Text
  pub bind : Text → Result IngestRequest
  pub quote : Text → Text
  pub marshal_event : Event → Result Text
  pub marshal_decision : Decision → Result Text

module _ (S : Services) (P : ApiParts) where
  abbrev pub api : Api
  api = record {
    Clock = P.Clock;
    now = P.now;
    new_uuid = P.new_uuid;
    pg = S.pg;
    redis = S.redis;
    broker = S.broker;
    topic = P.topic;
    bind = P.bind;
    quote = P.quote;
    marshal_event = P.marshal_event;
    marshal_decision = P.marshal_decision;
  }

  -- The state of both programs.
  pub record Site : Type 0 where
    pub clock : P.Clock
    pub worker : World S

  -- What the API server sees of it, and what it changes.
  abbrev pub api_world : Site → Rest.World api
  api_world site = record {
    clock = site.clock;
    pg = site.worker.pg;
    redis = site.worker.redis;
    kafka = site.worker.kafka;
  }

  abbrev pub with_api : Site → Rest.World api → Site
  with_api site w = record {
    clock = w.clock;
    worker = record (site.worker) { pg = w.pg; redis = w.redis; kafka = w.kafka };
  }

  -- `POST /api/v1/events`, the consume loop with one message, and `GET /api/v1/decisions/:id`.
  unfoldable pub post : Site → Text → Response × Site
  post site body = let (r, w) = ingest_event api (api_world site) body in (r, with_api site w)

  unfoldable pub work : Text → Site → Message → Site
  work dlq_topic site msg = record site {
    worker = consume (client S) dlq_topic (handler S) S.unmarshal site.worker msg;
  }

  unfoldable pub read : Site → Text → Response × Site
  read site id = let (r, w) = get_decision api (api_world site) id in (r, with_api site w)
