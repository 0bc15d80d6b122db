-- ===== src/Lib.antt =====
-- EventMind: the processing of business events by a language model, modelled from its Go code.
--
-- The API server (api/rest) takes events, saves them in Postgres and publishes them to Kafka. The
-- worker (cmd/worker) reads them in the consume loop, guards against duplicates with Redis, asks
-- the agent for an action, saves the decision and counts; an event that fails goes to the dead
-- letter queue, from which a second loop of the worker retries it with the same handler.
--
-- What each module models:
--   Base: texts as lists of bytes with the functions of package strings that are used, Go's 64-bit
--     integers, `%d` and Sscanf and Atoi, time.RFC3339, and the lemmas of all these;
--   Events: internal/events/types.go; Codec is the encoding of an event in a message;
--   Resources: calls that open connections and close them on an error, with rules for them;
--   Messaging: internal/messaging. Headers and Producer are producer.go, Consumer is consumer.go,
--     Dlq and Backoff are dlq.go, Clients is the construction and closing of the three clients, and
--     Kafka is what they share of librdkafka;
--   Agent: internal/agent. Tools is tools.go, and Extract, Prompt and Process are agent.go;
--   Cache: internal/cache/redis.go; Memory is what its callers expect of it;
--   Storage: internal/storage. Postgres is postgres.go and Mongo is mongo.go, but for the opening and
--     closing of their connections, which are in Connections, as is that of Redis;
--   Metrics: the counters of internal/metrics/metrics.go;
--   Logger: pkg/logger/logger.go;
--   Worker: the handler and the callback for permanent failures of cmd/worker/main.go;
--   Rest: api/rest. Handlers and Query are handlers.go, Middleware is middleware.go, and Routes is
--     RegisterRoutes with the router of cmd/api/main.go;
--   Llm: pkg/llm, the providers and the choice among them;
--   Graphql: api/graphql. Subscriptions is resolver.go with OnDecision, and Resolvers is
--     schema.resolvers.go;
--   Startup: cmd/worker/main.go and cmd/api/main.go: what they open and close; ApiRun and WorkerRun
--     are the two programs from there to their end;
--   Seed: scripts/seed.go;
--   Pipeline: the API server and the worker over the same Postgres, Redis and Kafka;
--   Tests: services in memory, and the properties at concrete inputs.
-- A function of the code has its name in snake case; the part of a body behind a test or a call is
-- a definition of its own where it is long. State is passed explicitly: a function takes the state
-- of the services that it calls and returns the new one beside its result, and an error is a value.
--
-- Kafka, Redis, Postgres, Mongo, the provider of the model, the clock, the source of identifiers
-- and encoding/json are not this repository's code. They are records of functions over an unknown
-- state (Client, Broker, Redis, Pg, Mongo, Http, Env, Api), and what a theorem needs of them is a
-- record of their documented laws (IsLawful, IsBroker). Any call of theirs may fail. A law of Redis is
-- about one command; keys that expire are steps of their own, in Worker.Interleaving and
-- Worker.Concurrent.Lossy. Postgres gives the time of a decision back to the microsecond; of the
-- events only the inserted values are spoken of. Tests.Memory has instances that satisfy the laws.
--
-- A loop over Kafka is a function of the list of what its polls meet: cancellation, an error, or a
-- message, and for the dead letter worker also whether the context is cancelled during the wait.
-- The life of a message in the dead letter queue is followed on fuel; the number of rounds left
-- plus one is enough. The two loops of the worker share its state; Worker.Interleaving
-- lets them take messages in any order, with the handling of one message as one step and keys of Redis
-- lost between the steps, and in
-- Worker.Concurrent the steps are the single calls of any number of handlers; in its child Lossy the
-- guard may fail and Redis may forget between them.
--
-- The two interfaces of the API server share the services (Api), and a subscription of GraphQL is a
-- step relation: the publisher, the goroutine of the subscription, up to its deferred calls, and the
-- client take steps in any order.
--
-- The seed script is a run over an unknown state that returns, panics or runs out of fuel. Only the
-- loop over the items of an order needs fuel: its bound is at most 4, so that five rounds are enough.
--
-- The router of gin is a function from the registered routes, a method and a path to what it finds;
-- its law says that it finds a route that matches if there is one. The two programs are step
-- functions over a list of turns: a signal, the return of a server or a loop, other work, or the
-- next step of main, in any order.
--
-- In Events.Codec, encoding/json is literals, their readers and objects of named values (Json); the
-- tags of the struct, what is set for each member, and the defaults are definitions. Elsewhere the
-- encodings are functions of the services, which Pipeline.Delivery takes to be these.
--
-- Not modelled: the text of log lines but for the middleware's, the generated server of GraphQL, and
-- what the servers of Postgres and Mongo do. Times are nanoseconds in UTC, never before
-- 1970, and a duration is never negative.
pub mod Base
pub mod Events
pub mod Resources
pub mod Messaging
pub mod Agent
pub mod Llm
pub mod Cache
pub mod Storage
pub mod Metrics
pub mod Logger
pub mod Worker
pub mod Rest
pub mod Seed
pub mod Graphql
pub mod Startup
pub mod Pipeline
pub mod Tests
