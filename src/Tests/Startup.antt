-- ===== src/Tests/Startup.antt =====
-- The programs of cmd/ over client libraries whose connections are numbered. Redis can be down.
use eventmind.Base.{ℕ, suc, ◌≡◌, refl, ap, Text, bytes, text_eq, List, [], ◌∷◌, pos, ok, err}
use eventmind.Messaging.Dlq.{DlqWorker}
use eventmind.Messaging.Clients.{new_producer, new_consumer, new_dlq_worker}
use eventmind.Messaging.Clients.Laws.{producer_handles, consumer_handles, dlq_handles}
use eventmind.Resources.{Resources, Call, within, or_close, ◌>>=◌, ◌>>◌}
use eventmind.Resources.Laws.{IsStack, Opens, one, none_of}
use eventmind.Storage.Connections.{new_postgres, new_mongo, new_cache}
use eventmind.Storage.Connections.Laws.{postgres_handles, mongo_handles, cache_handles}
use eventmind.Startup.{Libraries, ApiClients, start_api}
use eventmind.Startup.Laws.{AreLawful, constructors_lem}
use eventmind.Tests.Llm.{only_key}

abbrev pub tail : List ℕ → List ℕ
tail [] = []
tail (h ∷ l) = l

-- The state is the list of the open connections and the next number.
abbrev pub numbered : Resources
numbered = record { World = List ℕ × ℕ; Handle = ℕ; close = λ (held, n) h. (tail held, n) }

abbrev pub numbered-IsStack : IsStack numbered
numbered-IsStack = record { opened = λ w. w.0; opened-close = λ w h rest e. ap tail e }

abbrev pub connect : Call numbered.World ℕ
connect (held, n) = (ok n, (n ∷ held, suc n))

abbrev pub fine : Call numbered.World (Unit {0})
fine w = (ok tt, w)

abbrev pub down : Call numbered.World (Unit {0})
down w = (err (bytes "connection refused"), w)

connect-Opens : Opens numbered-IsStack (one numbered-IsStack) connect
connect-Opens = record { from = λ w. refl }

pub fine-Opens : Opens numbered-IsStack (none_of numbered-IsStack) fine
fine-Opens = record { from = λ w. refl }

down-Opens : Opens numbered-IsStack (none_of numbered-IsStack) down
down-Opens = record { from = λ w. refl }

-- The libraries, with the ping of Redis.
abbrev pub libraries : Call numbered.World (Unit {0}) → Libraries numbered
libraries redis_ping = record {
  kafka = record {
    new_producer = λ cfg. connect;
    new_consumer = λ cfg. connect;
    subscribe = λ h topic. fine;
    flush = λ w h ms. w;
  };
  postgres = record {
    Settings = Text;
    parse_config = λ dsn. ok dsn;
    connect = λ s limits. connect;
    ping = λ h. fine;
    migrate = λ h. fine;
  };
  mongo = record { connect = λ uri. connect; ping = λ h. fine; create_indexes = λ h db w. (tt, w) };
  redis = record {
    Options = Text;
    parse_url = λ url. ok url;
    new_client = λ o (held, n). (n, (n ∷ held, suc n));
    ping = λ h. redis_ping;
  };
}

pub libraries-AreLawful :
    (redis_ping : Call numbered.World (Unit {0}))
    → Opens numbered-IsStack (none_of numbered-IsStack) redis_ping
    → AreLawful numbered-IsStack (libraries redis_ping)
libraries-AreLawful redis_ping h = record {
  kafka = record {
    new_producer-Opens = λ cfg. connect-Opens;
    new_consumer-Opens = λ cfg. connect-Opens;
    subscribe-Opens = λ h topic. fine-Opens;
    opened-flush = λ w h ms. refl;
  };
  postgres = record {
    connect-Opens = λ s limits. connect-Opens;
    ping-Opens = λ h. fine-Opens;
    migrate-Opens = λ h. fine-Opens;
  };
  mongo = record {
    connect-Opens = λ uri. connect-Opens;
    ping-Opens = λ h. fine-Opens;
    create_indexes-Opens = λ h db. fine-Opens;
  };
  redis = record { new_client-Opens = λ o. record { from = λ w. refl }; ping-Opens = λ x. h };
}

abbrev retry_worker : DlqWorker
retry_worker = record { dlq_topic = bytes "dead"; max_retry = pos 5; base_ms = pos 1000 }

constructors_lem_example :
    Opens numbered-IsStack postgres_handles
      (new_postgres only_key (libraries down).postgres (bytes "dsn"))
    × Opens numbered-IsStack mongo_handles
        (new_mongo (libraries down).mongo (bytes "uri") (bytes "eventmind"))
    × Opens numbered-IsStack cache_handles (new_cache (libraries down).redis (bytes "url"))
    × Opens numbered-IsStack producer_handles
        (new_producer only_key (libraries down).kafka (bytes "brokers") (bytes "events"))
    × Opens numbered-IsStack consumer_handles (
        new_consumer only_key
          (libraries down).kafka
          (bytes "brokers")
          (bytes "group")
          (bytes "events")
          (bytes "dead"))
    × Opens numbered-IsStack dlq_handles (
        new_dlq_worker only_key
          (libraries down).kafka
          (bytes "brokers")
          (bytes "group")
          retry_worker)
constructors_lem_example =
    constructors_lem numbered-IsStack (libraries down) (libraries-AreLawful down down-Opens)
      only_key (λ t. t) (bytes "dsn") (bytes "uri") (bytes "eventmind") (bytes "url")
      (bytes "brokers") (bytes "group") (bytes "events") (bytes "dead") retry_worker

abbrev pub api_started : ApiClients numbered
api_started = record {
  db = record { pool = 0 };
  mdb = record { client = 1; database = [] };
  rdb = record { rdb = 2 };
  producer = record { p = 3; topic = [] };
}

pub api_starts : (start_api only_key (λ t. t) (libraries fine) ([], 0)).0 ≡ ok api_started
unfolding start_api within or_close ◌>>=◌ ◌>>◌ new_postgres new_mongo new_cache new_producer text_eq
api_starts = refl
