-- ===== src/Storage/Connections.antt =====
-- internal/storage and internal/cache: opening and closing the connections to Postgres, Mongo and
-- Redis. The client libraries are parameters.
pub mod Laws
use eventmind.Base.{
  ℕ, ◌*◌, ◌-◌, ◌%◌, ◌^◌, ltb, ℤ, pos, negsuc, to_bits, Text, bytes, not, is_empty, atoi, Option,
  none, some, List, [], ◌∷◌, Result, if◌then◌else◌,
}
use eventmind.Resources.{Resources, Call, ◌>>=◌, ◌>>◌, pure, of_result, total, within, or_close}

-- `int32(n)`
unfoldable pub to_int32 : ℤ → ℤ
unfolding to_bits
to_int32 n =
    let bits = to_bits n % 2 ^ 32 in
    if ltb bits (2 ^ 31) then pos bits else negsuc (2 ^ 32 - 1 - bits)

-- The limits of the pool; durations are in minutes.
pub record PoolLimits : Type 0 where
  pub max_conns : ℤ
  pub min_conns : ℕ
  pub max_conn_lifetime : ℕ
  pub max_conn_idle_time : ℕ

-- pgxpool: the settings of a DSN, the pool, its ping, and the migration, which takes an advisory
-- lock and makes the tables and indexes that are missing.
pub record PgLibrary (R : Resources) : Type 1 where
  pub Settings : Type 0
  pub parse_config : Text → Result Settings
  pub connect : Settings → PoolLimits → Call R.World R.Handle
  pub ping : R.Handle → Call R.World (Unit {0})
  pub migrate : R.Handle → Call R.World (Unit {0})

-- The Mongo driver: connecting has time limits of ten seconds, and the two indexes are made in the
-- collection `events` of a database.
pub record MongoLibrary (R : Resources) : Type 0 where
  pub connect : Text → Call R.World R.Handle
  pub ping : R.Handle → Call R.World (Unit {0})
  pub create_indexes : R.Handle → Text → R.World → Unit {0} × R.World

pub record RedisLibrary (R : Resources) : Type 1 where
  pub Options : Type 0
  pub parse_url : Text → Result Options
  pub new_client : Options → R.World → R.Handle × R.World
  pub ping : R.Handle → Call R.World (Unit {0})

-- `PGStore`, `MongoStore` and `Cache`
pub record PgStore (R : Resources) : Type 0 where
  pub pool : R.Handle

pub record MongoStore (R : Resources) : Type 0 where
  pub client : R.Handle
  pub database : Text

pub record Cache (R : Resources) : Type 0 where
  pub rdb : R.Handle

abbrev or_default : Option ℤ → ℤ → ℤ
or_default none def = def
or_default (some n) def = n

module _ (getenv : Text → Text) where
  -- `envInt` of internal/storage
  unfoldable pub env_int : Text → ℤ → ℤ
  env_int key def = let v = getenv key in if not (is_empty v) then or_default (atoi v) def else def

  unfoldable pub pool_limits : PoolLimits
  unfolding env_int to_int32
  pool_limits = record {
    max_conns = to_int32 (env_int (bytes "DATABASE_MAX_CONNS") (pos 10));
    min_conns = 2;
    max_conn_lifetime = 60;
    max_conn_idle_time = 30;
  }

  -- `storage.New`
  unfoldable pub new_postgres : {R : Resources} → PgLibrary R → Text → Call R.World (PgStore R)
  new_postgres {R} P dsn = do
    cfg ← within (bytes "postgres config: ") (of_result (P.parse_config dsn))
    pool ← within (bytes "postgres connect: ") (P.connect cfg pool_limits)
    or_close R pool do
      within (bytes "postgres ping: ") (P.ping pool)
      within (bytes "postgres migrate: ") (P.migrate pool)
      pure (record { pool = pool })

module _ {R : Resources} where
  -- `NewMongo`; an error of the indexes is dropped.
  unfoldable pub new_mongo : MongoLibrary R → Text → Text → Call R.World (MongoStore R)
  new_mongo M uri db_name = do
    client ← within (bytes "mongo connect: ") (M.connect uri)
    or_close R client do
      within (bytes "mongo ping: ") (M.ping client)
      total (M.create_indexes client db_name)
      pure (record { client = client; database = db_name })

  -- `cache.New`
  unfoldable pub new_cache : RedisLibrary R → Text → Call R.World (Cache R)
  new_cache C url = do
    opts ← within (bytes "redis: bad url: ") (of_result (C.parse_url url))
    c ← total (C.new_client opts)
    or_close R c do within (bytes "redis ping: ") (C.ping c); pure (record { rdb = c })

  -- `Close` of the three.
  unfoldable pub close_postgres : R.World → PgStore R → R.World
  close_postgres w db = R.close w db.pool

  unfoldable pub close_mongo : R.World → MongoStore R → R.World
  close_mongo w mdb = R.close w mdb.client

  unfoldable pub close_cache : R.World → Cache R → R.World
  close_cache w rdb = R.close w rdb.rdb
