-- ===== src/Storage/Connections/Laws.antt =====
-- The constructors of internal/storage and internal/cache give back what they have opened.
use eventmind.Base.{Text, List, [], ◌∷◌, Result, ok, err, refl}
use eventmind.Resources.{Resources, ◌>>◌, of_result, total}
use eventmind.Resources.Laws.{
  IsStack, Opens, one, none_of, Opens-within, Opens-or_close, Opens-then, Takes-then, Takes-pure,
}
use eventmind.Storage.Connections.{
  PoolLimits, PgLibrary, MongoLibrary, RedisLibrary, PgStore, MongoStore, Cache, new_postgres,
  new_mongo, new_cache,
}

-- The documented behaviour: a connection that is made is open, and the other calls open nothing.
pub record IsPgLibrary {R : Resources} (L : IsStack R) (P : PgLibrary R) : Type 0 where
  pub connect-Opens : (s : P.Settings) (limits : PoolLimits) → Opens L (one L) (P.connect s limits)
  pub ping-Opens : (h : R.Handle) → Opens L (none_of L) (P.ping h)
  pub migrate-Opens : (h : R.Handle) → Opens L (none_of L) (P.migrate h)

pub record IsMongoLibrary {R : Resources} (L : IsStack R) (M : MongoLibrary R) : Type 0 where
  pub connect-Opens : (uri : Text) → Opens L (one L) (M.connect uri)
  pub ping-Opens : (h : R.Handle) → Opens L (none_of L) (M.ping h)
  pub create_indexes-Opens :
      (h : R.Handle) (db : Text) → Opens L (none_of L) (total (M.create_indexes h db))

pub record IsRedisLibrary {R : Resources} (L : IsStack R) (C : RedisLibrary R) : Type 0 where
  pub new_client-Opens : (o : C.Options) → Opens L (one L) (total (C.new_client o))
  pub ping-Opens : (h : R.Handle) → Opens L (none_of L) (C.ping h)

-- What each store holds.
abbrev pub postgres_handles : {R : Resources} → PgStore R → List R.Handle
postgres_handles db = db.pool ∷ []

abbrev pub mongo_handles : {R : Resources} → MongoStore R → List R.Handle
mongo_handles mdb = mdb.client ∷ []

abbrev pub cache_handles : {R : Resources} → Cache R → List R.Handle
cache_handles rdb = rdb.rdb ∷ []

module _ {R : Resources} (L : IsStack R) where
  pub of_result-Opens {ℓ} : {A : Type ℓ} (r : Result A) → Opens L (none_of L) (of_result r)
  of_result-Opens (ok a) = record { from = λ w. refl }
  of_result-Opens (err e) = record { from = λ w. refl }

  pub new_postgres_lem :
      (getenv : Text → Text) (P : PgLibrary R) (D : IsPgLibrary L P) (dsn : Text)
      → Opens L postgres_handles (new_postgres getenv P dsn)
  unfolding new_postgres ◌>>◌
  new_postgres_lem getenv P D dsn = Opens-then L (Opens-within L _ (of_result-Opens _)) λ cfg.
      Opens-or_close L (Opens-within L _ (D.connect-Opens cfg _)) λ pool.
        Takes-then L (Opens-within L _ (D.ping-Opens pool))
          λ _. Takes-then L (Opens-within L _ (D.migrate-Opens pool)) λ _. Takes-pure L _ refl

  pub new_mongo_lem :
      (M : MongoLibrary R) (D : IsMongoLibrary L M) (uri db_name : Text)
      → Opens L mongo_handles (new_mongo M uri db_name)
  unfolding new_mongo ◌>>◌
  new_mongo_lem M D uri db_name =
      Opens-or_close L (Opens-within L _ (D.connect-Opens uri)) λ client.
        Takes-then L (Opens-within L _ (D.ping-Opens client))
          λ _. Takes-then L (D.create_indexes-Opens client db_name) λ _. Takes-pure L _ refl

  pub new_cache_lem :
      (C : RedisLibrary R) (D : IsRedisLibrary L C) (url : Text)
      → Opens L cache_handles (new_cache C url)
  unfolding new_cache ◌>>◌
  new_cache_lem C D url = Opens-then L (Opens-within L _ (of_result-Opens _)) λ opts.
      Opens-or_close L (D.new_client-Opens opts)
        λ c. Takes-then L (Opens-within L _ (D.ping-Opens c)) λ _. Takes-pure L _ refl
