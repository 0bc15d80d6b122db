-- ===== src/Storage.antt =====
-- internal/storage: the two databases, and their connections with that of internal/cache.
pub mod Postgres
pub mod Mongo
pub mod Connections
