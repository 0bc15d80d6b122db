-- ===== src/Rest.antt =====
-- api/rest: the handlers and the middleware of the REST API.
pub mod Query
pub mod Routes
pub mod Handlers
pub mod Middleware
