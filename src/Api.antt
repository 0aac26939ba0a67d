-- ===== src/Api.antt =====
-- internal/api: what the HTTP server does with a request that gin has matched to a route.
pub mod Http
pub mod Middleware
pub mod Handlers
pub mod Subscribe
pub mod Routes
mod Tests
