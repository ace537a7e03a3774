-- ===== src/Http.antt =====
-- The `http` namespace.
pub mod Status
pub mod Headers
pub mod Message
pub mod Parser
pub mod RequestHandler
pub mod Handler
