-- ===== src/Tests.antt =====
-- The tests of the repository and examples at concrete inputs.
pub mod Site
pub mod Http
pub mod Utility
pub mod Server
pub mod Queue
pub mod Pool
pub mod Cache
pub mod Program
pub mod Files
