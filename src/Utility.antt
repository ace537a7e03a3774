-- ===== src/Utility.antt =====
-- The `utility` namespace.
pub mod StringParser
pub mod Url
pub mod LockFreeQueue
pub mod FileType
pub mod FileSystem
pub mod ContentCoding
pub mod FileManager
