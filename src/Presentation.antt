-- ===== src/Presentation.antt =====
-- system/api/src/zkprequest: presentation requests, their verification, the waiters and the
-- verdicts of the identity API.
pub mod Types
pub mod Package
pub mod Reader
pub mod Env
pub mod Caches
pub mod Create
pub mod Notify
pub mod Verify
pub mod Handler
pub mod Steps
pub mod Samples
mod HistoryTests
mod Tests
