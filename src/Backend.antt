-- ===== src/Backend.antt =====
-- backend/: the service that verifies, stores and answers for usage reports.
pub mod Models
pub mod Db
pub mod TimeText
pub mod Verify
pub mod App
pub mod Service
pub mod Wire
pub mod Migrate
pub mod Policy
pub mod Example
