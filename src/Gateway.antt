-- ===== src/Gateway.antt =====
-- The gateway (gateway/*.py): it matches observed writes, counts and logs them, and signs reports.
pub mod Counter
pub mod Signer
pub mod Config
pub mod Matcher
pub mod Store
pub mod Pipeline
pub mod Reporter
pub mod Command
pub mod Observer
pub mod Proxy
