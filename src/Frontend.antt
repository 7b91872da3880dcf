-- ===== src/Frontend.antt =====
-- stellance/frontend: what the pages and the API clients compute.
pub mod Text
pub mod Format
pub mod Wallet
pub mod Hook
pub mod Reconnect
pub mod Stale
pub mod Connects
pub mod Login
pub mod Redirect
pub mod Contracts
pub mod Mine
pub mod Jobs
pub mod Browse
pub mod History
pub mod Credits
mod Tests
