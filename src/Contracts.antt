-- ===== src/Contracts.antt =====
-- stellance/backend/src/contracts: the contract service by its endpoints, and what is proved of it.
pub mod Controller
pub mod Loading
pub mod Create
pub mod Milestones
pub mod Disputes
pub mod Ledger
pub mod Balance
pub mod Refinement
pub mod Service
pub mod Lifecycle
pub mod Endpoints
pub mod Access
mod Tests
