-- ===== src/Contracts/Refinement.antt =====
-- Every endpoint of the contract service, whether it returns or throws, takes the ledger along the
-- steps of the specification.
pub mod Shared
pub mod Milestones
pub mod Approval
pub mod Disputes
pub mod Endings
pub mod Cancel
pub mod Create
pub mod Opening
