-- ===== src/Approval.antt =====
-- Join requests: the approval records, the screening of a request and its routing.
pub mod Group
pub mod Records
pub mod Screening
pub mod Service
pub mod Rows
pub mod Steps
pub mod Kept
pub mod Decided
pub mod Calls
pub mod Once
pub mod Door
pub mod Sync
mod Tests
