-- ===== src/Risk.antt =====
-- The risk detection of group messages: src/modules/risk/index.ts.
pub mod History
pub mod Severity
pub mod Detection
pub mod Recent
pub mod Log
pub mod Flood
pub mod Handling
pub mod Strongest
pub mod Consequence
pub mod Recall
mod Tests
