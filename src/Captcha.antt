-- ===== src/Captcha.antt =====
-- The verification of members who ask to join: src/modules/captcha/index.ts.
pub mod Text
pub mod Sessions
pub mod Reconcile
pub mod Selection
pub mod Service
pub mod Answers
pub mod Bound
pub mod Verdict
pub mod Routing
pub mod Attempts
pub mod Steps
pub mod Keeping
pub mod Runs
mod Tests
