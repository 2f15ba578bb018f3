-- ===== src/Moderation.antt =====
-- Blacklist, punishments and escalation: src/database/repositories/blacklist.ts and punishment.ts,
-- src/modules/punishment/index.ts and src/modules/blacklist/index.ts.
pub mod Blacklist
pub mod Records
pub mod Service
pub mod Listing
pub mod Calls
pub mod Escalation
pub mod Lifting
mod Tests
