-- ===== src/Account.antt =====
-- Administrator accounts and their sessions: src/database/repositories/user.ts, session.ts,
-- src/modules/auth/index.ts, over one SQLite connection.
pub mod Model
pub mod Usable
pub mod Users
pub mod Requests
pub mod Keeping
pub mod Change
pub mod LastAdmin
pub mod Mutations
pub mod Revocation
pub mod Refusal
pub mod Sessions
pub mod Login
pub mod Expulsion
pub mod Lockout
mod Tests
