-- ===== src/Curfew.antt =====
-- The scheduled curfew: src/modules/curfew/index.ts.
pub mod Window
pub mod Clock
pub mod Scheduler
pub mod Agreement
pub mod Ticks
pub mod Sparing
mod Tests
