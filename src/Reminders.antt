-- ===== src/Reminders.antt =====
-- backend/app/reminders: the schedule, the engine, and the run of a day.
pub mod Schedule
pub mod Engine
pub mod Invariants
pub mod Confined
pub mod Claims
pub mod Runner
pub mod Amounts
pub mod Delivery
