-- ===== src/Reminders/Delivery.antt =====
-- What the reminder engine promises of delivery: bounded attempts, and one success.
pub mod Rows
pub mod Attempts
pub mod Keeping
pub mod History
