-- ===== src/Tests.antt =====
-- Runs at concrete inputs: a tenant with one customer, a commission plan and a month of business.
pub mod Sample
pub mod Reminders
pub mod Retries
pub mod Customers
pub mod Commands
pub mod Changes
pub mod Billing
pub mod Money
pub mod Others
pub mod Lookups
