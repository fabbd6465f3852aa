-- ===== src/Models.antt =====
-- The rows of the database: backend/app/*/models.py, and the contexts of tenancy/context.py.
--
-- Ids are numbers, since the program only compares them; instants are numbers. The columns that the
-- database's own clock fills (`created_at`, `recorded_at`, `issued_at`) are left out.
pub mod Service
pub mod Customers
pub mod Reminders
pub mod Payments
pub mod Billing
pub mod Commission
pub mod Audit
pub use Service.*
pub use Customers.*
pub use Reminders.*
pub use Payments.*
pub use Billing.*
pub use Commission.*
pub use Audit.*
