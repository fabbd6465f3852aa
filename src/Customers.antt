-- ===== src/Customers.antt =====
-- backend/app/customers: the customers, and the names that they are called by.
pub mod Fields
pub mod Commands
pub mod Aliases
pub mod Following
pub mod Updates
