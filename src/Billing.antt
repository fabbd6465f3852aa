-- ===== src/Billing.antt =====
-- backend/app/billing: cycles, the ledger, the reporting figures and statements.
pub mod Cycles
pub mod Closing
pub mod Statements
pub mod Ledger
pub mod Reporting
