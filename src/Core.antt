-- ===== src/Core.antt =====
-- backend/app/core: money, dates, free text, and the row-version sequence's callers.
pub mod Text
pub mod Date
pub mod Clock
pub mod Money
