-- ===== src/Commission.antt =====
-- backend/app/commission: plans, the earning engine, settlements and the position.
pub mod Plans
pub mod Events
pub mod Engine
pub mod Settlements
