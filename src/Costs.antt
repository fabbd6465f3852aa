-- ===== src/Costs.antt =====
-- backend/app/costs: what a rate and a usage figure come to.
pub mod Estimates
