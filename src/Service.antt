-- ===== src/Service.antt =====
-- backend/app/service: recording, correcting and voiding a day's service.
pub mod Inputs
pub mod Pricing
pub mod Commands
