-- ===== src/Payments.antt =====
-- backend/app/payments: recording and voiding a manual payment.
pub mod Commands
