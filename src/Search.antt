-- ===== src/Search.antt =====
-- backend/app/search: the keys by which names and phone numbers are compared.
pub mod Phone
pub mod Names
