-- ===== src/Services.antt =====
-- The services behind the routes (`backend/src/services`).
pub mod Schedule
