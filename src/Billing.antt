-- ===== src/Billing.antt =====
-- Card billing, `backend/src/lib/billing`.
pub mod Calendar
pub mod Expense
pub mod Occurrences
pub mod Charges
pub mod Plan
pub mod Run
pub mod Committed
pub mod Retroactive
