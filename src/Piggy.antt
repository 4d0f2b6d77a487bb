-- ===== src/Piggy.antt =====
-- Piggy banks (`backend/src/lib/piggy`): the balance of the ledger, the monthly debits and the
-- movements.
pub mod Ledger
pub mod AutoDebit
pub mod Activation
pub mod Goals
pub mod Store
pub mod Deposit
pub mod Withdraw
pub mod Movements
pub mod AutoDebitRun
pub mod Interest
