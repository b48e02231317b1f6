-- ===== src/Wallet.antt =====
-- The wallet, `backend/src/wallet/wallet.service.ts`, `settlement.service.ts` and `hand-ledger.ts`:
-- double-entry bookkeeping over accounts and a journal.
pub mod Types
pub mod Record
pub mod Hand
pub mod Reconcile
pub mod Journal
pub mod Books
pub mod Bank
pub mod Payments
pub mod Deposits
pub mod Sound
pub mod Decided
pub mod Rows
pub mod Standing
pub mod Rejected
pub mod Losses
pub mod Charges
pub mod Repeats
pub mod Limits
pub mod Bounds
pub mod Caps
pub mod Passed
pub mod Metered
pub mod Desk
pub mod Desks
pub mod Keys
