-- ===== src/Wallet.antt =====
-- apps/api/src/modules/wallet: the closed wallet, an append-only ledger of signed cents with holds.
pub mod Store
pub mod Allocation
pub mod Service
pub mod Ledger
pub mod Solvency
pub mod Debits
pub mod HoldTable
pub mod HoldChange
pub mod Effects
pub mod Accounts
pub mod Holds
pub mod PartialRelease
pub mod Credits
pub mod Refunds
mod Tests
