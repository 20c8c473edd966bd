-- ===== src/Bar.antt =====
-- The bar, apps/api/src/modules/nextore: accounts, payments and the cash register.
pub mod Store
pub mod CashSession
pub mod OneSession
pub mod Closing
pub mod CashDrawer
pub mod Accounts
pub mod Payments
pub mod Idempotent
pub mod EqualSplit
mod Tests
