-- ===== src/Ledger.antt =====
-- shared/ledger.py, a module for each repository, and one for the sweep of expired holds.
pub mod Merchants
pub mod Accounts
pub mod Authorizations
pub mod Sweep
