-- ===== src/System.antt =====
-- The whole service: any number of handlers at work on one table, in any order.
pub mod Safe
pub mod Reads
pub mod Ledger
pub mod Holds
pub mod Routes
pub mod Serve
pub mod Pool
