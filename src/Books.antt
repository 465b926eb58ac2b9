-- ===== src/Books.antt =====
-- The books that the table keeps: balances, holds, and what may change in a row.
pub mod View
pub mod Change
pub mod Rows
pub mod Held
pub mod Settle
pub mod Spec
pub mod Abstraction
pub mod Writes
pub mod Advance
pub mod Money
pub mod Postings
pub mod Conserved
pub mod Moves
pub mod Transactions
