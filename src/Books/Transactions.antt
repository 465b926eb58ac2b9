-- ===== src/Books/Transactions.antt =====
-- The transactions of the program, each from its plan to the books after it.
pub mod ReadBack
pub mod Deposit
pub mod Hold
pub mod Close
pub mod Capture
pub mod Release
pub mod Open
pub mod Effects
pub mod Entries
pub mod Progress
