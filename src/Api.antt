-- ===== src/Api.antt =====
-- The Lambda handlers of src/lambdas, a module for each service, and what they share.
pub mod Common
pub mod Authorization
pub mod Deposit
pub mod Functions
pub mod Rejections
pub mod SignUp
pub mod Replays
pub mod Entry
pub mod Ownership
pub mod Unfit
pub mod Bounds
pub mod Attempts
