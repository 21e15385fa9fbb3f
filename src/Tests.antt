-- ===== src/Tests.antt =====
-- Concrete inputs, and the theorems applied to them.
pub mod Merging
pub mod Resolving
pub mod Queueing
pub mod Limiting
pub mod Auditing
pub mod Complying
pub mod Filtering
pub mod Decoding
pub mod Unlocking
pub mod Recovering
pub mod Comparing
pub mod Deploying
pub mod Identifying
