-- ===== src/Tests.antt =====
-- Runs of the model at concrete inputs, and the theorems at inputs where their conditions hold.
pub mod Setting
pub mod Driver
pub mod Requests
pub mod Queue
pub mod Wire
pub mod Filters
pub mod Events
pub mod Interleaved
pub mod Answers
pub mod Resolvers
