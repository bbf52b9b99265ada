-- ===== src/Callbacks.antt =====
-- callbacks/: the five kernel callbacks, and the header that they share.
pub mod Header
pub mod Kept
pub mod Delivered
pub mod Preserve
pub mod Thread
pub mod Process
pub mod Image
pub mod Object
pub mod Registry
pub mod Described
