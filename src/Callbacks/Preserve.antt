-- ===== src/Callbacks/Preserve.antt =====
-- Every callback keeps every invariant that allocation and submission keep.
pub mod Simple
pub mod Copies
pub mod Shown
pub mod Strings
pub mod Keys
pub mod Fields
pub mod Registry
