-- ===== src/Safety.antt =====
-- Counts over the log: what was received, allocated, freed and completed, and the blocks that the
-- driver owns.
pub mod Blocks
pub mod Irps
pub mod Lock
pub mod Waiting
pub mod Bounds
pub mod Callbacks
pub mod Served
pub mod Attempts
pub mod Entry
pub mod Run
pub mod Sessions
pub mod Unload
pub mod Lifetime
pub mod Registered
pub mod Sealed
pub mod Names
use wazabi_edr_driver.Base.{
  ℕ, ◌+◌, ◌≤◌, ◌≡◌, Option, none, some, List, [], ◌∷◌, map, if◌then◌else◌, ◌==◌,
}
use wazabi_edr_driver.Wdk.{
  Ptr, Log, receive, allocate, free, access_block, acquire, release, access_irp, write_user,
  complete,
}
use wazabi_edr_driver.State.{Ring}
use wazabi_edr_driver.Ring.Refine.{contents}

abbrev pub one_if : Ptr → Ptr → ℕ
one_if a b = if a == b then 1 else 0

-- How often the block was allocated, and freed.
abbrev pub allocated : Ptr → Log → ℕ
allocated p [] = 0
allocated p (allocate _ b ∷ l) = one_if b p + allocated p l
allocated p (_ ∷ l) = allocated p l

abbrev pub freed : Ptr → Log → ℕ
freed p [] = 0
freed p (free b ∷ l) = one_if b p + freed p l
freed p (_ ∷ l) = freed p l

-- How often the IRP was completed.
abbrev pub completed : Ptr → Log → ℕ
completed p [] = 0
completed p (complete i _ _ ∷ l) = one_if i p + completed p l
completed p (_ ∷ l) = completed p l

abbrev pub received : Ptr → Log → ℕ
received p [] = 0
received p (receive i ∷ l) = one_if i p + received p l
received p (_ ∷ l) = received p l

-- Whenever the driver touches or frees the block `p`, it has freed it less often than it got it: no
-- use after free, and no double free.
abbrev pub BlockSafe : Ptr → Log → Type 0
BlockSafe p [] = Unit
BlockSafe p (free b ∷ l) = (one_if b p + freed p l ≤ allocated p l) × BlockSafe p l
BlockSafe p (access_block b ∷ l) = (one_if b p + freed p l ≤ allocated p l) × BlockSafe p l
BlockSafe p (_ ∷ l) = BlockSafe p l

-- Whenever the driver touches, fills or completes the IRP `p`, it has completed it less often than
-- it received it: no access to an IRP that is gone, and no double completion.
abbrev pub IrpSafe : Ptr → Log → Type 0
IrpSafe p [] = Unit
IrpSafe p (access_irp i ∷ l) = (one_if i p + completed p l ≤ received p l) × IrpSafe p l
IrpSafe p (write_user i _ ∷ l) = (one_if i p + completed p l ≤ received p l) × IrpSafe p l
IrpSafe p (complete i _ _ ∷ l) = (one_if i p + completed p l ≤ received p l) × IrpSafe p l
IrpSafe p (_ ∷ l) = IrpSafe p l

-- The IRQL that QUEUE_LOCK's holder will restore; `none` while the lock is free.
abbrev pub lock_state : Log → Option ℕ
lock_state [] = none
lock_state (acquire irql ∷ l) = some irql
lock_state (release irql ∷ l) = none
lock_state (_ ∷ l) = lock_state l

-- The lock is never taken while held, is released at the IRQL that taking it returned, and no IRP is
-- completed while it is held.
abbrev pub LockSafe : Log → Type 0
LockSafe [] = Unit
LockSafe (acquire irql ∷ l) = (lock_state l ≡ none) × LockSafe l
LockSafe (release irql ∷ l) = (lock_state l ≡ some irql) × LockSafe l
LockSafe (complete _ _ _ ∷ l) = (lock_state l ≡ none) × LockSafe l
LockSafe (_ ∷ l) = LockSafe l

-- No write to an IRP's system buffer is longer than the buffer.
abbrev pub BufferSafe : (Ptr → ℕ) → Log → Type 0
BufferSafe outlen [] = Unit
BufferSafe outlen (write_user i n ∷ l) = (n ≤ outlen i) × BufferSafe outlen l
BufferSafe outlen (_ ∷ l) = BufferSafe outlen l

-- The blocks in the ring.
unfoldable pub blocks : Ring → List Ptr
blocks q = map (λ s. s.block) (contents q)
