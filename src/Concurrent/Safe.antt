-- ===== src/Concurrent/Safe.antt =====
-- The driver on several processors, from its start on.
use wazabi_edr_driver.Base.{
  ℕ, ◌+◌, ◌≡◌, ◌≢◌, ◌≤◌, sym, subst, ap, arith, List, [], ◌∷◌, ◌++◌, none, some,
}
use wazabi_edr_driver.Wdk.{Ptr, null, Irp, Log, Kernel, acquire, release, complete}
use wazabi_edr_driver.State.{Slot, World, loaded}
use wazabi_edr_driver.Ring.{queue_push_locked, queue_pop_locked}
use wazabi_edr_driver.Entry.{driver_entry}
use wazabi_edr_driver.Entry.Kept.{driver_entry-Kept}
use wazabi_edr_driver.Safety.{LockSafe, IrpSafe}
use wazabi_edr_driver.Safety.Entry.{
  Owned-EntryKept, Answered-EntryKept, Unlocked-EntryKept, NoLostEvent-EntryKept, loaded-Owned,
  loaded-Answered, loaded-Unlocked, loaded-NoLostEvent,
}
use wazabi_edr_driver.Concurrent.{Pc, Machine, Reach, action, control_mark}
use wazabi_edr_driver.Concurrent.Owners.{block_at, irp_at, BlockOwned, IrpOwned}
use wazabi_edr_driver.Concurrent.Section.{inside, held, LockUsed, Exclusive}
use wazabi_edr_driver.Concurrent.Invariant.{total, total-middle, Sound, Reach-Sound}

LockSafe-LockUsed : (l : Log) → LockSafe l → LockUsed l
LockSafe-LockUsed [] s = tt
LockSafe-LockUsed (acquire irql ∷ l) (e, s) = (e, LockSafe-LockUsed l s)
LockSafe-LockUsed (release irql ∷ l) (e, s) = (e, LockSafe-LockUsed l s)
LockSafe-LockUsed (complete i st n ∷ l) (e, s) = LockSafe-LockUsed l s
LockSafe-LockUsed (a ∷ l) s = LockSafe-LockUsed l s

-- The driver once it is started, while no request has come yet.
abbrev pub started : Kernel → (ℕ → Slot) → (Ptr → List ℕ) → (Ptr → Irp) → World
started k buf pool irps = (driver_entry k (loaded buf pool irps)).1

module _ (k : Kernel) (buf : ℕ → Slot) (pool : Ptr → List ℕ) (irps : Ptr → Irp) where
  pub started-Sound : Sound (record { world = started k buf pool irps; threads = [] })
  started-Sound =
      let lock = driver_entry-Kept Unlocked-EntryKept k _ (loaded-Unlocked buf pool irps) in
      let wait = driver_entry-Kept NoLostEvent-EntryKept k _ (loaded-NoLostEvent buf pool irps) in
      record {
        blocks_owned = λ p.
            (let o = driver_entry-Kept (Owned-EntryKept p) k _ (loaded-Owned buf pool irps p) in
              record { valid = o.valid; balance = o.balance; safe = o.safe });
        irps_owned = λ i real.
            (driver_entry-Kept (Answered-EntryKept i) k _
              (loaded-Answered buf pool irps i)).balance;
        lock = sym (ap (λ o. elim o [ none ↦ 0 | some irql ↦ 1 ]) lock.free_lock);
        rely = tt;
        used = LockSafe-LockUsed (started k buf pool irps).log lock.safe;
        exclusive = wait.exclusive;
      }

  module _ {s : Machine} (r : Reach k (started k buf pool irps) s) where
    -- However the processors interleave after DriverEntry, each pool block that the driver allocated has
    -- been freed, or stands in the queue, or is owned by one of the processors at its point of the code, as
    -- often as it was allocated; the ring is valid; and no block was touched or freed after it was freed.
    pub Reach-BlockOwned : (p : Ptr) → BlockOwned p (total (block_at p) s.threads) s.world
    Reach-BlockOwned = (Reach-Sound started-Sound r).blocks_owned

    -- However the processors interleave after DriverEntry, each IRP that was handed over has been completed,
    -- or is parked, or is one that a processor has to complete, as often as it was handed over.
    pub Reach-IrpOwned : (i : Ptr) → i ≢ null → IrpOwned i (total (irp_at i) s.threads) s.world
    Reach-IrpOwned = (Reach-Sound started-Sound r).irps_owned

    -- However the processors interleave after DriverEntry, at most one is in the critical section, and one is
    -- exactly while QUEUE_LOCK is held; the lock was never taken while it was held, and was always
    -- released at the IRQL that taking it had returned; and no IRP is parked while an event is queued.
    pub Reach-exclusion :
        (total inside s.threads ≤ 1)
        × (total inside s.threads ≡ held s.world)
        × LockUsed s.world.log
        × Exclusive s.world
    Reach-exclusion =
        let h = Reach-Sound started-Sound r in
        let e = h.lock in (ground arith, e, h.used, h.exclusive)

-- A step that does not mark the IRP touches it only while it has still to be completed.
action-IrpSafe :
    (k : Kernel) (i : Ptr) (n : ℕ) (pc : Pc) (w : World)
    → i ≢ null
    → pc ≢ control_mark i
    → IrpOwned i (irp_at i pc + n) w
    → IrpSafe i w.log
    → IrpSafe i (action k pc w).1.log
unfolding action queue_push_locked queue_pop_locked
action-IrpSafe k i n pc w real other o h = ground arith

-- However the processors interleave after DriverEntry, when so far an IRP that is not null was touched only
-- while it had still to be completed, this holds after the next step of any processor too, unless that
-- step is dispatch_device_control's marking of this IRP after it parked it.
pub Reach-IrpSafe :
    (k : Kernel) (buf : ℕ → Slot) (pool : Ptr → List ℕ) (irps : Ptr → Irp) (i : Ptr)
    (before after : List Pc) (pc : Pc) (w : World)
    → Reach k (started k buf pool irps) (record { world = w; threads = before ++ pc ∷ after })
    → i ≢ null
    → pc ≢ control_mark i
    → IrpSafe i w.log
    → IrpSafe i (action k pc w).1.log
Reach-IrpSafe k buf pool irps i before after pc w r real other h =
    let f = irp_at i in
    let o = Reach-IrpOwned k buf pool irps r i real in
    action-IrpSafe k i (total f before + total f after) pc w real other
      (subst (λ n. IrpOwned i n w) (total-middle f before after pc) o) h
