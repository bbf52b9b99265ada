-- ===== src/Safety/Lifetime.antt =====
-- DriverUnload after any session: nothing is left allocated, waiting, locked or queued.
use wazabi_edr_driver.Base.{ℕ, ◌≡◌, arith, List, []}
use wazabi_edr_driver.Wdk.{Ptr, null, Irp, Kernel}
use wazabi_edr_driver.State.{Slot, World}
use wazabi_edr_driver.Entry.{driver_unload}
use wazabi_edr_driver.Entry.Kept.{EntryKept, printing, unregister_callbacks-Kept}
use wazabi_edr_driver.System.{Request, lifetime}
use wazabi_edr_driver.Callbacks.Preserve.Keys.{ReadableNames}
use wazabi_edr_driver.Safety.{allocated, freed, received, completed, BlockSafe, IrpSafe, blocks}
use wazabi_edr_driver.Ring.Refine.{contents-empty}
use wazabi_edr_driver.Safety.Blocks.{Owned}
use wazabi_edr_driver.Safety.Irps.{Answered}
use wazabi_edr_driver.Safety.Lock.{Unlocked}
use wazabi_edr_driver.Safety.Entry.{Owned-EntryKept, Answered-EntryKept, Unlocked-EntryKept}
use wazabi_edr_driver.Safety.Run.{AllGenuine}
use wazabi_edr_driver.Safety.Sessions.{session-Owned, session-Answered, session-Unlocked}
use wazabi_edr_driver.Safety.Unload.{
  cancel_waiting-Owned, cancel_waiting-Answered, cancel_waiting-Unlocked, Emptied,
  drain_queue-Emptied, drain_queue-Draining, tear_down-Kept,
}

Emptied-EntryKept : (p : Ptr) → EntryKept (Emptied p)
Emptied-EntryKept p = record {
  acts = λ a w e (n, o). (n, (Owned-EntryKept p).acts a w e o);
  sets = λ w w' e (n, o). (ground arith, (Owned-EntryKept p).sets w w' e o);
}

-- No request waits, and the IRP `i` was answered.
abbrev Idle : Ptr → World → Type 0
Idle i w = Answered i [] w × (w.pending_irp ≡ null)

Idle-EntryKept : (i : Ptr) → EntryKept (Idle i)
Idle-EntryKept i = record {
  acts = λ a w e (o, n). ((Answered-EntryKept i).acts a w e o, n);
  sets = λ w w' e (o, n). ((Answered-EntryKept i).sets w w' e o, ground arith);
}

-- An empty queue owns nothing.
Emptied-freed : (p : Ptr) (w : World) → Emptied p w → allocated p w.log ≡ freed p w.log
unfolding blocks
Emptied-freed p w (n, o) = let b = o.balance in ground (arith, contents-empty w.queue n)

module _ (k : Kernel) where
  driver_unload-Emptied : (p : Ptr) (w : World) → Owned p [] w → Emptied p (driver_unload k w).1
  unfolding driver_unload
  driver_unload-Emptied p w o =
      let kept = Owned-EntryKept p in
      let a = unregister_callbacks-Kept kept k _ (kept.acts _ w (printing _) o) in
      let b = drain_queue-Emptied k p _ (cancel_waiting-Owned p _ a) in
      let both = Emptied-EntryKept p in both.acts _ _ (printing _) (tear_down-Kept both _ b)

  module _ (i : Ptr) (w : World) (o : Answered i [] w) (u : Unlocked w) where
    driver_unload-Idle : Idle i (driver_unload k w).1 × Unlocked (driver_unload k w).1
    unfolding driver_unload
    driver_unload-Idle =
        let kept = Answered-EntryKept i in
        let lock = Unlocked-EntryKept in
        let a = unregister_callbacks-Kept kept k _ (kept.acts _ w (printing _) o) in
        let b = unregister_callbacks-Kept lock k _ (lock.acts _ w (printing _) u) in
        let (c, idle) = cancel_waiting-Answered i _ a in
        let (d, e) = drain_queue-Draining k i _ c idle (cancel_waiting-Unlocked _ b) in
        let both = Idle-EntryKept i in
        (
          both.acts _ _ (printing _) (tear_down-Kept both _ d),
          lock.acts _ _ (printing _) (tear_down-Kept lock _ e),
        )

module _ (k : Kernel) (readable : ReadableNames k) (buf : ℕ → Slot) (pool : Ptr → List ℕ)
    (irps : Ptr → Irp) (rs : List Request) (genuine : AllGenuine rs) where
  -- After a session of requests whose IRPs are not null and of notifications whose strings can be
  -- read, and DriverUnload, the queue is empty, every pool block has been freed exactly as often as
  -- it was allocated, and none was touched or freed when the driver did not own it.
  pub lifetime-freed :
      (p : Ptr)
      → let w = lifetime k buf pool irps rs in
        (w.queue.len ≡ 0) × (allocated p w.log ≡ freed p w.log) × BlockSafe p w.log
  unfolding lifetime
  lifetime-freed p =
      let (n, o) =
        driver_unload-Emptied k p _ (session-Owned k readable buf pool irps rs genuine p) in
      (n, Emptied-freed p _ (n, o), o.safe)

  -- After a session of requests whose IRPs are not null and of notifications whose strings can be
  -- read, and DriverUnload, no IRP is parked, every IRP has been completed exactly as often as it
  -- was handed to the driver, none was touched once completed, and QUEUE_LOCK is free and was used
  -- properly throughout.
  pub lifetime-completed :
      (i : Ptr)
      → let w = lifetime k buf pool irps rs in
        (w.pending_irp ≡ null)
        × (received i w.log ≡ completed i w.log)
        × IrpSafe i w.log
        × Unlocked w
  unfolding lifetime
  lifetime-completed i =
      let ((a, idle), u) =
        driver_unload-Idle k i _ (session-Answered k readable buf pool irps rs genuine i)
          (session-Unlocked k readable buf pool irps rs genuine) in
      (idle, ground arith, a.safe, u)
