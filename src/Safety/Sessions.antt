-- ===== src/Safety/Sessions.antt =====
-- The safety of the running driver, from its start on.
use wazabi_edr_driver.Base.{ℕ, List, []}
use wazabi_edr_driver.Wdk.{Ptr, Irp, Kernel}
use wazabi_edr_driver.State.{Slot}
use wazabi_edr_driver.System.{Request, session}
use wazabi_edr_driver.Callbacks.Kept.{WellFormed}
use wazabi_edr_driver.Callbacks.Preserve.Keys.{ReadableNames}
use wazabi_edr_driver.Entry.Kept.{driver_entry-Kept}
use wazabi_edr_driver.Safety.Blocks.{Owned}
use wazabi_edr_driver.Safety.Irps.{Answered}
use wazabi_edr_driver.Safety.Lock.{Unlocked}
use wazabi_edr_driver.Safety.Waiting.{NoLostEvent}
use wazabi_edr_driver.Safety.Bounds.{InBounds}
use wazabi_edr_driver.Safety.Callbacks.{
  Owned-Kept, Answered-Kept, Unlocked-Kept, NoLostEvent-Kept, InBounds-Kept,
}
use wazabi_edr_driver.Safety.Served.{
  serve-Owned, serve-Answered, serve-Unlocked, serve-NoLostEvent, serve-InBounds,
}
use wazabi_edr_driver.Safety.Entry.{
  Owned-EntryKept, Answered-EntryKept, Unlocked-EntryKept, NoLostEvent-EntryKept,
  InBounds-EntryKept, loaded-Owned, loaded-Answered, loaded-Unlocked, loaded-NoLostEvent,
  loaded-InBounds,
}
use wazabi_edr_driver.Safety.Run.{AllGenuine, run-Kept}

module _ (k : Kernel) (readable : ReadableNames k) (buf : ℕ → Slot) (pool : Ptr → List ℕ)
    (irps : Ptr → Irp) (rs : List Request) (genuine : AllGenuine rs) where
  -- After a session of requests whose IRPs are not null and of notifications whose strings can be
  -- read, the ring is valid, every pool block that the driver allocated has been freed as often as
  -- it was allocated, but for the times that it stands in the queue, and no block was touched or
  -- freed when the driver did not own it: no leak, no double free, no use after free.
  pub session-Owned : (p : Ptr) → Owned p [] (session k buf pool irps rs)
  unfolding session
  session-Owned p =
      run-Kept readable (Owned-Kept k WellFormed p)
        (λ routine irp w real o. serve-Owned k routine irp w p o) rs _ genuine
        (driver_entry-Kept (Owned-EntryKept p) k _ (loaded-Owned buf pool irps p))

  -- After a session of requests whose IRPs are not null and of notifications whose strings can be
  -- read, every IRP that was handed to the driver has been completed as often as it was handed over,
  -- but for one that is parked; and no IRP was touched once it was completed.
  pub session-Answered : (i : Ptr) → Answered i [] (session k buf pool irps rs)
  unfolding session
  session-Answered i =
      run-Kept readable (Answered-Kept k i)
        (λ routine irp w real a. serve-Answered k routine irp w i real a) rs _ genuine
        (driver_entry-Kept (Answered-EntryKept i) k _ (loaded-Answered buf pool irps i))

  -- After a session of requests whose IRPs are not null and of notifications whose strings can be
  -- read, QUEUE_LOCK is free; it was never taken while held, was always released at the IRQL that
  -- taking it had returned, and no IRP was completed while it was held.
  pub session-Unlocked : Unlocked (session k buf pool irps rs)
  unfolding session
  session-Unlocked =
      run-Kept readable (Unlocked-Kept k) (λ routine irp w real v. serve-Unlocked k routine irp w v)
        rs _ genuine (driver_entry-Kept Unlocked-EntryKept k _ (loaded-Unlocked buf pool irps))

  -- After a session of requests whose IRPs are not null and of notifications whose strings can be
  -- read, the ring's indices are in range and consistent, and no request waits while an event is
  -- queued.
  pub session-NoLostEvent : NoLostEvent (session k buf pool irps rs)
  unfolding session
  session-NoLostEvent =
      run-Kept readable (NoLostEvent-Kept k)
        (λ routine irp w real v. serve-NoLostEvent k routine irp w v) rs _ genuine
        (driver_entry-Kept NoLostEvent-EntryKept k _ (loaded-NoLostEvent buf pool irps))

  -- In a session of requests whose IRPs are not null and of notifications whose strings can be read,
  -- every copy to an IRP's system buffer is at most as long as the IRP's OutputBufferLength, which
  -- the driver never changes.
  pub session-InBounds : InBounds (λ p. (irps p).output_buffer_length) (session k buf pool irps rs)
  unfolding session
  session-InBounds =
      run-Kept readable (InBounds-Kept k _)
        (λ routine irp w real v. serve-InBounds k routine irp w _ v) rs _ genuine
        (driver_entry-Kept (InBounds-EntryKept _) k _ (loaded-InBounds buf pool irps))
