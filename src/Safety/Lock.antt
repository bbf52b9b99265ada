-- ===== src/Safety/Lock.antt =====
-- The discipline of QUEUE_LOCK.
use wazabi_edr_driver.Base.{ℕ, ◌≡◌, arith, none}
use wazabi_edr_driver.Wdk.{Ptr, Kernel}
use wazabi_edr_driver.State.{World}
use wazabi_edr_driver.Ring.{queue_push_locked, queue_pop_locked}
use wazabi_edr_driver.Submit.{alloc_event, submit_event}
use wazabi_edr_driver.Dispatch.{
  dispatch_create_close, dispatch_invalid, dispatch_cleanup, dispatch_device_control,
}
use wazabi_edr_driver.Safety.{lock_state, LockSafe}

-- The discipline was kept so far, and the lock is free.
pub record Unlocked (w : World) : Type 0 where
  pub free_lock : lock_state w.log ≡ none
  pub safe : LockSafe w.log

module _ (k : Kernel) (w : World) (v : Unlocked w) where
  pub alloc_event-Unlocked : (size : ℕ) → Unlocked (alloc_event k size w).1
  unfolding alloc_event
  alloc_event-Unlocked size = ground arith

  pub submit_event-Unlocked : (b : Ptr) (size : ℕ) → Unlocked (submit_event k b size w).1
  unfolding submit_event queue_push_locked
  submit_event-Unlocked b size = ground arith

  pub dispatch_device_control-Unlocked : (irp : Ptr) → Unlocked (dispatch_device_control k irp w).1
  unfolding dispatch_device_control queue_pop_locked
  dispatch_device_control-Unlocked irp = ground arith

  pub dispatch_cleanup-Unlocked : (irp : Ptr) → Unlocked (dispatch_cleanup irp w).1
  unfolding dispatch_cleanup
  dispatch_cleanup-Unlocked irp = ground arith

  pub dispatch_create_close-Unlocked : (irp : Ptr) → Unlocked (dispatch_create_close irp w).1
  unfolding dispatch_create_close
  dispatch_create_close-Unlocked irp = ground arith

  pub dispatch_invalid-Unlocked : (irp : Ptr) → Unlocked (dispatch_invalid irp w).1
  unfolding dispatch_invalid
  dispatch_invalid-Unlocked irp = ground arith
