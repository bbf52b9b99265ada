-- ===== src/Safety/Waiting.antt =====
-- A parked request and a queued event never stand side by side.
use wazabi_edr_driver.Base.{ℕ, ◌≡◌, ◌⊎◌, arith}
use wazabi_edr_driver.Wdk.{Ptr, null, Kernel}
use wazabi_edr_driver.State.{World}
use wazabi_edr_driver.Ring.{queue_push_locked, queue_pop_locked}
use wazabi_edr_driver.Ring.Inv.{IsValid}
use wazabi_edr_driver.Submit.{alloc_event, submit_event}
use wazabi_edr_driver.Dispatch.{
  dispatch_create_close, dispatch_invalid, dispatch_cleanup, dispatch_device_control,
}

-- The ring is valid, and empty while a request waits.
pub record NoLostEvent (w : World) : Type 0 where
  pub valid : IsValid w.queue
  pub exclusive : (w.pending_irp ≡ null) ⊎ (w.queue.len ≡ 0)

module _ (k : Kernel) (w : World) (v : NoLostEvent w) where
  pub alloc_event-NoLostEvent : (size : ℕ) → NoLostEvent (alloc_event k size w).1
  unfolding alloc_event
  alloc_event-NoLostEvent size = ground arith

  pub submit_event-NoLostEvent : (b : Ptr) (size : ℕ) → NoLostEvent (submit_event k b size w).1
  unfolding submit_event queue_push_locked
  submit_event-NoLostEvent b size = ground arith

  pub dispatch_device_control-NoLostEvent :
      (irp : Ptr) → NoLostEvent (dispatch_device_control k irp w).1
  unfolding dispatch_device_control queue_pop_locked
  dispatch_device_control-NoLostEvent irp = ground arith

  pub dispatch_cleanup-NoLostEvent : (irp : Ptr) → NoLostEvent (dispatch_cleanup irp w).1
  unfolding dispatch_cleanup
  dispatch_cleanup-NoLostEvent irp = ground arith

  pub dispatch_create_close-NoLostEvent : (irp : Ptr) → NoLostEvent (dispatch_create_close irp w).1
  unfolding dispatch_create_close
  dispatch_create_close-NoLostEvent irp = ground arith

  pub dispatch_invalid-NoLostEvent : (irp : Ptr) → NoLostEvent (dispatch_invalid irp w).1
  unfolding dispatch_invalid
  dispatch_invalid-NoLostEvent irp = ground arith
