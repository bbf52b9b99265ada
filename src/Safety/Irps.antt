-- ===== src/Safety/Irps.antt =====
-- Every IRP is parked or completed exactly once.
use wazabi_edr_driver.Base.{ℕ, ◌+◌, ◌≡◌, ◌≢◌, arith, List, [], ◌∷◌, count, if◌then◌else◌, ◌==◌}
use wazabi_edr_driver.Wdk.{Ptr, null, Kernel}
use wazabi_edr_driver.State.{World}
use wazabi_edr_driver.Ring.{queue_push_locked, queue_pop_locked}
use wazabi_edr_driver.Submit.{alloc_event, submit_event}
use wazabi_edr_driver.Dispatch.{
  dispatch_create_close, dispatch_invalid, dispatch_cleanup, dispatch_device_control,
}
use wazabi_edr_driver.Safety.{one_if, received, completed, IrpSafe}

abbrev pub parked : Ptr → World → ℕ
parked p w = if w.pending_irp == null then 0 else one_if w.pending_irp p

-- Every IRP that was ever received has been completed, or is parked, or is in the hands of a dispatch
-- routine; and none was touched after it was completed.
pub record Answered (p : Ptr) (hands : List Ptr) (w : World) : Type 0 where
  pub balance : received p w.log ≡ completed p w.log + parked p w + count p hands
  pub safe : IrpSafe p w.log

module _ (k : Kernel) (p : Ptr) (w : World) where
  pub alloc_event-Answered : (size : ℕ) → Answered p [] w → Answered p [] (alloc_event k size w).1
  unfolding alloc_event
  alloc_event-Answered size a = ground arith

  pub submit_event-Answered :
      (b : Ptr) (size : ℕ) → Answered p [] w → Answered p [] (submit_event k b size w).1
  unfolding submit_event queue_push_locked
  submit_event-Answered b size a = ground arith

  module _ (irp : Ptr) (real : irp ≢ null) (a : Answered p (irp ∷ []) w) where
    pub dispatch_device_control-Answered : Answered p [] (dispatch_device_control k irp w).1
    unfolding dispatch_device_control queue_pop_locked
    dispatch_device_control-Answered = ground arith

    pub dispatch_cleanup-Answered : Answered p [] (dispatch_cleanup irp w).1
    unfolding dispatch_cleanup
    dispatch_cleanup-Answered = ground arith

    pub dispatch_create_close-Answered : Answered p [] (dispatch_create_close irp w).1
    unfolding dispatch_create_close
    dispatch_create_close-Answered = ground arith

    pub dispatch_invalid-Answered : Answered p [] (dispatch_invalid irp w).1
    unfolding dispatch_invalid
    dispatch_invalid-Answered = ground arith
