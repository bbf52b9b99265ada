-- ===== src/Safety/Served.antt =====
-- The dispatch routines keep each safety invariant, from the moment an IRP is handed over.
use wazabi_edr_driver.Base.{ℕ, ◌≢◌, arith, [], ◌∷◌}
use wazabi_edr_driver.Wdk.{
  Ptr, null, Kernel, DispatchRoutine, create_close, cleanup, device_control, invalid, receive,
}
use wazabi_edr_driver.State.{World}
use wazabi_edr_driver.System.{serve}
use wazabi_edr_driver.Safety.Blocks.{
  Owned, dispatch_create_close-Owned, dispatch_cleanup-Owned, dispatch_device_control-Owned,
  dispatch_invalid-Owned,
}
use wazabi_edr_driver.Safety.Irps.{
  Answered, dispatch_create_close-Answered, dispatch_cleanup-Answered,
  dispatch_device_control-Answered, dispatch_invalid-Answered,
}
use wazabi_edr_driver.Safety.Lock.{
  Unlocked, dispatch_create_close-Unlocked, dispatch_cleanup-Unlocked,
  dispatch_device_control-Unlocked, dispatch_invalid-Unlocked,
}
use wazabi_edr_driver.Safety.Waiting.{
  NoLostEvent, dispatch_create_close-NoLostEvent, dispatch_cleanup-NoLostEvent,
  dispatch_device_control-NoLostEvent, dispatch_invalid-NoLostEvent,
}
use wazabi_edr_driver.Safety.Bounds.{
  InBounds, dispatch_create_close-InBounds, dispatch_cleanup-InBounds,
  dispatch_device_control-InBounds, dispatch_invalid-InBounds,
}

-- The state that a routine starts from.
abbrev pub handed : Ptr → World → World
handed irp w = record w { log = receive irp ∷ w.log }

module _ (k : Kernel) (routine : DispatchRoutine) (irp : Ptr) (w : World) where
  pub serve-Owned : (p : Ptr) → Owned p [] w → Owned p [] (serve k routine irp (handed irp w)).1
  unfolding serve
  serve-Owned p o = by routine
    where
      start : Owned p [] (handed irp w)
      start = record { valid = o.valid; balance = o.balance; safe = o.safe }

      by : (r : DispatchRoutine) → Owned p [] (serve k r irp (handed irp w)).1
      by create_close = dispatch_create_close-Owned p [] irp _ start
      by cleanup = dispatch_cleanup-Owned p [] irp _ start
      by device_control = dispatch_device_control-Owned k p [] irp _ start
      by invalid = dispatch_invalid-Owned p [] irp _ start

  pub serve-Answered :
      (p : Ptr)
      → irp ≢ null
      → Answered p [] w
      → Answered p [] (serve k routine irp (handed irp w)).1
  unfolding serve
  serve-Answered p real a = by routine
    where
      start : Answered p (irp ∷ []) (handed irp w)
      start = record { balance = omega (arith, a.balance); safe = a.safe }

      by : (r : DispatchRoutine) → Answered p [] (serve k r irp (handed irp w)).1
      by create_close = dispatch_create_close-Answered k p _ irp real start
      by cleanup = dispatch_cleanup-Answered k p _ irp real start
      by device_control = dispatch_device_control-Answered k p _ irp real start
      by invalid = dispatch_invalid-Answered k p _ irp real start

  pub serve-Unlocked : Unlocked w → Unlocked (serve k routine irp (handed irp w)).1
  unfolding serve
  serve-Unlocked v = by routine
    where
      start : Unlocked (handed irp w)
      start = record { free_lock = v.free_lock; safe = v.safe }

      by : (r : DispatchRoutine) → Unlocked (serve k r irp (handed irp w)).1
      by create_close = dispatch_create_close-Unlocked k _ start irp
      by cleanup = dispatch_cleanup-Unlocked k _ start irp
      by device_control = dispatch_device_control-Unlocked k _ start irp
      by invalid = dispatch_invalid-Unlocked k _ start irp

  pub serve-NoLostEvent : NoLostEvent w → NoLostEvent (serve k routine irp (handed irp w)).1
  unfolding serve
  serve-NoLostEvent v = by routine
    where
      start : NoLostEvent (handed irp w)
      start = record { valid = v.valid; exclusive = v.exclusive }

      by : (r : DispatchRoutine) → NoLostEvent (serve k r irp (handed irp w)).1
      by create_close = dispatch_create_close-NoLostEvent k _ start irp
      by cleanup = dispatch_cleanup-NoLostEvent k _ start irp
      by device_control = dispatch_device_control-NoLostEvent k _ start irp
      by invalid = dispatch_invalid-NoLostEvent k _ start irp

  pub serve-InBounds :
      (outlen : Ptr → ℕ)
      → InBounds outlen w
      → InBounds outlen (serve k routine irp (handed irp w)).1
  unfolding serve
  serve-InBounds outlen v = by routine
    where
      start : InBounds outlen (handed irp w)
      start = record { lengths = v.lengths; safe = v.safe }

      by : (r : DispatchRoutine) → InBounds outlen (serve k r irp (handed irp w)).1
      by create_close = dispatch_create_close-InBounds outlen _ start irp
      by cleanup = dispatch_cleanup-InBounds outlen _ start irp
      by device_control = dispatch_device_control-InBounds k outlen _ start irp
      by invalid = dispatch_invalid-InBounds outlen _ start irp
