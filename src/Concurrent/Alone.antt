-- ===== src/Concurrent/Alone.antt =====
-- One processor undisturbed: its steps add up to the routine as it stands in Submit and Dispatch.
use wazabi_edr_driver.Base.{ℕ, zero, suc, ◌≡◌, arith, Option, none, some, Bool, true, false}
use wazabi_edr_driver.Wdk.{
  Ptr, NtStatus, Kernel, DispatchRoutine, create_close, cleanup, device_control, invalid,
}
use wazabi_edr_driver.State.{World}
use wazabi_edr_driver.Ring.{queue_push_locked, queue_pop_locked}
use wazabi_edr_driver.Submit.{submit_event}
use wazabi_edr_driver.Dispatch.{
  dispatch_device_control, dispatch_cleanup, dispatch_create_close, dispatch_invalid,
}
use wazabi_edr_driver.System.{serve}
use wazabi_edr_driver.Safety.{lock_state}
use wazabi_edr_driver.Concurrent.{Pc, finished, submit_enter, control_enter, action, called}

-- Whether the processor must wait for QUEUE_LOCK.
abbrev pub waits : Pc → World → Bool
waits (submit_enter block size) w = elim (lock_state w.log) [ none ↦ false | some irql ↦ true ]
waits (control_enter irp outlen) w = elim (lock_state w.log) [ none ↦ false | some irql ↦ true ]
waits _ w = false

-- What a routine returns, and the state that it leaves; `none` when it has to wait, or when the fuel
-- runs out.
unfoldable pub alone : ℕ → Kernel → Pc → World → Option (Option NtStatus × World)
alone fuel k (finished status) w = some (status, w)
alone zero k pc w = none
alone (suc fuel) k pc w = elim (waits pc w) [
  | true ↦ none
  | false ↦ alone fuel k (action k pc w).0 (action k pc w).1
]

-- With the lock free, submit_event returns after at most seven steps, and leaves the state that the
-- sequential definition leaves.
pub alone-submit_event :
    (k : Kernel) (block : Ptr) (size : ℕ) (w : World)
    → lock_state w.log ≡ none
    → alone 7 k (submit_enter block size) w ≡ some (none, (submit_event k block size w).1)
unfolding alone action submit_event queue_push_locked
alone-submit_event k block size w free = ground arith

alone-control :
    (k : Kernel) (irp : Ptr) (w : World)
    → lock_state w.log ≡ none
    → let (status, w') = dispatch_device_control k irp w in
      alone 7 k (called device_control irp) w ≡ some (some status, w')
unfolding alone action dispatch_device_control queue_pop_locked
alone-control k irp w free = ground arith

-- With the lock free, every dispatch routine returns after at most seven steps, with the status and the
-- state of the sequential definition.
pub alone-serve :
    (k : Kernel) (routine : DispatchRoutine) (irp : Ptr) (w : World)
    → lock_state w.log ≡ none
    → let (status, w') = serve k routine irp w in
      alone 7 k (called routine irp) w ≡ some (some status, w')
unfolding serve alone action dispatch_cleanup dispatch_create_close dispatch_invalid
alone-serve k create_close irp w free = ground arith
alone-serve k cleanup irp w free = ground arith
alone-serve k device_control irp w free = alone-control k irp w free
alone-serve k invalid irp w free = ground arith
