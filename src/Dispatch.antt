-- ===== src/Dispatch.antt =====
-- ipc/mod.rs and ipc/dispatch.rs: the IOCTL code and the major-function routines.
pub mod Paths
use wazabi_edr_driver.Base.{
  ℕ, ◌*◌, ◌^◌, bit_or, Bool, true, false, not, none, some, if◌then◌else◌, ◌==◌, ltb,
}
use wazabi_edr_driver.Wdk.{
  Ptr, null, NtStatus, Kernel, free, status_success, status_pending, status_unsuccessful,
  status_invalid_device_request, status_buffer_too_small, status_cancelled,
}
use wazabi_edr_driver.State.{Slot, M, ◌>>=◌, ◌>>◌, pure, act, when}
use wazabi_edr_driver.SpinLock.{acquire_guard, drop_guard}
use wazabi_edr_driver.Irp.{current_stack_location, mark_irp_pending, complete_irp, copy_to_user}
use wazabi_edr_driver.Ring.{add_drop, queue_pop_locked}
use wazabi_edr_driver.Submit.{take_pending}

-- The arguments are in range, so that no shift loses bits; `<<` is a product by a power of two.
unfoldable pub ctl_code : ℕ → ℕ → ℕ → ℕ → ℕ
ctl_code device_type function method access =
    bit_or (bit_or (bit_or (device_type * 2 ^ 16) (access * 2 ^ 14)) (function * 2 ^ 2)) method

-- FILE_DEVICE_UNKNOWN, METHOD_BUFFERED and FILE_READ_ACCESS of wdk_sys
abbrev pub file_device_unknown : ℕ
file_device_unknown = 0x22

abbrev pub method_buffered : ℕ
method_buffered = 0

abbrev pub file_read_access : ℕ
file_read_access = 1

unfoldable pub ioctl_wedr_get_event : ℕ
unfolding ctl_code
ioctl_wedr_get_event = ctl_code file_device_unknown 0x800 method_buffered file_read_access

unfoldable pub dispatch_create_close : Ptr → M NtStatus
unfolding complete_irp
dispatch_create_close irp = complete_irp irp status_success 0

unfoldable pub dispatch_invalid : Ptr → M NtStatus
unfolding complete_irp
dispatch_invalid irp = complete_irp irp status_invalid_device_request 0

-- The body of `if !pending.is_null()` in `dispatch_cleanup` and `driver_unload`.
unfoldable pub cancel : Ptr → M (Unit {0})
unfolding complete_irp
cancel pending = do status ← complete_irp pending status_cancelled 0; pure tt

unfoldable pub dispatch_cleanup : Ptr → M NtStatus
unfolding take_pending cancel complete_irp
dispatch_cleanup irp = do
  pending ← take_pending
  when (not (pending == null)) (cancel pending)
  complete_irp irp status_success 0

-- `PENDING_IRP.compare_exchange(null, irp)`: whether it stored `irp`
unfoldable pub park : Ptr → M Bool
park irp w = if w.pending_irp == null then (true, record w { pending_irp = irp }) else (false, w)

-- The fast path, once the lock is dropped.
unfoldable pub hand_out : Ptr → ℕ → Slot → M NtStatus
unfolding act add_drop complete_irp copy_to_user
hand_out irp outlen slot =
    if ltb outlen slot.size
    then (do act (free slot.block); add_drop; complete_irp irp status_buffer_too_small slot.size)
    else (do
      copy_to_user irp slot.block slot.size
      act (free slot.block)
      complete_irp irp status_success slot.size)

-- The slow path.
unfoldable pub wait_for_event : Ptr → M (Unit {0}) → M NtStatus
unfolding park complete_irp mark_irp_pending
wait_for_event irp unlock = do
  stored ← park irp
  unlock
  if stored
      then mark_irp_pending irp >> pure status_pending
      else complete_irp irp status_unsuccessful 0

unfoldable pub dispatch_device_control : Kernel → Ptr → M NtStatus
unfolding current_stack_location acquire_guard drop_guard hand_out wait_for_event complete_irp
dispatch_device_control k irp = do
  stack ← current_stack_location irp
  if not (stack.io_control_code == ioctl_wedr_get_event)
      then complete_irp irp status_invalid_device_request 0
      else (do
        guard ← acquire_guard k
        popped ← queue_pop_locked
        elim popped [
          | some slot ↦ drop_guard guard >> hand_out irp stack.output_buffer_length slot
          | none ↦ wait_for_event irp (drop_guard guard)
        ])
