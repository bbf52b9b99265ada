-- ===== src/Callbacks/Object.antt =====
-- callbacks/object.rs: process handles being opened or duplicated.
pub mod Gate
use wazabi_edr_driver.Base.{ℕ, bit_and, bit_or, Option, none, some, if◌then◌else◌, ◌==◌, not, Bool}
use wazabi_edr_driver.Wdk.{Ptr, null, Kernel, as_u32}
use wazabi_edr_driver.State.{World, M, ◌>>=◌, ◌>>◌, pure, gets}
use wazabi_edr_driver.Events.{
  EventType, EventHeader, HandleAccessOp, handle_access_op_code, size_of_handle_access,
}
use wazabi_edr_driver.Events.Event.{Event}
use wazabi_edr_driver.Callbacks.Header.{alloc_event_for, submit, unless_null}

abbrev pub process_terminate : ℕ
process_terminate = 0x0001

abbrev pub process_create_thread : ℕ
process_create_thread = 0x0002

abbrev pub process_vm_operation : ℕ
process_vm_operation = 0x0008

abbrev pub process_vm_read : ℕ
process_vm_read = 0x0010

abbrev pub process_vm_write : ℕ
process_vm_write = 0x0020

abbrev pub process_dup_handle : ℕ
process_dup_handle = 0x0040

abbrev pub process_suspend_resume : ℕ
process_suspend_resume = 0x0800

abbrev pub dangerous_process_mask : ℕ
dangerous_process_mask =
    bit_or
      (bit_or
        (bit_or
          (bit_or (bit_or (bit_or process_terminate process_create_thread) process_vm_operation)
            process_vm_read)
          process_vm_write)
        process_dup_handle)
      process_suspend_resume

-- OB_OPERATION_HANDLE_CREATE of wdk_sys
abbrev pub ob_operation_handle_create : ℕ
ob_operation_handle_create = 1

pub record AccessMasks : Type 0 where
  pub desired_access : ℕ
  pub original_desired_access : ℕ

-- Both views of the `Parameters` union.
pub record OperationParameters : Type 0 where
  pub create_handle_information : AccessMasks
  pub duplicate_handle_information : AccessMasks

-- OB_PRE_OPERATION_INFORMATION
pub record PreOperationInformation : Type 0 where
  pub kernel_handle : ℕ
  pub object : Ptr
  pub operation : ℕ
  pub parameters : Option OperationParameters

unfoldable pub emit_handle_access : Kernel → ℕ → ℕ → ℕ → ℕ → HandleAccessOp → M (Unit {0})
emit_handle_access k source_pid target_pid desired original op = do
  evt ← alloc_event_for k size_of_handle_access EventType.process_handle_access
  unless_null evt (λ p header. submit k p (
      Event.handle_access (record {
        header = header;
        source_process_id = source_pid;
        target_process_id = target_pid;
        desired_access = desired;
        original_desired_access = original;
        operation = handle_access_op_code op;
      })))

-- The operation and the masks that go with it.
unfoldable pub decode_operation : ℕ → OperationParameters → HandleAccessOp × AccessMasks
decode_operation operation params =
    if operation == ob_operation_handle_create
    then (HandleAccessOp.create, params.create_handle_information)
    else (HandleAccessOp.duplicate, params.duplicate_handle_information)

unfoldable pub target_pid_of : Kernel → Ptr → ℕ
target_pid_of k object = if object == null then 0 else as_u32 (k.ps_get_process_id object)

-- The access-mask gate, and the event.
unfoldable pub gate_access : Kernel → ℕ → ℕ → HandleAccessOp × AccessMasks → M (Unit {0})
gate_access k source_pid target_pid (op, masks) =
    if bit_and masks.original_desired_access dangerous_process_mask == 0
    then pure tt
    else emit_handle_access k source_pid target_pid masks.desired_access
        masks.original_desired_access op

-- OB_PREOP_SUCCESS, the only value that the callback returns.
pub data PreopStatus : Type 0 where
  preop_success : PreopStatus

-- From `let params = info.Parameters` on.
unfoldable pub observe_parameters : Kernel → ℕ → ℕ → ℕ → Option OperationParameters → M (Unit {0})
unfolding gate_access
observe_parameters k source_pid target_pid operation none = pure tt
observe_parameters k source_pid target_pid operation (some params) =
    gate_access k source_pid target_pid (decode_operation operation params)

unfoldable pub observe_operation : Kernel → PreOperationInformation → M (Unit {0})
unfolding observe_parameters
observe_operation k info = if not (info.kernel_handle == 0) then pure tt else (do
  let target_pid = target_pid_of k info.object
  source_pid ← gets (λ w. as_u32 (k.ps_get_current_process_id w.log))
  if target_pid == source_pid
      then pure tt
      else observe_parameters k source_pid target_pid info.operation info.parameters)

unfoldable pub process_object_notify : Kernel → Option PreOperationInformation → M PreopStatus
unfolding observe_operation
process_object_notify k info = do
  elim info [ none ↦ pure tt | some i ↦ observe_operation k i ]
  pure PreopStatus.preop_success
