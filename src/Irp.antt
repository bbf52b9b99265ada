-- ===== src/Irp.antt =====
-- ipc/irp.rs: helpers on IRPs. Each access through the pointer is recorded.
use wazabi_edr_driver.Base.{ℕ, bit_or, copy_into}
use wazabi_edr_driver.Wdk.{Ptr, NtStatus, Irp, access_irp, access_block, write_user, complete}
use wazabi_edr_driver.State.{update, M, ◌>>=◌, ◌>>◌, pure, gets, modify, act}

-- `SL_PENDING_RETURNED`
abbrev pub sl_pending_returned : ℕ
sl_pending_returned = 0x01

-- The stack location is part of the model's IRP, so this reads the IRP.
unfoldable pub current_stack_location : Ptr → M Irp
unfolding act
current_stack_location irp = do act (access_irp irp); gets (λ w. w.irps irp)

abbrev set_irp : Ptr → (Irp → Irp) → M (Unit {0})
set_irp irp f = modify (λ w. record w { irps = update w.irps irp (f (w.irps irp)) })

unfoldable pub mark_irp_pending : Ptr → M (Unit {0})
unfolding current_stack_location
mark_irp_pending irp = do
  stack ← current_stack_location irp
  set_irp irp (λ i. record i { control = bit_or i.control sl_pending_returned })

unfoldable pub complete_irp : Ptr → NtStatus → ℕ → M NtStatus
unfolding act
complete_irp irp status info = do
  act (access_irp irp)
  set_irp irp (λ i. record i { status = status; information = info })
  act (complete irp status info)
  pure status

-- `ptr::copy_nonoverlapping(block, SystemBuffer, size)`
unfoldable pub copy_to_user : Ptr → Ptr → ℕ → M (Unit {0})
unfolding act
copy_to_user irp block size = do
  act (access_irp irp)
  act (access_block block)
  bytes ← gets (λ w. w.pool block)
  set_irp irp (λ i. record i { system_buffer = copy_into bytes i.system_buffer size })
  act (write_user irp size)
