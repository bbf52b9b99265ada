-- ===== src/Concurrent/Owners.antt =====
-- What a processor holds at each point, and that one step hands everything on.
use wazabi_edr_driver.Base.{ℕ, ◌+◌, ◌≡◌, ◌≢◌, arith, count, if◌then◌else◌}
use wazabi_edr_driver.Wdk.{Ptr, null, Kernel}
use wazabi_edr_driver.State.{World}
use wazabi_edr_driver.Ring.{queue_push_locked, queue_pop_locked}
use wazabi_edr_driver.Ring.Inv.{IsValid}
use wazabi_edr_driver.Ring.Refine.{contents-advance_head, advance_head-IsValid}
use wazabi_edr_driver.Safety.{one_if, allocated, freed, received, completed, blocks, BlockSafe}
use wazabi_edr_driver.Safety.Blocks.{count-pushed}
use wazabi_edr_driver.Safety.Irps.{parked}
use wazabi_edr_driver.Concurrent.{
  Pc, building, submit_enter, submit_swap, submit_compare, deliver_copy, deliver_unlock,
  deliver_free, deliver_complete, reject_unlock, reject_free, reject_count, reject_complete,
  submit_push, control_read, control_enter, control_pop, control_popped, short_free, short_count,
  hand_copy, hand_free, control_park, control_unlock, cleanup_swap, cleanup_cancel, answer, action,
}

-- How often the processor owns the pool block `p`.
abbrev pub block_at : Ptr → Pc → ℕ
block_at p (building block ws e) = one_if block p
block_at p (submit_enter block size) = one_if block p
block_at p (submit_swap guard block size) = one_if block p
block_at p (submit_compare guard pending block size) = one_if block p
block_at p (deliver_copy guard pending block size) = one_if block p
block_at p (deliver_unlock guard pending block size) = one_if block p
block_at p (deliver_free pending block size) = one_if block p
block_at p (reject_unlock guard pending block size) = one_if block p
block_at p (reject_free pending block size) = one_if block p
block_at p (submit_push guard block size) = one_if block p
block_at p (control_popped guard irp outlen slot) = one_if slot.block p
block_at p (short_free irp slot) = one_if slot.block p
block_at p (hand_copy irp slot) = one_if slot.block p
block_at p (hand_free irp slot) = one_if slot.block p
block_at p _ = 0

-- How often the processor has the IRP `i` to complete. From the moment that it is parked, an IRP is
-- nobody's, also while its routine has still to mark it.
abbrev pub irp_at : Ptr → Pc → ℕ
irp_at i (submit_compare guard pending block size) = one_if pending i
irp_at i (deliver_copy guard pending block size) = one_if pending i
irp_at i (deliver_unlock guard pending block size) = one_if pending i
irp_at i (deliver_free pending block size) = one_if pending i
irp_at i (deliver_complete pending size) = one_if pending i
irp_at i (reject_unlock guard pending block size) = one_if pending i
irp_at i (reject_free pending block size) = one_if pending i
irp_at i (reject_count pending size) = one_if pending i
irp_at i (reject_complete pending size) = one_if pending i
irp_at i (control_read irp) = one_if irp i
irp_at i (control_enter irp outlen) = one_if irp i
irp_at i (control_pop guard irp outlen) = one_if irp i
irp_at i (control_popped guard irp outlen slot) = one_if irp i
irp_at i (short_free irp slot) = one_if irp i
irp_at i (short_count irp size) = one_if irp i
irp_at i (hand_copy irp slot) = one_if irp i
irp_at i (hand_free irp slot) = one_if irp i
irp_at i (control_park guard irp) = one_if irp i
irp_at i (control_unlock guard irp stored) = if stored then 0 else one_if irp i
irp_at i (cleanup_swap irp) = one_if irp i
irp_at i (cleanup_cancel irp pending) = one_if irp i + one_if pending i
irp_at i (answer irp status info) = one_if irp i
irp_at i _ = 0

-- `n` is how often the processors own the block, between them.
pub record BlockOwned (p : Ptr) (n : ℕ) (w : World) : Type 0 where
  pub valid : IsValid w.queue
  pub balance : allocated p w.log ≡ freed p w.log + count p (blocks w.queue) + n
  pub safe : BlockSafe p w.log

pub action-BlockOwned :
    (k : Kernel) (p : Ptr) (n : ℕ) (pc : Pc) (w : World)
    → BlockOwned p (block_at p pc + n) w
    → BlockOwned p (block_at p (action k pc w).0 + n) (action k pc w).1
unfolding action queue_push_locked queue_pop_locked blocks
action-BlockOwned k p n (submit_push guard block size) w o =
    ground (arith, count-pushed p (record { block = block; size = size }) w.queue o.valid)
action-BlockOwned k p n (control_pop guard irp outlen) w o =
    ground (arith, contents-advance_head w.queue o.valid, advance_head-IsValid w.queue o.valid)
action-BlockOwned k p n pc w o = ground arith

-- `n` is how often the processors have the IRP to complete, between them.
abbrev pub IrpOwned : Ptr → ℕ → World → Type 0
IrpOwned i n w = received i w.log ≡ completed i w.log + parked i w + n

pub action-IrpOwned :
    (k : Kernel) (i : Ptr) (n : ℕ) (pc : Pc) (w : World)
    → i ≢ null
    → IrpOwned i (irp_at i pc + n) w
    → IrpOwned i (irp_at i (action k pc w).0 + n) (action k pc w).1
unfolding action queue_push_locked queue_pop_locked
action-IrpOwned k i n pc w real o = ground arith
