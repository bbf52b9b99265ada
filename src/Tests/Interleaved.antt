-- ===== src/Tests/Interleaved.antt =====
-- Two processors: a request that is parked while a thread's start is reported.
use wazabi_edr_driver.Base.{ℕ, ◌+◌, ◌*◌, ◌≡◌, ◌≤◌, ◌⊎◌, refl, arith, [], ◌∷◌, none, length}
use wazabi_edr_driver.Wdk.{receive, device_control}
use wazabi_edr_driver.State.{World}
use wazabi_edr_driver.Dispatch.{ioctl_wedr_get_event}
use wazabi_edr_driver.Entry.{driver_entry}
use wazabi_edr_driver.Safety.{lock_state, received, completed, IrpSafe}
use wazabi_edr_driver.Concurrent.{
  finished, control_read, control_mark, action, called, Machine, Move, move, request, Reach, start,
  later,
}
use wazabi_edr_driver.Concurrent.Owners.{block_at, irp_at, BlockOwned, IrpOwned}
use wazabi_edr_driver.Concurrent.Section.{inside, held, LockUsed, Exclusive}
use wazabi_edr_driver.Concurrent.Invariant.{total}
use wazabi_edr_driver.Concurrent.Safe.{
  started, Reach-BlockOwned, Reach-IrpOwned, Reach-exclusion, Reach-IrpSafe,
}
use wazabi_edr_driver.Concurrent.Progress.{
  Moves, steps_left, pending_writes, AtRest, Moves-rest, Reach-AtRest,
}
use wazabi_edr_driver.Concurrent.Race.{control_mark-races}
use wazabi_edr_driver.Tests.Setting.{kernel, ring_memory, pool_memory, irp_memory}
use wazabi_edr_driver.Tests.Wire.{created}

abbrev begin : World
begin = started kernel ring_memory pool_memory irp_memory

begin_free : lock_state begin.log ≡ none
unfolding driver_entry
begin_free = refl

-- IRP 202 is handed over, and its routine starts.
abbrev asked : Machine
asked = record {
  world = record begin { log = receive 202 ∷ begin.log };
  threads = called device_control 202 ∷ [];
}

asked-Reach : Reach kernel begin asked
asked-Reach = later start (request device_control 202 begin [] (ground arith))

asked-IrpSafe : IrpSafe 202 asked.world.log
unfolding driver_entry
asked-IrpSafe = ground arith

abbrev read : Machine
read = record {
  world = (action kernel (control_read 202) asked.world).1;
  threads = (action kernel (control_read 202) asked.world).0 ∷ [];
}

asked-Moves : Moves kernel 1 asked read
asked-Moves = Moves.first (move [] [] (control_read 202) asked.world tt) Moves.rest

Reach-BlockOwned_example : BlockOwned 7 (total (block_at 7) asked.threads) asked.world
Reach-BlockOwned_example = Reach-BlockOwned kernel ring_memory pool_memory irp_memory asked-Reach 7

Reach-IrpOwned_example : IrpOwned 202 (total (irp_at 202) asked.threads) asked.world
Reach-IrpOwned_example =
    Reach-IrpOwned kernel ring_memory pool_memory irp_memory asked-Reach 202 (ground arith)

Reach-exclusion_example :
    (total inside asked.threads ≤ 1)
    × (total inside asked.threads ≡ held asked.world)
    × LockUsed asked.world.log
    × Exclusive asked.world
Reach-exclusion_example = Reach-exclusion kernel ring_memory pool_memory irp_memory asked-Reach

Reach-IrpSafe_example : IrpSafe 202 (action kernel (called device_control 202) asked.world).1.log
Reach-IrpSafe_example =
    Reach-IrpSafe kernel ring_memory pool_memory irp_memory 202 [] [] (called device_control 202)
      asked.world asked-Reach (ground arith) (ground arith) asked-IrpSafe

Moves-rest_example :
    (1 + steps_left read ≤ 8 * length asked.threads + total pending_writes asked.threads)
    × (AtRest read ⊎ ((u : Machine) × Move kernel read u))
Moves-rest_example =
    Moves-rest kernel ring_memory pool_memory irp_memory 1 asked read asked-Reach asked-Moves

Reach-AtRest_example : (n : ℕ) × (t : Machine) × Moves kernel n asked t × AtRest t
Reach-AtRest_example = Reach-AtRest kernel ring_memory pool_memory irp_memory asked asked-Reach

control_mark-races_example :
    (w : World) × Reach kernel begin
      (record { world = w; threads = finished none ∷ control_mark 202 ∷ [] })
    × (received 202 w.log ≡ completed 202 w.log)
    × ¬ IrpSafe 202 (action kernel (control_mark 202) w).1.log
unfolding ioctl_wedr_get_event
control_mark-races_example =
    control_mark-races kernel ring_memory pool_memory irp_memory 202 36 created (ground arith) refl
      (λ l. ground arith)
