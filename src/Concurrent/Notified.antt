-- ===== src/Concurrent/Notified.antt =====
-- The step in which a callback gets its block, and what it leaves alone.
use wazabi_edr_driver.Base.{ℕ, ◌+◌, ◌≡◌, ◌≢◌, inl, inr, arith, List, ℕ_discrete, none, ◌⊎◌}
use wazabi_edr_driver.Wdk.{Ptr, null, Kernel}
use wazabi_edr_driver.State.{World}
use wazabi_edr_driver.Events.Event.{Event}
use wazabi_edr_driver.Submit.{alloc_event}
use wazabi_edr_driver.Safety.{lock_state}
use wazabi_edr_driver.Concurrent.{report, building, finished}
use wazabi_edr_driver.Concurrent.Owners.{block_at, irp_at, BlockOwned, IrpOwned}
use wazabi_edr_driver.Concurrent.Section.{inside, LockUsed}

module _ (k : Kernel) (size : ℕ) (ws : List (List ℕ)) (e : Event) (w : World) where
  -- It touches neither the lock, the ring, the parked IRP nor any block.
  pub report-frame :
      let (pc, w') = report k size ws e w in
      (lock_state w'.log ≡ lock_state w.log)
      × (w'.queue ≡ w.queue)
      × (w'.pending_irp ≡ w.pending_irp)
      × (inside pc ≡ 0)
      × (w'.pool ≡ w.pool)
  unfolding report alloc_event
  report-frame = (ground arith, ground arith, ground arith, ground arith, ground arith)

  pub report-BlockOwned :
      (p : Ptr) (n : ℕ)
      → BlockOwned p n w
      → BlockOwned p (block_at p (report k size ws e w).0 + n) (report k size ws e w).1
  unfolding report alloc_event
  report-BlockOwned p n o = ground arith

  pub report-IrpOwned :
      (i : Ptr) (n : ℕ)
      → IrpOwned i n w
      → IrpOwned i (irp_at i (report k size ws e w).0 + n) (report k size ws e w).1
  unfolding report alloc_event
  report-IrpOwned i n o = ground arith

  pub report-LockUsed : LockUsed w.log → LockUsed (report k size ws e w).1.log
  unfolding report alloc_event
  report-LockUsed u = ground arith

  -- The pool's block, or nothing.
  pub report-ways :
      let b = k.ex_allocate_pool2 w.log size in
      let pc = (report k size ws e w).0 in
      ((b ≡ null) × (pc ≡ finished none)) ⊎ ((b ≢ null) × (pc ≡ building b ws e))
  unfolding report alloc_event
  report-ways = elim (ℕ_discrete (k.ex_allocate_pool2 w.log size) null) [
    | yes z ↦ inl (z, ground arith)
    | no n ↦ inr (n, ground arith)
  ]
