-- ===== src/Concurrent/Section.antt =====
-- The critical section of QUEUE_LOCK: what its holder may rely on, and that the others leave it alone.
use wazabi_edr_driver.Base.{ℕ, ◌+◌, ◌≡◌, ◌⊎◌, arith, [], ◌∷◌, none, some}
use wazabi_edr_driver.Wdk.{null, Log, acquire, release, Kernel}
use wazabi_edr_driver.State.{World}
use wazabi_edr_driver.SpinLock.{SpinLockGuard}
use wazabi_edr_driver.Ring.{queue_push_locked, queue_pop_locked}
use wazabi_edr_driver.Safety.{lock_state}
use wazabi_edr_driver.Concurrent.{
  Pc, submit_swap, submit_compare, deliver_copy, deliver_unlock, reject_unlock, submit_push,
  submit_unlock, control_pop, control_popped, control_park, control_unlock, action, Runnable,
}

-- 1 in the critical section, 0 outside.
abbrev pub inside : Pc → ℕ
inside (submit_swap guard block size) = 1
inside (submit_compare guard pending block size) = 1
inside (deliver_copy guard pending block size) = 1
inside (deliver_unlock guard pending block size) = 1
inside (reject_unlock guard pending block size) = 1
inside (submit_push guard block size) = 1
inside (submit_unlock guard) = 1
inside (control_pop guard irp outlen) = 1
inside (control_popped guard irp outlen slot) = 1
inside (control_park guard irp) = 1
inside (control_unlock guard irp stored) = 1
inside _ = 0

-- 1 while the lock is held, 0 while it is free.
abbrev pub held : World → ℕ
held w = elim (lock_state w.log) [ none ↦ 0 | some irql ↦ 1 ]

abbrev Holds : SpinLockGuard → World → Type 0
Holds guard w = lock_state w.log ≡ some guard.saved_irql

-- What a processor relies on: in the critical section, that the lock is held at its IRQL; where it is about
-- to queue an event, that no IRP is parked; where it is about to park, that the ring is empty.
abbrev pub Relies : Pc → World → Type 0
Relies (submit_swap guard block size) w = Holds guard w
Relies (submit_compare guard pending block size) w = Holds guard w
Relies (deliver_copy guard pending block size) w = Holds guard w
Relies (deliver_unlock guard pending block size) w = Holds guard w
Relies (reject_unlock guard pending block size) w = Holds guard w
Relies (submit_push guard block size) w = Holds guard w × (w.pending_irp ≡ null)
Relies (submit_unlock guard) w = Holds guard w
Relies (control_pop guard irp outlen) w = Holds guard w
Relies (control_popped guard irp outlen slot) w = Holds guard w
Relies (control_park guard irp) w = Holds guard w × (w.queue.len ≡ 0)
Relies (control_unlock guard irp stored) w = Holds guard w
Relies _ w = Unit

-- A processor that may step gives itself what it relies on next.
pub action-Relies :
    (k : Kernel) (pc : Pc) (w : World)
    → Runnable pc w
    → Relies pc w
    → Relies (action k pc w).0 (action k pc w).1
unfolding action queue_push_locked queue_pop_locked
action-Relies k pc w r h = ground arith

-- A step takes or drops the lock as it enters or leaves the critical section.
pub action-held :
    (k : Kernel) (n : ℕ) (pc : Pc) (w : World)
    → Runnable pc w
    → Relies pc w
    → inside pc + n ≡ held w
    → inside (action k pc w).0 + n ≡ held (action k pc w).1
unfolding action queue_push_locked queue_pop_locked
action-held k n pc w r h e = ground arith

-- The lock is not taken while it is held, and is released at the IRQL that taking it returned.
abbrev pub LockUsed : Log → Type 0
LockUsed [] = Unit
LockUsed (acquire irql ∷ l) = (lock_state l ≡ none) × LockUsed l
LockUsed (release irql ∷ l) = (lock_state l ≡ some irql) × LockUsed l
LockUsed (_ ∷ l) = LockUsed l

pub action-LockUsed :
    (k : Kernel) (pc : Pc) (w : World)
    → Runnable pc w
    → Relies pc w
    → LockUsed w.log
    → LockUsed (action k pc w).1.log
unfolding action queue_push_locked queue_pop_locked
action-LockUsed k pc w r h u = ground arith

-- No IRP is parked while an event is queued.
abbrev pub Exclusive : World → Type 0
Exclusive w = (w.pending_irp ≡ null) ⊎ (w.queue.len ≡ 0)

pub action-Exclusive :
    (k : Kernel) (pc : Pc) (w : World) → Relies pc w → Exclusive w → Exclusive (action k pc w).1
unfolding action queue_push_locked queue_pop_locked
action-Exclusive k pc w h e = ground arith

-- A step that starts outside leaves the ring alone, and while the lock is held it parks nothing.
pub outside-frame :
    (k : Kernel) (pc : Pc) (w : World)
    → inside pc ≡ 0
    → Runnable pc w
    → held w ≡ 1
    → let w' = (action k pc w).1 in
      (lock_state w'.log ≡ lock_state w.log)
      × (w'.queue ≡ w.queue)
      × ((w'.pending_irp ≡ w.pending_irp) ⊎ (w'.pending_irp ≡ null))
unfolding action
outside-frame k pc w e r h = ground arith

-- So it leaves what another processor relies on as it was.
pub frame-Relies :
    (pc : Pc) (w w' : World)
    → lock_state w'.log ≡ lock_state w.log
    → w'.queue ≡ w.queue
    → (w'.pending_irp ≡ w.pending_irp) ⊎ (w'.pending_irp ≡ null)
    → Relies pc w
    → Relies pc w'
frame-Relies pc w w' l q p h = ground arith

pub outside-Relies : (pc : Pc) (w : World) → inside pc ≡ 0 → Relies pc w
outside-Relies pc w e = ground arith
