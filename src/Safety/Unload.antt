-- ===== src/Safety/Unload.antt =====
-- DriverUnload leaves nothing behind.
use wazabi_edr_driver.Base.{
  ℕ, zero, suc, ◌≡◌, ◌≢◌, ◌<◌, inl, inr, refl, arith, [], ◌∷◌, ℕ_discrete, some, not, Bool-cases,
  ◌==◌,
}
use wazabi_edr_driver.Wdk.{Ptr, null, Kernel, free, acquire, delete_symlink}
use wazabi_edr_driver.State.{World, M, ◌>>=◌, when}
use wazabi_edr_driver.Submit.{take_pending}
use wazabi_edr_driver.Dispatch.{cancel}
use wazabi_edr_driver.SpinLock.{acquire_guard, drop_guard}
use wazabi_edr_driver.Safety.Lock.{Unlocked}
use wazabi_edr_driver.Ring.{queue_pop_locked, advance_head}
use wazabi_edr_driver.Ring.Refine.{contents-advance_head, advance_head-IsValid}
use wazabi_edr_driver.Entry.{drain, drain_queue, tear_down, symlink_name}
use wazabi_edr_driver.Entry.Kept.{EntryKept, unlinking, unmaking}
use wazabi_edr_driver.Strings.{wstr16}
use wazabi_edr_driver.Safety.{blocks, lock_state, LockSafe}
use wazabi_edr_driver.Safety.Blocks.{Owned}
use wazabi_edr_driver.Safety.Irps.{Answered}

-- The state after one round of the loop that finds an entry.
abbrev pub popped_and_freed : World → World
popped_and_freed w = record w {
  queue = advance_head w.queue;
  log = free (w.queue.buf w.queue.head).block ∷ w.log;
}

drain_stop : (fuel : ℕ) (w : World) → w.queue.len ≡ 0 → drain (suc fuel) w ≡ (tt, w)
unfolding drain queue_pop_locked
drain_stop fuel w e = ground arith

drain_round :
    (fuel : ℕ) (w : World) → w.queue.len ≢ 0 → drain (suc fuel) w ≡ drain fuel (popped_and_freed w)
unfolding drain queue_pop_locked
drain_round fuel w p = ground arith

-- An invariant of the loop's body is one of the loop.
pub drain-Kept :
    (P : World → Type 0)
    → ((w : World) → w.queue.len ≢ 0 → P w → P (popped_and_freed w))
    → (fuel : ℕ) (w : World) → P w
    → P (drain fuel w).1
unfolding drain
drain-Kept P body zero w q = q
drain-Kept P body (suc fuel) w q = elim (ℕ_discrete w.queue.len 0) [
  | yes e ↦ rw (drain_stop fuel w e) q
  | no p ↦ rw (drain_round fuel w p) (drain-Kept P body fuel _ (body w p q))
]

-- With more fuel than entries the loop ends on the empty ring.
drain-empty : (fuel : ℕ) (w : World) → w.queue.len < fuel → (drain fuel w).1.queue.len ≡ 0
drain-empty zero w h = absurd (omega arith)
drain-empty (suc fuel) w h = elim (ℕ_discrete w.queue.len 0) [
  | yes e ↦ rw (drain_stop fuel w e) e
  | no p ↦ rw (drain_round fuel w p) (drain-empty fuel (popped_and_freed w) (omega arith))
]

drain_body-Owned :
    (p : Ptr) (w : World) → w.queue.len ≢ 0 → Owned p [] w → Owned p [] (popped_and_freed w)
unfolding blocks
drain_body-Owned p w n o =
    ground (arith, contents-advance_head w.queue o.valid n, advance_head-IsValid w.queue o.valid n)

-- What is done to the IRP that waits.
abbrev pub cancel_waiting : M (Unit {0})
cancel_waiting = do pending ← take_pending; when (not (pending == null)) (cancel pending)

pub cancel_waiting-Owned : (p : Ptr) (w : World) → Owned p [] w → Owned p [] (cancel_waiting w).1
unfolding take_pending cancel
cancel_waiting-Owned p w o = ground arith

pub cancel_waiting-Answered :
    (p : Ptr) (w : World)
    → Answered p [] w
    → Answered p [] (cancel_waiting w).1 × ((cancel_waiting w).1.pending_irp ≡ null)
unfolding take_pending cancel
cancel_waiting-Answered p w a = ground arith

pub cancel_waiting-Unlocked : (w : World) → Unlocked w → Unlocked (cancel_waiting w).1
unfolding take_pending cancel
cancel_waiting-Unlocked w v = ground arith

-- The ring is empty, and every block that was allocated is freed.
abbrev pub Emptied : Ptr → World → Type 0
Emptied p w = (w.queue.len ≡ 0) × Owned p [] w

pub drain_queue-Emptied :
    (k : Kernel) (p : Ptr) (w : World) → Owned p [] w → Emptied p (drain_queue k w).1
unfolding drain_queue acquire_guard drop_guard
drain_queue-Emptied k p w o =
    let v : World = record w { log = acquire (k.ke_acquire_spin_lock w.log) ∷ w.log } in
    let q : Owned p [] v = ground arith in
    let done = drain-Kept (Owned p []) (drain_body-Owned p) (suc v.queue.len) v q in
    (
      drain-empty (suc v.queue.len) v (omega arith),
      record { valid = done.valid; balance = done.balance; safe = done.safe },
    )

-- What the loop keeps of IRP `i` and of the lock.
abbrev Draining : Ptr → ℕ → World → Type 0
Draining i irql w =
    (Answered i [] w × (w.pending_irp ≡ null)) × (lock_state w.log ≡ some irql) × LockSafe w.log

drain_body-Draining :
    (i : Ptr) (irql : ℕ) (w : World)
    → w.queue.len ≢ 0
    → Draining i irql w
    → Draining i irql (popped_and_freed w)
drain_body-Draining i irql w n ((a, idle), held, safe) =
    ((record { balance = a.balance; safe = a.safe }, idle), held, safe)

pub drain_queue-Draining :
    (k : Kernel) (i : Ptr) (w : World)
    → Answered i [] w
    → w.pending_irp ≡ null
    → Unlocked w
    → let w' = (drain_queue k w).1 in (Answered i [] w' × (w'.pending_irp ≡ null)) × Unlocked w'
unfolding drain_queue acquire_guard drop_guard
drain_queue-Draining k i w a idle u =
    let irql = k.ke_acquire_spin_lock w.log in
    let v : World = record w { log = acquire irql ∷ w.log } in
    let start : Draining i irql v =
      ((record { balance = a.balance; safe = a.safe }, idle), refl, (u.free_lock, u.safe)) in
    let ((b, still), held, safe) =
      drain-Kept (Draining i irql) (drain_body-Draining i irql) (suc v.queue.len) v start in
    (
      (record { balance = b.balance; safe = b.safe }, still),
      record { free_lock = refl; safe = (held, safe) },
    )

-- The last two steps log, and reset the device, no more.
pub tear_down-Kept : {P : World → Type 0} → EntryKept P → (w : World) → P w → P (tear_down w).1
unfolding tear_down
tear_down-Kept kept w q =
    let a = kept.acts _ w (unlinking (wstr16 symlink_name)) q in
    let b =
      kept.sets _
        (record w { log = delete_symlink (wstr16 symlink_name) ∷ w.log; control_device = null })
        refl a in
    elim (Bool-cases (not (w.control_device == null))) [
      | inl t ↦ rw t (kept.acts _ _ (unmaking _) b)
      | inr t ↦ rw t b
    ]
