-- ===== src/Ring/Inv.antt =====
-- The invariant of the ring: indices in range, and the tail just past the last live entry.
use wazabi_edr_driver.Base.{ℕ, ◌+◌, ◌%◌, ◌≡◌, ◌≤◌, ◌<◌, arith}
use wazabi_edr_driver.Wdk.{Ptr}
use wazabi_edr_driver.State.{Ring, World, queue_cap}
use wazabi_edr_driver.Ring.{queue_push_locked, queue_pop_locked}

pub record IsValid (q : Ring) : Type 0 where
  pub head_in : q.head < queue_cap
  pub len_in : q.len ≤ queue_cap
  pub tail_at : q.tail ≡ (q.head + q.len) % queue_cap

-- `queue_push_locked` keeps the ring valid, whether or not it evicts.
pub queue_push_locked-IsValid :
    (block : Ptr) (size : ℕ) (w : World)
    → IsValid w.queue
    → IsValid (queue_push_locked block size w).1.queue
unfolding queue_push_locked
queue_push_locked-IsValid block size w v = ground arith

-- `queue_pop_locked` keeps the ring valid.
pub queue_pop_locked-IsValid : (w : World) → IsValid w.queue → IsValid (queue_pop_locked w).1.queue
unfolding queue_pop_locked
queue_pop_locked-IsValid w v = ground arith
