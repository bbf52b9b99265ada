-- ===== src/Ring.antt =====
-- queue/ring.rs: the ring buffer of queued events. The caller holds QUEUE_LOCK.
pub mod Inv
pub mod Refine
use wazabi_edr_driver.Base.{ℕ, ◌-◌, ◌%◌, Bool, true, Option, none, some, if◌then◌else◌, ◌==◌}
use wazabi_edr_driver.Wdk.{Ptr, free}
use wazabi_edr_driver.State.{
  Slot, Ring, World, queue_cap, update, add_u32, add_usize, M, ◌>>=◌, ◌>>◌, pure, gets, modify, act,
  when,
}

-- `*head = (*head + 1) % QUEUE_CAP; *len -= 1`, where `*len` is not 0
abbrev pub advance_head : Ring → Ring
advance_head q = record q { head = add_usize q.head 1 % queue_cap; len = q.len - 1 }

-- `*buf.add(*tail) = slot; *tail = (*tail + 1) % QUEUE_CAP; *len += 1`
abbrev pub store_tail : Slot → Ring → Ring
store_tail s q = record q {
  buf = update q.buf q.tail s;
  tail = add_usize q.tail 1 % queue_cap;
  len = add_usize q.len 1;
}

-- `DROP_COUNT.fetch_add(1, Ordering::Relaxed)`
unfoldable pub add_drop : M (Unit {0})
add_drop = modify (λ w. record w { drop_count = add_u32 w.drop_count 1 })

-- The body of `if *len == QUEUE_CAP`.
unfoldable pub evict_oldest : M (Unit {0})
unfolding act add_drop
evict_oldest = do
  old ← gets (λ w. w.queue.buf w.queue.head)
  act (free old.block)
  modify (λ w. record w { queue = advance_head w.queue })
  add_drop

unfoldable pub queue_push_locked : Ptr → ℕ → M Bool
unfolding evict_oldest
queue_push_locked block size = do
  full ← gets (λ w. w.queue.len == queue_cap)
  when full evict_oldest
  modify (λ w. record w { queue = store_tail (record { block = block; size = size }) w.queue })
  pure true

unfoldable pub queue_pop_locked : M (Option Slot)
queue_pop_locked w =
    let q = w.queue in
    if q.len == 0 then (none, w) else (some (q.buf q.head), record w { queue = advance_head q })
