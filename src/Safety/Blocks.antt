-- ===== src/Safety/Blocks.antt =====
-- Ownership of pool blocks: each is in the ring, in a callback's hands, or freed.
use wazabi_edr_driver.Base.{
  ℕ, ◌+◌, ◌≡◌, ◌≢◌, ◌⊎◌, arith, List, [], ◌∷◌, ◌++◌, map, count, if◌then◌else◌,
}
use wazabi_edr_driver.Wdk.{Ptr, null, Kernel}
use wazabi_edr_driver.State.{Slot, Ring, World}
use wazabi_edr_driver.Ring.{advance_head, queue_push_locked, queue_pop_locked}
use wazabi_edr_driver.Ring.Inv.{IsValid}
use wazabi_edr_driver.Ring.Refine.{
  contents, fifo_push, contents-pushed, pushed, is_full, length-contents, contents-advance_head,
  advance_head-IsValid,
}
use wazabi_edr_driver.Submit.{alloc_event, submit_event}
use wazabi_edr_driver.Dispatch.{
  dispatch_create_close, dispatch_invalid, dispatch_cleanup, dispatch_device_control,
}
use wazabi_edr_driver.Safety.{one_if, BlockSafe, allocated, freed, blocks}

count-map-append :
    (p : Ptr) (xs ys : List Slot)
    → count p (map (λ s. s.block) (xs ++ ys))
      ≡ count p (map (λ s. s.block) xs) + count p (map (λ s. s.block) ys)
count-map-append p [] ys = omega arith
count-map-append p (x ∷ xs) ys = omega (arith, count-map-append p xs ys)

-- A push takes one block in, and lets the oldest go when the ring is full.
pub count-pushed :
    (p : Ptr) (s : Slot) (q : Ring)
    → IsValid q
    → count p (blocks (pushed s q)) + (if is_full q then one_if (q.buf q.head).block p else 0)
      ≡ count p (blocks q) + one_if s.block p
unfolding blocks fifo_push
count-pushed p s q v = ground (
  arith,
  contents-pushed s q v,
  length-contents q,
  contents-advance_head q v,
  count-map-append p (contents q) (s ∷ []),
  count-map-append p (contents (advance_head q)) (s ∷ []),
)

-- Every block that was ever allocated has been freed, or is in the ring, or is in `held`; and no block
-- was touched or freed but by its owner.
pub record Owned (p : Ptr) (held : List Ptr) (w : World) : Type 0 where
  pub valid : IsValid w.queue
  pub balance : allocated p w.log ≡ freed p w.log + count p (blocks w.queue) + count p held
  pub safe : BlockSafe p w.log

module _ (k : Kernel) (p : Ptr) (held : List Ptr) where
  pub alloc_event-Owned :
      (size : ℕ) (w : World)
      → Owned p held w
      → let (b, w') = alloc_event k size w in
        ((b ≡ null) × Owned p held w') ⊎ ((b ≢ null) × Owned p (b ∷ held) w')
  unfolding alloc_event
  alloc_event-Owned size w o = ground arith

  pub submit_event-Owned :
      (b : Ptr) (size : ℕ) (w : World)
      → Owned p (b ∷ held) w
      → Owned p held (submit_event k b size w).1
  unfolding submit_event queue_push_locked
  submit_event-Owned b size w o =
      ground (arith, count-pushed p (record { block = b; size = size }) w.queue o.valid)

  pub dispatch_device_control-Owned :
      (irp : Ptr) (w : World) → Owned p held w → Owned p held (dispatch_device_control k irp w).1
  unfolding dispatch_device_control queue_pop_locked blocks
  dispatch_device_control-Owned irp w o =
      ground (arith, contents-advance_head w.queue o.valid, advance_head-IsValid w.queue o.valid)

pub dispatch_cleanup-Owned :
    (p : Ptr) (held : List Ptr) (irp : Ptr) (w : World)
    → Owned p held w
    → Owned p held (dispatch_cleanup irp w).1
unfolding dispatch_cleanup
dispatch_cleanup-Owned p held irp w o = ground arith

pub dispatch_create_close-Owned :
    (p : Ptr) (held : List Ptr) (irp : Ptr) (w : World)
    → Owned p held w
    → Owned p held (dispatch_create_close irp w).1
unfolding dispatch_create_close
dispatch_create_close-Owned p held irp w o = ground arith

pub dispatch_invalid-Owned :
    (p : Ptr) (held : List Ptr) (irp : Ptr) (w : World)
    → Owned p held w
    → Owned p held (dispatch_invalid irp w).1
unfolding dispatch_invalid
dispatch_invalid-Owned p held irp w o = ground arith
