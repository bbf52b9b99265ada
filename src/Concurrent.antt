-- ===== src/Concurrent.antt =====
-- queue/submit.rs and ipc/dispatch.rs on several processors: each routine as a sequence of steps, between
-- which the others run. What only the lock's holder can reach is done in one step; every other
-- access to shared state, and every kernel call, is a step of its own.
pub mod Alone
pub mod Owners
pub mod Section
pub mod Notified
pub mod Invariant
pub mod Safe
pub mod Charges
pub mod Whole
pub mod Answers
pub mod Drops
pub mod Sessions
pub mod Progress
pub mod Race
use wazabi_edr_driver.Base.{
  ℕ, ◌≡◌, List, [], ◌∷◌, ◌++◌, Bool, true, false, not, Option, none, some, if◌then◌else◌, ◌==◌, ltb,
  leb,
}
use wazabi_edr_driver.Wdk.{
  get_key_name, release_key_name, Ptr, null, NtStatus, Kernel, DispatchRoutine, create_close,
  cleanup, device_control, invalid, free, receive, status_success, status_pending,
  status_unsuccessful, status_cancelled, status_invalid_device_request, status_buffer_too_small,
}
use wazabi_edr_driver.State.{Slot, World, M, add_u32, ◌>>=◌, ◌>>◌, pure, modify, act}
use wazabi_edr_driver.SpinLock.{SpinLockGuard, acquire_guard, drop_guard}
use wazabi_edr_driver.Irp.{current_stack_location, mark_irp_pending, complete_irp, copy_to_user}
use wazabi_edr_driver.Ring.{add_drop, queue_push_locked, queue_pop_locked}
use wazabi_edr_driver.Events.Event.{Event, event_bytes, event_size}
use wazabi_edr_driver.Submit.{take_pending, alloc_event}
use wazabi_edr_driver.Dispatch.{ioctl_wedr_get_event, park}
use wazabi_edr_driver.Callbacks.Header.{write_block}
use wazabi_edr_driver.Safety.{lock_state}

-- Where a processor stands, with its local variables.
pub data Pc : Type 0 where
  -- returned; a dispatch routine returns a status
  finished : Option NtStatus → Pc
  -- a callback that owns its block, with the writes to it that are still to come before its event
  building : Ptr → List (List ℕ) → Event → Pc
  -- submit_event, up to the three ways
  submit_enter : Ptr → ℕ → Pc
  submit_swap : SpinLockGuard → Ptr → ℕ → Pc
  submit_compare : SpinLockGuard → Ptr → Ptr → ℕ → Pc
  -- path 1
  deliver_copy : SpinLockGuard → Ptr → Ptr → ℕ → Pc
  deliver_unlock : SpinLockGuard → Ptr → Ptr → ℕ → Pc
  deliver_free : Ptr → Ptr → ℕ → Pc
  deliver_complete : Ptr → ℕ → Pc
  -- path 2
  reject_unlock : SpinLockGuard → Ptr → Ptr → ℕ → Pc
  reject_free : Ptr → Ptr → ℕ → Pc
  reject_count : Ptr → ℕ → Pc
  reject_complete : Ptr → ℕ → Pc
  -- path 3
  submit_push : SpinLockGuard → Ptr → ℕ → Pc
  submit_unlock : SpinLockGuard → Pc
  -- dispatch_device_control
  control_read : Ptr → Pc
  control_enter : Ptr → ℕ → Pc
  control_pop : SpinLockGuard → Ptr → ℕ → Pc
  control_popped : SpinLockGuard → Ptr → ℕ → Slot → Pc
  short_free : Ptr → Slot → Pc
  short_count : Ptr → ℕ → Pc
  hand_copy : Ptr → Slot → Pc
  hand_free : Ptr → Slot → Pc
  control_park : SpinLockGuard → Ptr → Pc
  control_unlock : SpinLockGuard → Ptr → Bool → Pc
  control_mark : Ptr → Pc
  -- dispatch_cleanup
  cleanup_swap : Ptr → Pc
  cleanup_cancel : Ptr → Ptr → Pc
  -- `return complete_irp(irp, status, info)`
  answer : Ptr → NtStatus → ℕ → Pc

-- The next step: what it does, and where the processor stands then.
unfoldable pub action : Kernel → Pc → M Pc
unfolding act add_drop take_pending park acquire_guard drop_guard current_stack_location
    mark_irp_pending complete_irp copy_to_user write_block
action k (finished status) = pure (finished status)
-- callbacks, from the allocation to submit_event
action k (building block [] e) =
    write_block block (event_bytes e) >> pure (submit_enter block (event_size e))
action k (building block (bytes ∷ ws) e) = write_block block bytes >> pure (building block ws e)
-- queue/submit.rs, submit_event
action k (submit_enter block size) = do guard ← acquire_guard k; pure (submit_swap guard block size)
action k (submit_swap guard block size) = do
  pending ← take_pending
  pure (
      if pending == null
      then submit_push guard block size
      else submit_compare guard pending block size)
action k (submit_compare guard pending block size) = do
  stack ← current_stack_location pending
  pure (
      if leb size stack.output_buffer_length
      then deliver_copy guard pending block size
      else reject_unlock guard pending block size)
action k (deliver_copy guard pending block size) =
    copy_to_user pending block size >> pure (deliver_unlock guard pending block size)
action k (deliver_unlock guard pending block size) =
    drop_guard guard >> pure (deliver_free pending block size)
action k (deliver_free pending block size) =
    act (free block) >> pure (deliver_complete pending size)
action k (deliver_complete pending size) = do
  status ← complete_irp pending status_success size
  pure (finished none)
action k (reject_unlock guard pending block size) =
    drop_guard guard >> pure (reject_free pending block size)
action k (reject_free pending block size) = act (free block) >> pure (reject_count pending size)
action k (reject_count pending size) = add_drop >> pure (reject_complete pending size)
action k (reject_complete pending size) = do
  status ← complete_irp pending status_buffer_too_small size
  pure (finished none)
action k (submit_push guard block size) = do
  pushed ← queue_push_locked block size
  pure (submit_unlock guard)
action k (submit_unlock guard) = drop_guard guard >> pure (finished none)
-- ipc/dispatch.rs, dispatch_device_control
action k (control_read irp) = do
  stack ← current_stack_location irp
  pure (
      if not (stack.io_control_code == ioctl_wedr_get_event)
      then answer irp status_invalid_device_request 0
      else control_enter irp stack.output_buffer_length)
action k (control_enter irp outlen) = do
  guard ← acquire_guard k
  pure (control_pop guard irp outlen)
action k (control_pop guard irp outlen) = do
  popped ← queue_pop_locked
  pure (elim popped [
    | some slot ↦ control_popped guard irp outlen slot
    | none ↦ control_park guard irp
  ])
action k (control_popped guard irp outlen slot) =
    drop_guard guard
    >> pure (if ltb outlen slot.size then short_free irp slot else hand_copy irp slot)
action k (short_free irp slot) = act (free slot.block) >> pure (short_count irp slot.size)
action k (short_count irp size) = add_drop >> pure (answer irp status_buffer_too_small size)
action k (hand_copy irp slot) = copy_to_user irp slot.block slot.size >> pure (hand_free irp slot)
action k (hand_free irp slot) = act (free slot.block) >> pure (answer irp status_success slot.size)
action k (control_park guard irp) = do stored ← park irp; pure (control_unlock guard irp stored)
action k (control_unlock guard irp stored) =
    drop_guard guard >> pure (if stored then control_mark irp else answer irp status_unsuccessful 0)
action k (control_mark irp) = mark_irp_pending irp >> pure (finished (some status_pending))
-- ipc/dispatch.rs, dispatch_cleanup
action k (cleanup_swap irp) = do
  pending ← take_pending
  pure (if pending == null then answer irp status_success 0 else cleanup_cancel irp pending)
action k (cleanup_cancel irp pending) = do
  status ← complete_irp pending status_cancelled 0
  pure (answer irp status_success 0)
-- ipc/irp.rs, complete_irp at the end of a routine
action k (answer irp status info) = do
  result ← complete_irp irp status info
  pure (finished (some result))

-- Only taking the lock can wait, and what has returned does not step.
abbrev pub Runnable : Pc → World → Type 0
Runnable (finished status) w = ⊥
Runnable (submit_enter block size) w = lock_state w.log ≡ none
Runnable (control_enter irp outlen) w = lock_state w.log ≡ none
Runnable _ w = Unit

-- Where the I/O manager's call of a routine starts.
abbrev pub called : DispatchRoutine → Ptr → Pc
called create_close irp = answer irp status_success 0
called cleanup irp = cleanup_swap irp
called device_control irp = control_read irp
called invalid irp = answer irp status_invalid_device_request 0

-- A callback allocates a block for `ws` and `e`, or gives up.
unfoldable pub report : Kernel → ℕ → List (List ℕ) → Event → M Pc
unfolding alloc_event
report k size ws e = do
  block ← alloc_event k size
  pure (if block == null then finished none else building block ws e)

pub record Machine : Type 0 where
  pub world : World
  pub threads : List Pc

-- Some processor takes its next step.
pub data Move (k : Kernel) : Machine → Machine → Type 0 where
  move :
      (before after : List Pc) (pc : Pc) (w : World)
      → Runnable pc w
      → Move k
          (record { world = w; threads = before ++ pc ∷ after })
          (record { world = (action k pc w).1; threads = before ++ (action k pc w).0 ∷ after })

-- A step of the machine: a move, a request, or what a callback does while it owns no block or does to
-- shared counters.
pub data Step (k : Kernel) : Machine → Machine → Type 0 where
  step : {s t : Machine} → Move k s t → Step k s t
  request :
      (routine : DispatchRoutine) (irp : Ptr) (w : World) (ts : List Pc)
      → (irp ≡ null → ⊥)
      → Step k
          (record { world = w; threads = ts })
          (record {
            world = record w { log = receive irp ∷ w.log };
            threads = called routine irp ∷ ts;
          })
  notify :
      (before after : List Pc) (size : ℕ) (ws : List (List ℕ)) (e : Event) (w : World)
      → Step k
          (record { world = w; threads = before ++ after })
          (record {
            world = (report k size ws e w).1;
            threads = before ++ (report k size ws e w).0 ∷ after;
          })
  -- the two swaps of make_header
  take_drops :
      (w : World) (ts : List Pc)
      → Step k
          (record { world = w; threads = ts })
          (record { world = record w { drop_count = 0 }; threads = ts })
  take_truncs :
      (w : World) (ts : List Pc)
      → Step k
          (record { world = w; threads = ts })
          (record { world = record w { trunc_count = 0 }; threads = ts })
  -- a string that is cut
  cut :
      (w : World) (ts : List Pc)
      → Step k
          (record { world = w; threads = ts })
          (record { world = record w { trunc_count = add_u32 w.trunc_count 1 }; threads = ts })
  -- the name of a key, got and released
  look_up :
      (object : Ptr) (w : World) (ts : List Pc)
      → Step k
          (record { world = w; threads = ts })
          (record {
            world = record w { log = release_key_name object ∷ get_key_name object ∷ w.log };
            threads = ts;
          })

-- The machines that can come up from a world in which nobody runs.
pub data Reach (k : Kernel) (w : World) : Machine → Type 0 where
  start : Reach k w (record { world = w; threads = [] })
  later : {s t : Machine} → Reach k w s → Step k s t → Reach k w t
