-- ===== src/Submit.antt =====
-- queue/submit.rs: the producer side of the queue.
pub mod Paths
use wazabi_edr_driver.Base.{ℕ, ◌%◌, not, if◌then◌else◌, ◌==◌, leb}
use wazabi_edr_driver.Wdk.{
  Ptr, null, Kernel, allocate, allocate_failed, free, dbg_print, out_of_memory, status_success,
  status_buffer_too_small,
}
use wazabi_edr_driver.State.{add_u32, M, ◌>>=◌, ◌>>◌, pure, gets, modify, act, when}
use wazabi_edr_driver.SpinLock.{SpinLockGuard, acquire_guard, drop_guard}
use wazabi_edr_driver.Irp.{current_stack_location, complete_irp, copy_to_user}
use wazabi_edr_driver.Ring.{add_drop, queue_push_locked}

abbrev pub oom_log_every : ℕ
oom_log_every = 256

-- What `alloc_event` does when the pool is exhausted. `OOM_COUNT.fetch_add(1) + 1` is a `u32`.
unfoldable pub count_failure : M (Unit {0})
unfolding act add_drop
count_failure = do
  add_drop
  n ← gets (λ w. add_u32 w.oom_count 1)
  modify (λ w. record w { oom_count = n })
  when (n % oom_log_every == 0) (act (dbg_print out_of_memory))

unfoldable pub alloc_event : Kernel → ℕ → M Ptr
unfolding act count_failure
alloc_event k size = do
  buf ← gets (λ w. k.ex_allocate_pool2 w.log size)
  if buf == null then act (allocate_failed size) >> count_failure else act (allocate size buf)
  pure buf

-- Path 1: the waiting IRP's buffer takes the event.
unfoldable pub deliver : Ptr → Ptr → ℕ → M (Unit {0}) → M (Unit {0})
unfolding act copy_to_user complete_irp
deliver pending block size unlock = do
  copy_to_user pending block size
  unlock
  act (free block)
  status ← complete_irp pending status_success size
  pure tt

-- Path 2: the waiting IRP's buffer is too small.
unfoldable pub reject : Ptr → Ptr → ℕ → M (Unit {0}) → M (Unit {0})
unfolding act add_drop complete_irp
reject pending block size unlock = do
  unlock
  act (free block)
  add_drop
  status ← complete_irp pending status_buffer_too_small size
  pure tt

-- `PENDING_IRP.swap(null)`
unfoldable pub take_pending : M Ptr
take_pending w = (w.pending_irp, record w { pending_irp = null })

-- The body of `if !pending.is_null()`.
unfoldable pub answer_pending : SpinLockGuard → Ptr → Ptr → ℕ → M (Unit {0})
unfolding drop_guard current_stack_location deliver reject
answer_pending guard pending block size = do
  stack ← current_stack_location pending
  if leb size stack.output_buffer_length
      then deliver pending block size (drop_guard guard)
      else reject pending block size (drop_guard guard)

unfoldable pub submit_event : Kernel → Ptr → ℕ → M (Unit {0})
unfolding acquire_guard drop_guard take_pending answer_pending
submit_event k block size = do
  guard ← acquire_guard k
  pending ← take_pending
  if not (pending == null)
      then answer_pending guard pending block size
      else (do pushed ← queue_push_locked block size; drop_guard guard)
