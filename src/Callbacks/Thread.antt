-- ===== src/Callbacks/Thread.antt =====
-- callbacks/thread.rs: thread creation and exit.
use wazabi_edr_driver.Base.{ℕ, not, if◌then◌else◌, ◌==◌}
use wazabi_edr_driver.Wdk.{Ptr, Kernel, as_u32}
use wazabi_edr_driver.State.{M, ◌>>=◌, gets}
use wazabi_edr_driver.Events.{EventType, size_of_thread_create, size_of_thread_exit}
use wazabi_edr_driver.Events.Event.{Event}
use wazabi_edr_driver.Callbacks.Header.{alloc_event_for, submit, unless_null}

unfoldable pub emit_thread_create : Kernel → ℕ → ℕ → M (Unit {0})
emit_thread_create k pid tid = do
  evt ← alloc_event_for k size_of_thread_create EventType.thread_create
  unless_null evt (λ p header. do
    creator ← gets (λ w. as_u32 (k.ps_get_current_process_id w.log))
    submit k p (
        Event.thread_create (record {
          header = header;
          process_id = pid;
          thread_id = tid;
          creating_process_id = creator;
        })))

unfoldable pub emit_thread_exit : Kernel → ℕ → ℕ → M (Unit {0})
emit_thread_exit k pid tid = do
  evt ← alloc_event_for k size_of_thread_exit EventType.thread_exit
  unless_null evt (λ p header.
      submit k p
        (Event.thread_exit (record { header = header; process_id = pid; thread_id = tid })))

-- `create` is a BOOLEAN.
unfoldable pub thread_notify : Kernel → Ptr → Ptr → ℕ → M (Unit {0})
thread_notify k process_id thread_id create =
    let pid = as_u32 process_id in
    let tid = as_u32 thread_id in
    if not (create == 0) then emit_thread_create k pid tid else emit_thread_exit k pid tid
