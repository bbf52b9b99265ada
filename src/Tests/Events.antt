-- ===== src/Tests/Events.antt =====
-- A pool that hands out no block twice, and an event that goes through the queue.
use wazabi_edr_driver.Base.{ℕ, ◌+◌, ◌≡◌, ◌≤◌, ◌<◌, ◌⊎◌, inl, inr, refl, arith, List, [], ◌∷◌}
use wazabi_edr_driver.Wdk.{Ptr, Log, Kernel, allocate, status_success}
use wazabi_edr_driver.State.{World, loaded}
use wazabi_edr_driver.Base.{true}
use wazabi_edr_driver.Safety.Attempts.{attempts}
use wazabi_edr_driver.Safety.Attempts.Steps.{step-attempts}
use wazabi_edr_driver.Safety.Attempts.Reportable.{
  is_reportable, IsReportable, is_reportable-Decides,
}
use wazabi_edr_driver.Events.Event.{Event}
use wazabi_edr_driver.Ring.Refine.{contents}
use wazabi_edr_driver.Entry.{driver_entry}
use wazabi_edr_driver.Callbacks.Thread.{thread_notify, emit_thread_create}
use wazabi_edr_driver.Callbacks.Header.{alloc_event_for, submit}
use wazabi_edr_driver.Submit.{alloc_event, submit_event}
use wazabi_edr_driver.Ring.{queue_push_locked}
use wazabi_edr_driver.Safety.{allocated}
use wazabi_edr_driver.Safety.Sealed.{Sealed, Fresh}
use wazabi_edr_driver.Safety.Names.{names_got, names_released, session-Released}
use wazabi_edr_driver.Callbacks.Registry.{pre_set_value_key}
use wazabi_edr_driver.Callbacks.Registry.Prefix.{
  codes, is_interesting_path, matches_any, key_has_ascii_prefix_ci, prefix_loop, to_upper,
}
use wazabi_edr_driver.Base.{some, none}
use wazabi_edr_driver.Wdk.{UnicodeString, device_control}
use wazabi_edr_driver.System.{io, on_registry, Request, on_thread, session, run, step}
use wazabi_edr_driver.Callbacks.Preserve.Keys.{ReadableNames}
use wazabi_edr_driver.Tests.Setting.{kernel, ring_memory, pool_memory, irp_memory}

-- One more than every block that was handed out.
abbrev pub next : Log → ℕ
next [] = 1
next (allocate size b ∷ l) = b + next l
next (a ∷ l) = next l

abbrev pub careful : Kernel
careful = record kernel { ex_allocate_pool2 = λ l size. next l }

next-positive : (l : Log) → 0 < next l
next-positive [] = omega arith
next-positive (allocate size b ∷ l) = omega (arith, next-positive l)
next-positive (x ∷ l) = next-positive l

allocated-above : (p : Ptr) (l : Log) → next l ≤ p → allocated p l ≡ 0
allocated-above p [] h = refl
allocated-above p (allocate size b ∷ l) h =
    let rest = allocated-above p l (omega arith) in let some_ = next-positive l in ground arith
allocated-above p (x ∷ l) h = allocated-above p l h

pub careful-Fresh : Fresh careful
careful-Fresh = record {
  unused = λ l size n. let none_ = allocated-above (next l) l (omega arith) in omega (arith, none_);
}

-- A thread starts, and nobody waits for the event.
abbrev quiet : List Request
quiet = on_thread 8 9 1 ∷ []

abbrev queued : World
queued = session careful ring_memory pool_memory irp_memory quiet

queued_test : contents queued.queue ≡ record { block = 1; size = 36 } ∷ []
unfolding session run step driver_entry thread_notify emit_thread_create alloc_event_for alloc_event
    submit submit_event queue_push_locked contents
queued_test = refl

-- A thread starts, and the agent asks.
abbrev short : List Request
short = on_thread 8 9 1 ∷ io device_control 202 ∷ []

abbrev served : World
served = session careful ring_memory pool_memory irp_memory short

-- The value of a watched key is set.
abbrev watched_name : UnicodeString
watched_name = record { length_bytes = 28; buffer = some (codes "\\REGISTRY\\USER") }

abbrev watching : Kernel
watching = record careful {
  cm_callback_get_key_object_id_ex =
      λ l cookie o. record { status = status_success; pointer = 900; name = some watched_name };
}

watching-ReadableNames : ReadableNames watching
watching-ReadableNames l cookie o = record { units = λ us e. ground arith }

abbrev set_value : Request
set_value = on_registry (
    pre_set_value_key
      (some (record { object = 700; value_name = none; type_ = 1; value = none; data_size = 0 })))

abbrev setting : List Request
setting = set_value ∷ []

abbrev fresh_world : World
fresh_world = loaded ring_memory pool_memory irp_memory

set_value_test : is_reportable watching fresh_world set_value ≡ true
unfolding is_interesting_path matches_any key_has_ascii_prefix_ci prefix_loop to_upper
set_value_test = refl

-- So it is to be reported.
set_value-IsReportable : IsReportable watching fresh_world set_value
set_value-IsReportable = elim (is_reportable-Decides watching fresh_world set_value) [
  | inl (t, is) ↦ is
  | inr (f, no_) ↦ (let t = set_value_test in absurd (ground arith))
]

step-attempts_example :
    let w' = step watching fresh_world set_value in
    (IsReportable watching fresh_world set_value × (attempts w'.log ≡ attempts fresh_world.log + 1))
    ⊎ ((¬ IsReportable watching fresh_world set_value)
        × (attempts w'.log ≡ attempts fresh_world.log))
step-attempts_example = step-attempts watching watching-ReadableNames fresh_world set_value

session-Released_example :
    let w = session watching ring_memory pool_memory irp_memory setting in
    names_got 900 w.log ≡ names_released 900 w.log
session-Released_example =
    session-Released watching watching-ReadableNames ring_memory pool_memory irp_memory setting
      ((tt, tt), tt) 900
