-- ===== src/Safety/Sealed/Answers.antt =====
-- The answers of a session, which submit_event and dispatch_device_control give.
use wazabi_edr_driver.Base.{ℕ, ◌≡◌, ◌≢◌, ◌⊎◌, List, take}
use wazabi_edr_driver.Wdk.{Ptr, status_success}
use wazabi_edr_driver.State.{World}
use wazabi_edr_driver.Safety.{completed}
use wazabi_edr_driver.Wdk.{NtStatus}
use wazabi_edr_driver.Events.Event.{Event, event_bytes}
use wazabi_edr_driver.Callbacks.Kept.{Kept, WellFormed}
use wazabi_edr_driver.Callbacks.Delivered.{answer}
use wazabi_edr_driver.Safety.Sealed.{Sealed}

-- An answer with success and some bytes is one event of the kind.
abbrev pub Filled : (Event → Type 0) → NtStatus → ℕ → List ℕ → Type 0
Filled Good status information buffer =
    (status ≢ status_success)
    ⊎ ((information ≡ 0)
        ⊎ ((e : Event) × WellFormed e × Good e × (take information buffer ≡ event_bytes e)))

module _ (Good : Event → Type 0) (i : Ptr) where
  abbrev Both : Event → Type 0
  Both e = WellFormed e × Good e

  abbrev AnswerOf : World → Type 0
  AnswerOf w =
      (completed i w.log ≡ 0)
      ⊎ Filled Good (w.irps i).status (w.irps i).information (w.irps i).system_buffer

  -- The invariant: what the queue holds, and what the IRP was completed with.
  record Answering (held : List Ptr) (w : World) : Type 0 where
    queue : Sealed Both held w
    answer : AnswerOf w
