-- ===== src/Concurrent/Sessions.antt =====
-- The sequential driver of System as runs of the machine, in which each routine is let through to its end.
use wazabi_edr_driver.Base.{ℕ, ◌≡◌, List, [], ◌∷◌, ◌++◌}
use wazabi_edr_driver.Wdk.{Ptr, Kernel}
use wazabi_edr_driver.State.{World}
use wazabi_edr_driver.Events.Event.{Event, thread_exit}
use wazabi_edr_driver.Callbacks.Kept.{Kept, WellFormed}
use wazabi_edr_driver.Safety.Lock.{Unlocked}
use wazabi_edr_driver.Concurrent.{Pc, building, Step, Reach}
use wazabi_edr_driver.Concurrent.Answers.{StepReports, Reports}
use wazabi_edr_driver.Concurrent.Invariant.{total}
use wazabi_edr_driver.Concurrent.Progress.{left}

-- The event that is named when there turns out to be no block for it.
abbrev no_event : Event
no_event = thread_exit (record {
  header = record {
    version = 0;
    type_ = 0;
    timestamp = 0;
    size = 0;
    drop_count = 0;
    trunc_count = 0;
  };
  process_id = 0;
  thread_id = 0;
})

module _ (k : Kernel) (Good : Event → Type 0) (w0 : World) where
  abbrev Both : Event → Type 0
  Both e = WellFormed e × Good e

  -- The machine can stand at `ts` in the world `w`, below a callback's processor for each block of `held`,
  -- whatever those processors have still to write.
  Running : List Ptr → List Pc → World → Type 0
  Running [] ts w = (r : Reach k w0 (record { world = w; threads = ts })) × Reports Both r
  Running (b ∷ held) ts w =
      (ws : List (List ℕ)) (e : Event) → Both e → Running held (building b ws e ∷ ts) w

  -- A step that the machine can take whatever else runs.
  abbrev Can : World → List Pc → World → List Pc → Type 0
  Can w ts w' ts' =
      (before : List Pc)
      → (st : Step k (record { world = w; threads = before ++ ts })
          (record { world = w'; threads = before ++ ts' }))
        × StepReports Both st

  -- Every processor has returned but those of the callbacks that own the blocks of `held`.
  Idle : List Ptr → World → Type 0
  Idle held w = Unlocked w × (ts : List Pc) × (total left ts ≡ 0) × Running held ts w
