-- ===== src/Safety/Run.antt =====
-- The safety invariants hold after any sequence of requests and notifications.
use wazabi_edr_driver.Base.{◌≢◌, refl, Memᴰ, List, [], ◌∷◌}
use wazabi_edr_driver.Wdk.{Ptr, null, Kernel, DispatchRoutine, receive}
use wazabi_edr_driver.State.{World}
use wazabi_edr_driver.Callbacks.Kept.{Kept, Covers, WellFormed}
use wazabi_edr_driver.Events.Event.{Event}
use wazabi_edr_driver.Callbacks.Described.{OfThread, OfProcess, OfImage, OfObject, OfRegistry}
use wazabi_edr_driver.Callbacks.Preserve.Copies.{Readable}
use wazabi_edr_driver.Callbacks.Preserve.Simple.{thread_notify-Kept, process_object_notify-Kept}
use wazabi_edr_driver.Callbacks.Preserve.Strings.{
  ReadableInfos, process_notify-Kept, image_load_notify-Kept,
}
use wazabi_edr_driver.Callbacks.Preserve.Keys.{ReadableNames}
use wazabi_edr_driver.Callbacks.Preserve.Registry.{ReadableNotification, registry_notify-Kept}
use wazabi_edr_driver.System.{
  Request, io, on_process, on_image, on_registry, on_thread, on_object, serve, step, run,
}

-- The I/O manager hands over real IRPs, and the strings of a notification can be read.
abbrev pub IsGenuine : Request → Type 0
IsGenuine (io routine irp) = irp ≢ null
IsGenuine (on_process process pid info) = ReadableInfos info
IsGenuine (on_image name pid info) = Readable name
IsGenuine (on_registry n) = ReadableNotification n
IsGenuine (on_thread pid tid create) = Unit
IsGenuine (on_object info) = Unit

abbrev pub AllGenuine : List Request → Type 0
AllGenuine [] = Unit
AllGenuine (r ∷ rs) = IsGenuine r × AllGenuine rs

-- What an event has to say to report a notification; a request of the I/O manager is none.
abbrev pub Describes : Kernel → Request → Event → Type 0
Describes k (io routine irp) e = ⊥
Describes k (on_process process pid info) e = OfProcess k process pid info e
Describes k (on_image name pid info) e = OfImage name pid info e
Describes k (on_registry n) e = OfRegistry k n e
Describes k (on_thread pid tid create) e = OfThread k pid tid create e
Describes k (on_object info) e = OfObject k info e

-- An event that reports one of the notifications.
abbrev pub DescribesSome : Kernel → List Request → Event → Type 0
DescribesSome k rs e = (r : Request) × Memᴰ r rs × Describes k r e

abbrev pub Reported : Kernel → List Request → Event → Type 0
Reported k rs e = WellFormed e × DescribesSome k rs e

-- Once the callbacks keep an invariant, the four dispatch routines are left to check.
module _ {k : Kernel} (readable : ReadableNames k) {Good : Event → Type 0}
    {P : List Ptr → World → Type 0} (kept : Kept k Good P)
    (served : (routine : DispatchRoutine) (irp : Ptr) (w : World)
      → irp ≢ null
      → P [] w
      → P [] (serve k routine irp (record w { log = receive irp ∷ w.log })).1) where
  step-Kept :
      (r : Request) (w : World)
      → Covers Good (Describes k r)
      → IsGenuine r
      → P [] w
      → P [] (step k w r)
  unfolding step
  step-Kept (io routine irp) w c g q = served routine irp w g q
  step-Kept (on_process process pid info) w c g q =
      process_notify-Kept kept [] w q process pid info g c
  step-Kept (on_image name pid info) w c g q = image_load_notify-Kept kept [] w q name pid info g c
  step-Kept (on_registry n) w c g q = registry_notify-Kept kept readable [] w q n g c
  step-Kept (on_thread pid tid create) w c g q = thread_notify-Kept kept [] w q pid tid create c
  step-Kept (on_object info) w c g q = process_object_notify-Kept kept [] w q info c

  -- Whatever reports one of the notifications has to be good.
  pub run-Covered :
      (rs : List Request) (w : World)
      → ((r : Request) → Memᴰ r rs → Covers Good (Describes k r))
      → AllGenuine rs
      → P [] w
      → P [] (run k w rs)
  unfolding run
  run-Covered [] w c g q = q
  run-Covered (r ∷ rs) w c g q =
      run-Covered rs _ (λ x m. c x (Memᴰ.tail m)) g.1 (step-Kept r w (c r (Memᴰ.head refl)) g.0 q)

module _ {k : Kernel} (readable : ReadableNames k) {P : List Ptr → World → Type 0} where
  pub run-Kept :
      (kept : Kept k WellFormed P)
      → ((routine : DispatchRoutine) (irp : Ptr) (w : World)
          → irp ≢ null
          → P [] w
          → P [] (serve k routine irp (record w { log = receive irp ∷ w.log })).1)
      → (rs : List Request) (w : World) → AllGenuine rs
      → P [] w
      → P [] (run k w rs)
  run-Kept kept served rs w g q = run-Covered readable kept served rs w (λ r m e wf d. wf) g q

  pub run-Reported :
      (rs : List Request)
      → (kept : Kept k (Reported k rs) P)
      → ((routine : DispatchRoutine) (irp : Ptr) (w : World)
          → irp ≢ null
          → P [] w
          → P [] (serve k routine irp (record w { log = receive irp ∷ w.log })).1)
      → (w : World) → AllGenuine rs
      → P [] w
      → P [] (run k w rs)
  run-Reported rs kept served w g q =
      run-Covered readable kept served rs w (λ r m e wf d. (wf, (r, m, d))) g q
