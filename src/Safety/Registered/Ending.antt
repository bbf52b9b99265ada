-- ===== src/Safety/Registered/Ending.antt =====
-- DriverUnload undoes what DriverEntry did.
use wazabi_edr_driver.Base.{false, ◌∙◌, ℕ, suc, ◌≡◌, ◌≢◌, refl, arith, List, ◌∷◌}
use wazabi_edr_driver.Wdk.{
  Ptr, null, Irp, Kernel, Routine, process_routine, image_routine, registry_routine, thread_routine,
  object_routine, Message, dbg_print, acquire, release, unload_stopping, unload_bye,
}
use wazabi_edr_driver.State.{Slot, World, loaded}
use wazabi_edr_driver.Entry.{
  unregister_if, drain_queue, driver_unload, unregister_process, unregister_image,
  unregister_registry, unregister_thread, unregister_object, unregister_callbacks, tear_down,
}
use wazabi_edr_driver.Safety.Registered.{
  Matched-frame, RealHandles, Matched, AllUnset, registered, unregistered, devices_created,
  devices_deleted, Matched-Kept, serve-Matched,
}
use wazabi_edr_driver.Safety.Registered.Start.{printed, driver_entry-Matched}
use wazabi_edr_driver.Safety.Unload.{cancel_waiting, drain-Kept, popped_and_freed}
use wazabi_edr_driver.Safety.Run.{AllGenuine, run-Kept}
use wazabi_edr_driver.Callbacks.Preserve.Keys.{ReadableNames}
use wazabi_edr_driver.SpinLock.{acquire_guard, drop_guard}
use wazabi_edr_driver.Submit.{take_pending}
use wazabi_edr_driver.Dispatch.{cancel}
use wazabi_edr_driver.System.{Request, session, lifetime}

unregister_process-Matched :
    (r : Routine) (w : World) → Matched r w → Matched r (unregister_process w).1
unfolding unregister_process unregister_if
unregister_process-Matched process_routine w m = ground arith
unregister_process-Matched image_routine w m = ground arith
unregister_process-Matched registry_routine w m = ground arith
unregister_process-Matched thread_routine w m = ground arith
unregister_process-Matched object_routine w m = ground arith

unregister_image-Matched :
    (r : Routine) (w : World) → Matched r w → Matched r (unregister_image w).1
unfolding unregister_image unregister_if
unregister_image-Matched process_routine w m = ground arith
unregister_image-Matched image_routine w m = ground arith
unregister_image-Matched registry_routine w m = ground arith
unregister_image-Matched thread_routine w m = ground arith
unregister_image-Matched object_routine w m = ground arith

unregister_registry-Matched :
    (r : Routine) (w : World) → Matched r w → Matched r (unregister_registry w).1
unfolding unregister_registry unregister_if
unregister_registry-Matched process_routine w m = ground arith
unregister_registry-Matched image_routine w m = ground arith
unregister_registry-Matched registry_routine w m = ground arith
unregister_registry-Matched thread_routine w m = ground arith
unregister_registry-Matched object_routine w m = ground arith

unregister_thread-Matched :
    (r : Routine) (w : World) → Matched r w → Matched r (unregister_thread w).1
unfolding unregister_thread unregister_if
unregister_thread-Matched process_routine w m = ground arith
unregister_thread-Matched image_routine w m = ground arith
unregister_thread-Matched registry_routine w m = ground arith
unregister_thread-Matched thread_routine w m = ground arith
unregister_thread-Matched object_routine w m = ground arith

unregister_object-Matched :
    (r : Routine) (w : World) → Matched r w → Matched r (unregister_object w).1
unfolding unregister_object unregister_if
unregister_object-Matched process_routine w m = ground arith
unregister_object-Matched image_routine w m = ground arith
unregister_object-Matched registry_routine w m = ground arith
unregister_object-Matched thread_routine w m = ground arith
unregister_object-Matched object_routine w m = ground arith

unregister_callbacks-Matched :
    (r : Routine) (w : World) → Matched r w → Matched r (unregister_callbacks w).1
unfolding unregister_callbacks
unregister_callbacks-Matched r w m = unregister_process-Matched r _ (
    unregister_image-Matched r _ (
      unregister_registry-Matched r _
        (unregister_thread-Matched r _ (unregister_object-Matched r w m))))

unregister_object-Unset :
    (w : World) → let w' = (unregister_object w).1 in (w'.object_callback_handle ≡ null)
unfolding unregister_object unregister_if
unregister_object-Unset w = ground arith

unregister_thread-Unset :
    (w : World)
    → let w' = (unregister_thread w).1 in
      (w'.thread_callback_registered ≡ false)
      × (w'.object_callback_handle ≡ w.object_callback_handle)
unfolding unregister_thread unregister_if
unregister_thread-Unset w = ground arith

unregister_registry-Unset :
    (w : World)
    → let w' = (unregister_registry w).1 in
      (w'.registry_callback_registered ≡ false)
      × (w'.thread_callback_registered ≡ w.thread_callback_registered)
      × (w'.object_callback_handle ≡ w.object_callback_handle)
unfolding unregister_registry unregister_if
unregister_registry-Unset w = ground arith

unregister_image-Unset :
    (w : World)
    → let w' = (unregister_image w).1 in
      (w'.image_callback_registered ≡ false)
      × (w'.registry_callback_registered ≡ w.registry_callback_registered)
      × (w'.thread_callback_registered ≡ w.thread_callback_registered)
      × (w'.object_callback_handle ≡ w.object_callback_handle)
unfolding unregister_image unregister_if
unregister_image-Unset w = ground arith

unregister_process-Unset :
    (w : World)
    → let w' = (unregister_process w).1 in
      (w'.process_callback_registered ≡ false)
      × (w'.image_callback_registered ≡ w.image_callback_registered)
      × (w'.registry_callback_registered ≡ w.registry_callback_registered)
      × (w'.thread_callback_registered ≡ w.thread_callback_registered)
      × (w'.object_callback_handle ≡ w.object_callback_handle)
unfolding unregister_process unregister_if
unregister_process-Unset w = ground arith

unregister_callbacks-AllUnset : (w : World) → AllUnset (unregister_callbacks w).1
unfolding unregister_callbacks
unregister_callbacks-AllUnset w =
    let w1 = (unregister_object w).1 in
    let w2 = (unregister_thread w1).1 in
    let w3 = (unregister_registry w2).1 in
    let w4 = (unregister_image w3).1 in
    let o1 = unregister_object-Unset w in
    let (t2, o2) = unregister_thread-Unset w1 in
    let (r3, t3, o3) = unregister_registry-Unset w2 in
    let (i4, r4, t4, o4) = unregister_image-Unset w3 in
    let (p5, i5, r5, t5, o5) = unregister_process-Unset w4 in
    (p5, i5 ∙ i4, r5 ∙ r4 ∙ r3, t5 ∙ t4 ∙ t3 ∙ t2, o5 ∙ o4 ∙ o3 ∙ o2 ∙ o1)

-- What the rest of DriverUnload keeps.
abbrev Off : Routine → World → Type 0
Off r w = Matched r w × AllUnset w

cancel_waiting-Off : (r : Routine) (w : World) → Off r w → Off r (cancel_waiting w).1
unfolding take_pending cancel
cancel_waiting-Off r w (m, u) = (Matched-frame (ground arith) (ground arith) m, ground arith)

drain_body-Off : (r : Routine) (w : World) → w.queue.len ≢ 0 → Off r w → Off r (popped_and_freed w)
drain_body-Off r w n (m, u) = (Matched-frame refl refl m, u)

locked : (r : Routine) (a : ℕ) (w : World) → Off r w → Off r (record w { log = acquire a ∷ w.log })
locked r a w (m, u) = (Matched-frame refl refl m, u)

unlocked :
    (r : Routine) (a : ℕ) (w : World) → Off r w → Off r (record w { log = release a ∷ w.log })
unlocked r a w (m, u) = (Matched-frame refl refl m, u)

drain_queue-Off : (k : Kernel) (r : Routine) (w : World) → Off r w → Off r (drain_queue k w).1
unfolding drain_queue acquire_guard drop_guard
drain_queue-Off k r w m =
    let irql = k.ke_acquire_spin_lock w.log in
    let v : World = record w { log = acquire irql ∷ w.log } in
    unlocked r irql _
      (drain-Kept (Off r) (drain_body-Off r) (suc v.queue.len) v (locked r irql w m))

tear_down-Off :
    (r : Routine) (w : World)
    → Off r w
    → Off r (tear_down w).1 × ((tear_down w).1.control_device ≡ null)
unfolding tear_down
tear_down-Off process_routine w m = ground arith
tear_down-Off image_routine w m = ground arith
tear_down-Off registry_routine w m = ground arith
tear_down-Off thread_routine w m = ground arith
tear_down-Off object_routine w m = ground arith

-- The log says that all is undone.
abbrev Undone : Routine → World → Type 0
Undone r w =
    (registered r w.log ≡ unregistered r w.log) × (devices_created w.log ≡ devices_deleted w.log)

finished :
    (r : Routine) (m : Message) (w : World)
    → Off r w
    → w.control_device ≡ null
    → Undone r (record w { log = dbg_print m ∷ w.log })
finished process_routine m w (o, u) e = let a = o.routines in let b = o.devices in ground arith
finished image_routine m w (o, u) e = let a = o.routines in let b = o.devices in ground arith
finished registry_routine m w (o, u) e = let a = o.routines in let b = o.devices in ground arith
finished thread_routine m w (o, u) e = let a = o.routines in let b = o.devices in ground arith
finished object_routine m w (o, u) e = let a = o.routines in let b = o.devices in ground arith

driver_unload-Undone :
    (k : Kernel) (r : Routine) (w : World) → Matched r w → Undone r (driver_unload k w).1
unfolding driver_unload
driver_unload-Undone k r w m =
    let a = unregister_callbacks-Matched r _ (printed r unload_stopping w m) in
    let b = drain_queue-Off k r _ (
      cancel_waiting-Off r _ (
        a,
        unregister_callbacks-AllUnset (record w { log = dbg_print unload_stopping ∷ w.log }),
      )) in
    let (c, e) = tear_down-Off r _ b in finished r unload_bye _ c e

loaded-Matched :
    (r : Routine) (buf : ℕ → Slot) (pool : Ptr → List ℕ) (irps : Ptr → Irp)
    → Matched r (loaded buf pool irps)
loaded-Matched process_routine buf pool irps = record { routines = refl; devices = refl }
loaded-Matched image_routine buf pool irps = record { routines = refl; devices = refl }
loaded-Matched registry_routine buf pool irps = record { routines = refl; devices = refl }
loaded-Matched thread_routine buf pool irps = record { routines = refl; devices = refl }
loaded-Matched object_routine buf pool irps = record { routines = refl; devices = refl }

-- Over a life of the driver with a session of requests whose IRPs are not null and of
-- notifications whose strings can be read, whichever registrations failed at its start, each
-- notification routine has been unregistered as often as it was registered, and as many device
-- objects have been deleted as were created, when the kernel gives no null handle with a success.
pub lifetime-Undone :
    (k : Kernel) (readable : ReadableNames k) (real : RealHandles k) (buf : ℕ → Slot)
    (pool : Ptr → List ℕ) (irps : Ptr → Irp) (rs : List Request)
    → AllGenuine rs
    → (r : Routine)
    → let w = lifetime k buf pool irps rs in
      (registered r w.log ≡ unregistered r w.log) × (devices_created w.log ≡ devices_deleted w.log)
unfolding lifetime session
lifetime-Undone k readable real buf pool irps rs genuine r = driver_unload-Undone k r _ (
    run-Kept readable (Matched-Kept k r)
      (λ routine irp w genuine_ m. serve-Matched k r routine irp w m) rs _ genuine
      (driver_entry-Matched k real r (loaded buf pool irps) (loaded-Matched r buf pool irps) refl
        (refl, refl, refl, refl, refl)))
