-- ===== src/Safety/Registered/Start.antt =====
-- DriverEntry leaves the state and the log in step, whichever of its steps fail.
use wazabi_edr_driver.Base.{refl, ℕ, ◌≡◌, ◌≢◌, inl, inr, Bool-cases, arith, List, ◌∷◌, true, ◌∙◌}
use wazabi_edr_driver.Wdk.{
  Ptr, null, Log, Kernel, Routine, process_routine, image_routine, registry_routine, thread_routine,
  object_routine, create_device, delete_device, set_buffered_io, Message, entry_called,
  create_symlink_failed, dbg_print, create_symlink, initialize_lock, is_negative,
}
use wazabi_edr_driver.State.{World}
use wazabi_edr_driver.Entry.{
  device_name, driver_entry, wire_slots, register_callbacks, register_one, no_cookie, the_cookie,
  link_and_register,
}
use wazabi_edr_driver.Strings.{wstr16}
use wazabi_edr_driver.Safety.Registered.{Matched-frame, RealHandles, Matched, Unset, AllUnset}

-- One registration after the other, when nothing is registered yet: the state after each, and what it
-- leaves unset.
abbrev pub register_process : Kernel → World → World
register_process k w =
    (register_one k process_routine no_cookie
      (λ c v. record v { process_callback_registered = true }) w).1

abbrev pub register_image : Kernel → World → World
register_image k w =
    (register_one k image_routine no_cookie (λ c v. record v { image_callback_registered = true })
      w).1

abbrev pub register_registry : Kernel → World → World
register_registry k w =
    (register_one k registry_routine the_cookie
      (λ c v. record v { registry_callback_cookie = c; registry_callback_registered = true }) w).1

abbrev pub register_thread : Kernel → World → World
register_thread k w =
    (register_one k thread_routine no_cookie (λ c v. record v { thread_callback_registered = true })
      w).1

abbrev pub register_object : Kernel → World → World
register_object k w =
    (register_one k object_routine the_cookie (λ c v. record v { object_callback_handle = c }) w).1

-- The other steps of DriverEntry.
pub printed :
    (r : Routine) (m : Message) (w : World)
    → Matched r w
    → Matched r (record w { log = dbg_print m ∷ w.log })
printed r m w q = Matched-frame refl refl q

closed :
    (r : Routine) (device : Ptr) (w : World)
    → device ≢ null
    → Matched r (record w { control_device = device })
    → Matched r (record w {
      control_device = null;
      log = delete_device device ∷ dbg_print create_symlink_failed ∷ set_buffered_io device ∷ w.log;
    })
closed process_routine device w n q = ground arith
closed image_routine device w n q = ground arith
closed registry_routine device w n q = ground arith
closed thread_routine device w n q = ground arith
closed object_routine device w n q = ground arith

opened :
    (r : Routine) (device : Ptr) (a b : List ℕ) (w : World)
    → Matched r (record w { control_device = device })
    → Matched r (record w {
      control_device = device;
      log = create_symlink a b ∷ set_buffered_io device ∷ w.log;
    })
opened r device a b w q = Matched-frame refl refl q

started :
    (r : Routine) (w : World)
    → Matched r w
    → Matched r (record w {
      unload_wired = true;
      major_function = wire_slots w.major_function;
      log = initialize_lock ∷ dbg_print entry_called ∷ w.log;
    })
started r w q = Matched-frame refl refl q

made :
    (r : Routine) (name : List ℕ) (device : Ptr) (w : World)
    → device ≢ null
    → w.control_device ≡ null
    → Matched r w
    → Matched r (record w { control_device = device; log = create_device name device ∷ w.log })
made process_routine name device w n e q = ground arith
made image_routine name device w n e q = ground arith
made registry_routine name device w n e q = ground arith
made thread_routine name device w n e q = ground arith
made object_routine name device w n e q = ground arith

module _ (k : Kernel) (real : RealHandles k) where
  register_process-Matched :
      (r : Routine) (w : World)
      → Matched r w
      → Unset process_routine w
      → Matched r (register_process k w)
  unfolding register_one
  register_process-Matched process_routine w m e = ground arith
  register_process-Matched image_routine w m e = ground arith
  register_process-Matched registry_routine w m e = ground arith
  register_process-Matched thread_routine w m e = ground arith
  register_process-Matched object_routine w m e = ground arith

  register_image-Matched :
      (r : Routine) (w : World)
      → Matched r w
      → Unset image_routine w
      → Matched r (register_image k w)
  unfolding register_one
  register_image-Matched process_routine w m e = ground arith
  register_image-Matched image_routine w m e = ground arith
  register_image-Matched registry_routine w m e = ground arith
  register_image-Matched thread_routine w m e = ground arith
  register_image-Matched object_routine w m e = ground arith

  register_registry-Matched :
      (r : Routine) (w : World)
      → Matched r w
      → Unset registry_routine w
      → Matched r (register_registry k w)
  unfolding register_one
  register_registry-Matched process_routine w m e = ground arith
  register_registry-Matched image_routine w m e = ground arith
  register_registry-Matched registry_routine w m e = ground arith
  register_registry-Matched thread_routine w m e = ground arith
  register_registry-Matched object_routine w m e = ground arith

  register_thread-Matched :
      (r : Routine) (w : World)
      → Matched r w
      → Unset thread_routine w
      → Matched r (register_thread k w)
  unfolding register_one
  register_thread-Matched process_routine w m e = ground arith
  register_thread-Matched image_routine w m e = ground arith
  register_thread-Matched registry_routine w m e = ground arith
  register_thread-Matched thread_routine w m e = ground arith
  register_thread-Matched object_routine w m e = ground arith

  register_object-Matched :
      (r : Routine) (w : World)
      → Matched r w
      → Unset object_routine w
      → Matched r (register_object k w)
  unfolding register_one
  register_object-Matched process_routine w m e = ground arith
  register_object-Matched image_routine w m e = ground arith
  register_object-Matched registry_routine w m e = ground arith
  register_object-Matched thread_routine w m e = ground arith
  register_object-Matched object_routine w m e = ground (arith, real.objects w.log)

  register_process-Unset :
      (w : World)
      → let w' = register_process k w in
        (w'.image_callback_registered ≡ w.image_callback_registered)
        × (w'.registry_callback_registered ≡ w.registry_callback_registered)
        × (w'.thread_callback_registered ≡ w.thread_callback_registered)
        × (w'.object_callback_handle ≡ w.object_callback_handle)
  unfolding register_one
  register_process-Unset w = ground arith

  register_image-Unset :
      (w : World)
      → let w' = register_image k w in
        (w'.registry_callback_registered ≡ w.registry_callback_registered)
        × (w'.thread_callback_registered ≡ w.thread_callback_registered)
        × (w'.object_callback_handle ≡ w.object_callback_handle)
  unfolding register_one
  register_image-Unset w = ground arith

  register_registry-Unset :
      (w : World)
      → let w' = register_registry k w in
        (w'.thread_callback_registered ≡ w.thread_callback_registered)
        × (w'.object_callback_handle ≡ w.object_callback_handle)
  unfolding register_one
  register_registry-Unset w = ground arith

  register_thread-Unset :
      (w : World)
      → let w' = register_thread k w in (w'.object_callback_handle ≡ w.object_callback_handle)
  unfolding register_one
  register_thread-Unset w = ground arith

  register_callbacks-Matched :
      (r : Routine) (w : World) → Matched r w → AllUnset w → Matched r (register_callbacks k w).1
  unfolding register_callbacks
  register_callbacks-Matched r w m (up, ui, ur, ut, uo) =
      let (i1, r1, t1, o1) = register_process-Unset w in
      let m1 = register_process-Matched r w m up in
      let (r2, t2, o2) = register_image-Unset (register_process k w) in
      let m2 = register_image-Matched r _ m1 (i1 ∙ ui) in
      let (t3, o3) = register_registry-Unset (register_image k (register_process k w)) in
      let m3 = register_registry-Matched r _ m2 (r2 ∙ r1 ∙ ur) in
      let o4 =
        register_thread-Unset (register_registry k (register_image k (register_process k w))) in
      let m4 = register_thread-Matched r _ m3 (t3 ∙ t2 ∙ t1 ∙ ut) in
      register_object-Matched r _ m4 (o4 ∙ o3 ∙ o2 ∙ o1 ∙ uo)

  -- From a fresh state on, DriverEntry leaves the state matched, whichever of its steps fail.
  link_and_register-Matched :
      (r : Routine) (device : Ptr) (w : World)
      → device ≢ null
      → Matched r (record w { control_device = device })
      → AllUnset w
      → Matched r (link_and_register k device w).1
  unfolding link_and_register
  link_and_register-Matched r device w n m u =
      elim (Bool-cases (is_negative (k.io_create_symbolic_link (set_buffered_io device ∷ w.log)))) [
        | inl t ↦ rw t (closed r device w n m)
        | inr t ↦ rw t (printed r _ _ (register_callbacks-Matched r _ (opened r device _ _ w m) u))
      ]

  pub driver_entry-Matched :
      (r : Routine) (w : World)
      → Matched r w
      → w.control_device ≡ null
      → AllUnset w
      → Matched r (driver_entry k w).1
  unfolding driver_entry
  driver_entry-Matched r w m e u =
      let l : Log = initialize_lock ∷ dbg_print entry_called ∷ w.log in
      let start = started r w m in
      let v : World = record w {
        unload_wired = true;
        major_function = wire_slots w.major_function;
        log = l;
      } in
      elim (Bool-cases (is_negative (k.io_create_device l).0)) [
        | inl t ↦ rw t (printed r _ _ start)
        | inr t ↦ rw t (
            link_and_register-Matched r _
              (record v { log = create_device (wstr16 device_name) (k.io_create_device l).1 ∷ l })
              (real.devices_ l t) (made r _ _ v (real.devices_ l t) e start) u)
      ]
