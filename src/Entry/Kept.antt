-- ===== src/Entry/Kept.antt =====
-- DriverEntry, and the first step of DriverUnload, keep every invariant that does not look at the
-- registrations.
use wazabi_edr_driver.Base.{
  ℕ, ◌≡◌, refl, ◌∷◌, List, Bool, true, false, Bool-cases, inl, inr, not, ◌==◌,
}
use wazabi_edr_driver.Wdk.{
  Irp, Log, entry_called, Ptr, null, Kernel, Routine, process_routine, image_routine,
  registry_routine, thread_routine, object_routine, Message, Action, dbg_print, initialize_lock,
  create_device, set_buffered_io, delete_device, create_symlink, delete_symlink, register,
  unregister, is_negative,
}
use wazabi_edr_driver.State.{World, Ring}
use wazabi_edr_driver.Entry.{
  wire_slots, register_one, register_callbacks, link_and_register, driver_entry, unregister_if,
  unregister_callbacks, unregister_object, unregister_thread, unregister_registry, unregister_image,
  unregister_process, no_cookie, the_cookie,
}

-- The kernel calls of DriverEntry and DriverUnload.
pub data EntryAction : Action → Type 0 where
  printing : (m : Message) → EntryAction (dbg_print m)
  locking : EntryAction initialize_lock
  making : (name : List ℕ) (p : Ptr) → EntryAction (create_device name p)
  buffering : (p : Ptr) → EntryAction (set_buffered_io p)
  unmaking : (p : Ptr) → EntryAction (delete_device p)
  linking : (a b : List ℕ) → EntryAction (create_symlink a b)
  unlinking : (a : List ℕ) → EntryAction (delete_symlink a)
  registering : (r : Routine) (c : ℕ) → EntryAction (register r c)
  unregistering : (r : Routine) (c : ℕ) → EntryAction (unregister r c)

-- The parts of the state that the registrations leave alone.
abbrev pub core : World → Ring × Ptr × (Ptr → Irp) × Log × (Ptr → List ℕ) × ℕ
core w = (w.queue, w.pending_irp, w.irps, w.log, w.pool, w.drop_count)

abbrev pub SameCore : World → World → Type 0
SameCore w w' = core w' ≡ core w

pub record EntryKept (P : World → Type 0) : Type 0 where
  pub acts : (a : Action) (w : World) → EntryAction a → P w → P (record w { log = a ∷ w.log })
  pub sets : (w w' : World) → SameCore w w' → P w → P w'

module _ {P : World → Type 0} (kept : EntryKept P) (k : Kernel) where
  register_one-Kept :
      (r : Routine) (logged : ℕ → ℕ) (store : ℕ → World → World) (w : World)
      → ((c : ℕ) (v : World) → SameCore v (store c v))
      → P w
      → P (register_one k r logged store w).1
  unfolding register_one
  register_one-Kept r logged store w same q =
      elim (Bool-cases (is_negative (k.register_routine w.log r).status)) [
        | inl t ↦ rw t (kept.acts _ w (printing _) q)
        | inr t ↦ rw t (kept.sets _ _ (same _ _) (kept.acts _ w (registering r _) q))
      ]

  register_callbacks-Kept : (w : World) → P w → P (register_callbacks k w).1
  unfolding register_callbacks
  register_callbacks-Kept w q =
      let a =
        register_one-Kept process_routine no_cookie
          (λ c v. record v { process_callback_registered = true }) w (λ c v. refl) q in
      let b =
        register_one-Kept image_routine no_cookie
          (λ c v. record v { image_callback_registered = true }) _ (λ c v. refl) a in
      let c =
        register_one-Kept registry_routine the_cookie
          (λ c v. record v { registry_callback_cookie = c; registry_callback_registered = true }) _
          (λ c v. refl) b in
      let d =
        register_one-Kept thread_routine no_cookie
          (λ c v. record v { thread_callback_registered = true }) _ (λ c v. refl) c in
      register_one-Kept object_routine the_cookie (λ c v. record v { object_callback_handle = c }) _
        (λ c v. refl) d

  link_and_register-Kept : (device : Ptr) (w : World) → P w → P (link_and_register k device w).1
  unfolding link_and_register
  link_and_register-Kept device w q =
      let opened =
        kept.sets (record w { log = set_buffered_io device ∷ w.log })
          (record w { control_device = device; log = set_buffered_io device ∷ w.log }) (refl)
          (kept.acts _ w (buffering device) q) in
      elim (Bool-cases (is_negative (k.io_create_symbolic_link (set_buffered_io device ∷ w.log)))) [
        | inl t ↦ rw t (
            kept.sets _ _ (refl)
              (kept.acts _ _ (unmaking device) (kept.acts _ _ (printing _) opened)))
        | inr t ↦ rw t (
            kept.acts _ _ (printing _)
              (register_callbacks-Kept _ (kept.acts _ _ (linking _ _) opened)))
      ]

  pub driver_entry-Kept : (w : World) → P w → P (driver_entry k w).1
  unfolding driver_entry
  driver_entry-Kept w q =
      let called = kept.acts _ w (printing _) q in
      let wired =
        kept.sets _
          (record w {
            unload_wired = true;
            major_function = wire_slots w.major_function;
            log = dbg_print entry_called ∷ w.log;
          })
          refl called in
      let locked = kept.acts _ _ locking wired in
      let answer = k.io_create_device (initialize_lock ∷ dbg_print entry_called ∷ w.log) in
      elim (Bool-cases (is_negative answer.0)) [
        | inl t ↦ rw t (kept.acts _ _ (printing _) locked)
        | inr t ↦ rw t (link_and_register-Kept _ _ (kept.acts _ _ (making _ _) locked))
      ]

  unregister_if-Kept :
      (b : Bool) (r : Routine) (c : ℕ) (w : World) → P w → P (unregister_if b r c w).1
  unfolding unregister_if
  unregister_if-Kept true r c w q = kept.acts _ w (unregistering r c) q
  unregister_if-Kept false r c w q = q

  pub unregister_callbacks-Kept : (w : World) → P w → P (unregister_callbacks w).1
  unfolding unregister_callbacks
  unregister_callbacks-Kept w q = process _ (image _ (registry _ (thread _ (object w q))))
    where
      object : (v : World) → P v → P (unregister_object v).1
      object v p =
          let v' : World = record v { object_callback_handle = null } in
          unregister_if-Kept (not (v.object_callback_handle == null)) object_routine
            v.object_callback_handle v' (kept.sets v v' refl p)

      thread : (v : World) → P v → P (unregister_thread v).1
      thread v p =
          let v' : World = record v { thread_callback_registered = false } in
          unregister_if-Kept v.thread_callback_registered thread_routine 0 v'
            (kept.sets v v' refl p)

      registry : (v : World) → P v → P (unregister_registry v).1
      registry v p =
          let v' : World = record v { registry_callback_registered = false } in
          unregister_if-Kept v.registry_callback_registered registry_routine
            v.registry_callback_cookie v' (kept.sets v v' refl p)

      image : (v : World) → P v → P (unregister_image v).1
      image v p =
          let v' : World = record v { image_callback_registered = false } in
          unregister_if-Kept v.image_callback_registered image_routine 0 v' (kept.sets v v' refl p)

      process : (v : World) → P v → P (unregister_process v).1
      process v p =
          let v' : World = record v { process_callback_registered = false } in
          unregister_if-Kept v.process_callback_registered process_routine 0 v'
            (kept.sets v v' refl p)
