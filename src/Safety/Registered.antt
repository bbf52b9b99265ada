-- ===== src/Safety/Registered.antt =====
-- Registrations and the device object: each is undone as often as it is done.
pub mod Start
pub mod Ending
pub mod Outcome
use wazabi_edr_driver.Base.{
  ap, ap₂, sym, ℕ, ◌+◌, ◌≡◌, ◌≢◌, ◌⊎◌, inl, inr, Bool-cases, refl, arith, List, [], ◌∷◌,
  if◌then◌else◌, ◌==◌, Bool, true, false, ◌∙◌,
}
use wazabi_edr_driver.Wdk.{
  Ptr, null, Irp, Log, Kernel, Routine, process_routine, image_routine, registry_routine,
  thread_routine, object_routine, create_device, delete_device, set_buffered_io, Message,
  entry_called, create_symlink_failed, dbg_print, create_symlink, release_key_name, get_key_name,
  initialize_lock, register, unregister, is_negative, DispatchRoutine, create_close, cleanup,
  device_control, invalid,
}
use wazabi_edr_driver.State.{Slot, World, loaded}
use wazabi_edr_driver.Ring.{queue_push_locked, queue_pop_locked}
use wazabi_edr_driver.Submit.{alloc_event, submit_event}
use wazabi_edr_driver.Dispatch.{
  dispatch_create_close, dispatch_invalid, dispatch_cleanup, dispatch_device_control,
}
use wazabi_edr_driver.Callbacks.Header.{write_block}
use wazabi_edr_driver.Callbacks.Kept.{Kept, WellFormed}
use wazabi_edr_driver.Entry.{
  device_name, driver_entry, wire_slots, register_callbacks, register_one, no_cookie, the_cookie,
  link_and_register, unregister_callbacks, tear_down,
}
use wazabi_edr_driver.Strings.{wstr16}
use wazabi_edr_driver.System.{serve}
use wazabi_edr_driver.Safety.Served.{handed}
use wazabi_edr_driver.Safety.Callbacks.{ownerless-Kept}

abbrev routine_number : Routine → ℕ
routine_number process_routine = 0
routine_number image_routine = 1
routine_number registry_routine = 2
routine_number thread_routine = 3
routine_number object_routine = 4

abbrev pub one_if_same : Routine → Routine → ℕ
one_if_same a b = if routine_number a == routine_number b then 1 else 0

-- How often a routine was registered, and unregistered.
abbrev pub registered : Routine → Log → ℕ
registered r [] = 0
registered r (register s _ ∷ l) = one_if_same s r + registered r l
registered r (_ ∷ l) = registered r l

abbrev pub unregistered : Routine → Log → ℕ
unregistered r [] = 0
unregistered r (unregister s _ ∷ l) = one_if_same s r + unregistered r l
unregistered r (_ ∷ l) = unregistered r l

-- How many device objects were created, and deleted.
abbrev pub devices_created : Log → ℕ
devices_created [] = 0
devices_created (create_device _ _ ∷ l) = 1 + devices_created l
devices_created (_ ∷ l) = devices_created l

abbrev pub devices_deleted : Log → ℕ
devices_deleted [] = 0
devices_deleted (delete_device _ ∷ l) = 1 + devices_deleted l
devices_deleted (_ ∷ l) = devices_deleted l

abbrev one_if_set : Bool → ℕ
one_if_set b = if b then 1 else 0

-- Whether the driver's state says that the routine is registered.
abbrev pub active : Routine → World → ℕ
active process_routine w = one_if_set w.process_callback_registered
active image_routine w = one_if_set w.image_callback_registered
active registry_routine w = one_if_set w.registry_callback_registered
active thread_routine w = one_if_set w.thread_callback_registered
active object_routine w = if w.object_callback_handle == null then 0 else 1

-- The state says of each routine, and of the device, what the log says.
pub record Matched (r : Routine) (w : World) : Type 0 where
  pub routines : registered r w.log ≡ unregistered r w.log + active r w
  pub devices :
      devices_created w.log ≡ devices_deleted w.log + (if w.control_device == null then 0 else 1)

-- The kernel gives no null handle with a success.
pub record RealHandles (k : Kernel) : Type 0 where
  pub objects :
      (l : Log)
      → is_negative (k.register_routine l object_routine).status ≡ false
      → (k.register_routine l object_routine).cookie ≢ null
  pub devices_ :
      (l : Log) → is_negative (k.io_create_device l).0 ≡ false → (k.io_create_device l).1 ≢ null

-- The routine is not registered, by the state.
abbrev pub Unset : Routine → World → Type 0
Unset process_routine w = w.process_callback_registered ≡ false
Unset image_routine w = w.image_callback_registered ≡ false
Unset registry_routine w = w.registry_callback_registered ≡ false
Unset thread_routine w = w.thread_callback_registered ≡ false
Unset object_routine w = w.object_callback_handle ≡ null

abbrev pub AllUnset : World → Type 0
AllUnset w =
    Unset process_routine w
    × Unset image_routine w
    × Unset registry_routine w
    × Unset thread_routine w
    × Unset object_routine w

-- What the state says of registrations and the device, and what the log says.
abbrev pub flags : World → Bool × Bool × Bool × Bool × Ptr × Ptr
flags w = (
  w.process_callback_registered, w.image_callback_registered, w.registry_callback_registered,
  w.thread_callback_registered, w.object_callback_handle, w.control_device,
)

abbrev pub counts : Routine → Log → ℕ × ℕ × ℕ × ℕ
counts r l = (registered r l, unregistered r l, devices_created l, devices_deleted l)

active-flags : (r : Routine) (w w' : World) → flags w' ≡ flags w → active r w' ≡ active r w
active-flags process_routine w w' e = ap (λ f. one_if_set f.0) e
active-flags image_routine w w' e = ap (λ f. one_if_set f.1) e
active-flags registry_routine w w' e = ap (λ f. one_if_set f.2) e
active-flags thread_routine w w' e = ap (λ f. one_if_set f.3) e
active-flags object_routine w w' e = ap (λ f. if f.4 == null then 0 else 1) e

-- A step that changes neither keeps them matched.
pub Matched-frame :
    {r : Routine} {w w' : World}
    → flags w' ≡ flags w
    → counts r w'.log ≡ counts r w.log
    → Matched r w
    → Matched r w'
Matched-frame {r} {w} {w'} f c m =
    let a = active-flags r w w' f in
    let d = ap (λ x. if x.5 == null then 0 else 1) f in
    record {
      routines = ap (λ x. x.0) c ∙ m.routines ∙ sym (ap₂ (λ n k. n + k) (ap (λ x. x.1) c) a);
      devices = ap (λ x. x.2) c ∙ m.devices ∙ sym (ap₂ (λ n k. n + k) (ap (λ x. x.3) c) d);
    }

module _ (k : Kernel) (r : Routine) (w : World) (m : Matched r w) where
  alloc_event-Matched : (size : ℕ) → Matched r (alloc_event k size w).1
  unfolding alloc_event
  alloc_event-Matched size = Matched-frame (ground arith) (ground arith) m

  submit_event-Matched : (b : Ptr) (size : ℕ) → Matched r (submit_event k b size w).1
  unfolding submit_event queue_push_locked
  submit_event-Matched b size = Matched-frame (ground arith) (ground arith) m

  dispatch_device_control-Matched : (irp : Ptr) → Matched r (dispatch_device_control k irp w).1
  unfolding dispatch_device_control queue_pop_locked
  dispatch_device_control-Matched irp = Matched-frame (ground arith) (ground arith) m

  dispatch_cleanup-Matched : (irp : Ptr) → Matched r (dispatch_cleanup irp w).1
  unfolding dispatch_cleanup
  dispatch_cleanup-Matched irp = Matched-frame (ground arith) (ground arith) m

  dispatch_create_close-Matched : (irp : Ptr) → Matched r (dispatch_create_close irp w).1
  unfolding dispatch_create_close
  dispatch_create_close-Matched irp = Matched-frame (ground arith) (ground arith) m

  dispatch_invalid-Matched : (irp : Ptr) → Matched r (dispatch_invalid irp w).1
  unfolding dispatch_invalid
  dispatch_invalid-Matched irp = Matched-frame (ground arith) (ground arith) m

pub Matched-Kept : (k : Kernel) (r : Routine) → Kept k WellFormed (λ held. Matched r)
unfolding write_block
Matched-Kept k r =
    ownerless-Kept k (Matched r) (λ size w m. alloc_event-Matched k r w m size)
      (λ p bytes w m. Matched-frame refl refl m) (λ d t w m. Matched-frame refl refl m)
      (λ o w m. Matched-frame refl refl m) (λ p size w m. submit_event-Matched k r w m p size)

pub serve-Matched :
    (k : Kernel) (r : Routine) (routine : DispatchRoutine) (irp : Ptr) (w : World)
    → Matched r w
    → Matched r (serve k routine irp (handed irp w)).1
unfolding serve
serve-Matched k r routine irp w m = by routine
  where
    start : Matched r (handed irp w)
    start = Matched-frame refl refl m

    by : (t : DispatchRoutine) → Matched r (serve k t irp (handed irp w)).1
    by create_close = dispatch_create_close-Matched k r _ start irp
    by cleanup = dispatch_cleanup-Matched k r _ start irp
    by device_control = dispatch_device_control-Matched k r _ start irp
    by invalid = dispatch_invalid-Matched k r _ start irp
