-- ===== src/Entry.antt =====
-- lib.rs: DriverEntry and DriverUnload.
pub mod Kept
pub mod Wiring
use Prim.Native.String.{String}
use wazabi_edr_driver.Base.{
  ℕ, zero, suc, ◌+◌, ◌<◌, ◌≤◌, List, [], ◌∷◌, ◌++◌, Bool, true, false, not, Option, none, some,
  if◌then◌else◌, ◌==◌, ltb, leb,
}
use wazabi_edr_driver.Wdk.{
  Ptr, null, NtStatus, status_success, status_cancelled, is_negative, Kernel, Routine,
  process_routine, image_routine, registry_routine, thread_routine, object_routine, Message,
  entry_called, create_device_failed, create_symlink_failed, routine_failed, ready, ready_degraded,
  unload_stopping, unload_bye, DispatchRoutine, create_close, cleanup, device_control, invalid,
  Action, dbg_print, free, initialize_lock, create_device, set_buffered_io, delete_device,
  create_symlink, delete_symlink, register, unregister,
}
use wazabi_edr_driver.State.{World, update, add_u32, M, ◌>>=◌, ◌>>◌, pure, gets, modify, act, when}
use wazabi_edr_driver.SpinLock.{acquire_guard, drop_guard}
use wazabi_edr_driver.Ring.{queue_pop_locked}
use wazabi_edr_driver.Submit.{take_pending}
use wazabi_edr_driver.Dispatch.{cancel}
use wazabi_edr_driver.Strings.{wstr16}
use wazabi_edr_driver.Callbacks.Registry.Prefix.{codes}

-- The literals end in a NUL.
abbrev pub device_name : List ℕ
device_name = codes "\\Device\\WazabiEDR" ++ 0 ∷ []

abbrev pub symlink_name : List ℕ
symlink_name = codes "\\DosDevices\\WazabiEDR" ++ 0 ∷ []

abbrev pub irp_mj_create : ℕ
irp_mj_create = 0x00

abbrev pub irp_mj_close : ℕ
irp_mj_close = 0x02

abbrev pub irp_mj_device_control : ℕ
irp_mj_device_control = 0x0E

abbrev pub irp_mj_cleanup : ℕ
irp_mj_cleanup = 0x12

abbrev pub irp_mj_maximum_function : ℕ
irp_mj_maximum_function = 0x1B

abbrev pub MajorTable : Type 0
MajorTable = ℕ → Option DispatchRoutine

-- `for i in 0..=IRP_MJ_MAXIMUM_FUNCTION`, by the rounds left and the index.
unfoldable pub fill_slots : ℕ → ℕ → MajorTable → MajorTable
fill_slots zero i mj = mj
fill_slots (suc rounds) i mj = fill_slots rounds (suc i) (update mj i (some invalid))

unfoldable pub wire_slots : MajorTable → MajorTable
unfolding fill_slots
wire_slots mj =
    let filled = fill_slots (suc irp_mj_maximum_function) 0 mj in
    update
      (update
        (update (update filled irp_mj_create (some create_close)) irp_mj_close (some create_close))
        irp_mj_cleanup (some cleanup))
      irp_mj_device_control (some device_control)

-- One of the five soft-fail registrations: what a success stores, and the cookie that it logs. The
-- result is the number of failures, 0 or 1.
unfoldable pub register_one : Kernel → Routine → (ℕ → ℕ) → (ℕ → World → World) → M ℕ
unfolding act
register_one k r logged store = do
  answer ← gets (λ w. k.register_routine w.log r)
  if is_negative answer.status
      then act (dbg_print (routine_failed r)) >> pure 1
      else (do act (register r (logged answer.cookie)); modify (store answer.cookie); pure 0)

abbrev pub no_cookie : ℕ → ℕ
no_cookie c = 0

abbrev pub the_cookie : ℕ → ℕ
the_cookie c = c

-- Steps 5 to 9, and the count of failures.
unfoldable pub register_callbacks : Kernel → M ℕ
unfolding register_one
register_callbacks k = do
  a ←
      register_one k process_routine no_cookie
        (λ c w. record w { process_callback_registered = true })
  b ← register_one k image_routine no_cookie (λ c w. record w { image_callback_registered = true })
  c ←
      register_one k registry_routine the_cookie
        (λ c w. record w { registry_callback_cookie = c; registry_callback_registered = true })
  d ←
      register_one k thread_routine no_cookie
        (λ c w. record w { thread_callback_registered = true })
  e ← register_one k object_routine the_cookie (λ c w. record w { object_callback_handle = c })
  pure (a + b + c + d + e)

-- From the symbolic link on.
unfoldable pub link_and_register : Kernel → Ptr → M NtStatus
unfolding act register_callbacks
link_and_register k device = do
  act (set_buffered_io device)
  modify (λ w. record w { control_device = device })
  status ← gets (λ w. k.io_create_symbolic_link w.log)
  if is_negative status
      then (do
        act (dbg_print create_symlink_failed)
        act (delete_device device)
        modify (λ w. record w { control_device = null })
        pure status)
      else (do
        act (create_symlink (wstr16 symlink_name) (wstr16 device_name))
        failed ← register_callbacks k
        act (dbg_print (if ltb 0 failed then ready_degraded else ready))
        pure status_success)

unfoldable pub driver_entry : Kernel → M NtStatus
unfolding act wire_slots link_and_register
driver_entry k = do
  act (dbg_print entry_called)
  modify (λ w. record w { unload_wired = true; major_function = wire_slots w.major_function })
  act initialize_lock
  created ← gets (λ w. k.io_create_device w.log)
  if is_negative created.0
      then act (dbg_print create_device_failed) >> pure created.0
      else (do act (create_device (wstr16 device_name) created.1); link_and_register k created.1)

-- `if X_CALLBACK_REGISTERED.swap(false) { unregister }`
unfoldable pub unregister_if : Bool → Routine → ℕ → M (Unit {0})
unfolding act
unregister_if registered r cookie = when registered (act (unregister r cookie))

-- Each flag, or handle, is swapped out before its routine is unregistered.
unfoldable pub unregister_object : M (Unit {0})
unregister_object w =
    unregister_if (not (w.object_callback_handle == null)) object_routine w.object_callback_handle
      (record w { object_callback_handle = null })

unfoldable pub unregister_thread : M (Unit {0})
unregister_thread w =
    unregister_if w.thread_callback_registered thread_routine 0
      (record w { thread_callback_registered = false })

unfoldable pub unregister_registry : M (Unit {0})
unregister_registry w =
    unregister_if w.registry_callback_registered registry_routine w.registry_callback_cookie
      (record w { registry_callback_registered = false })

unfoldable pub unregister_image : M (Unit {0})
unregister_image w =
    unregister_if w.image_callback_registered image_routine 0
      (record w { image_callback_registered = false })

unfoldable pub unregister_process : M (Unit {0})
unregister_process w =
    unregister_if w.process_callback_registered process_routine 0
      (record w { process_callback_registered = false })

-- Step 1: roughly in the reverse order of registration.
unfoldable pub unregister_callbacks : M (Unit {0})
unfolding unregister_if unregister_object unregister_thread unregister_registry unregister_image
    unregister_process
unregister_callbacks = do
  unregister_object
  unregister_thread
  unregister_registry
  unregister_image
  unregister_process

-- Step 3: `while let Some(slot) = queue_pop_locked()`. The fuel is the number of rounds.
unfoldable pub drain : ℕ → M (Unit {0})
unfolding act
drain zero w = (tt, w)
drain (suc fuel) w =
    let (popped, w') = queue_pop_locked w in
    let rest = λ (s : Ptr). drain fuel (act (free s) w').1 in
    elim popped [ none ↦ (tt, w') | some slot ↦ rest slot.block ]

unfoldable pub drain_queue : Kernel → M (Unit {0})
unfolding acquire_guard drop_guard
drain_queue k = do
  guard ← acquire_guard k
  rounds ← gets (λ w. w.queue.len)
  drain (suc rounds)
  drop_guard guard

-- Step 4.
unfoldable pub tear_down : M (Unit {0})
unfolding act
tear_down = do
  act (delete_symlink (wstr16 symlink_name))
  device ← (λ w. (w.control_device, record w { control_device = null }))
  when (not (device == null)) (act (delete_device device))

unfoldable pub driver_unload : Kernel → M (Unit {0})
unfolding act unregister_callbacks take_pending cancel drain_queue tear_down
driver_unload k = do
  act (dbg_print unload_stopping)
  unregister_callbacks
  pending ← take_pending
  when (not (pending == null)) (cancel pending)
  drain_queue k
  tear_down
  act (dbg_print unload_bye)
