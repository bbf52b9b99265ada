-- ===== src/Safety/Attempts/Steps.antt =====
-- The allocations of each callback.
use wazabi_edr_driver.Base.{
  ℕ, ◌+◌, ◌≡◌, ◌∙◌, refl, ap, arith, List, Option, none, some, Option-cases, not, ◌⊎◌, ◌==◌,
  Bool-cases, inl, inr, if◌then◌else◌, bit_and,
}
use wazabi_edr_driver.Wdk.{
  Ptr, Kernel, UnicodeString, as_u32, DispatchRoutine, create_close, cleanup, device_control,
  invalid,
}
use wazabi_edr_driver.State.{World, pure}
use wazabi_edr_driver.Safety.Served.{handed}
use wazabi_edr_driver.Ring.{queue_pop_locked}
use wazabi_edr_driver.Dispatch.{
  dispatch_create_close, dispatch_invalid, dispatch_cleanup, dispatch_device_control,
}
use wazabi_edr_driver.Callbacks.Thread.{thread_notify, emit_thread_create, emit_thread_exit}
use wazabi_edr_driver.Callbacks.Process.{
  CreateNotifyInfo, process_notify, emit_process_create, emit_process_exit,
}
use wazabi_edr_driver.Callbacks.Image.{ImageInfo, image_load_notify, emit_image_load}
use wazabi_edr_driver.Callbacks.Object.{
  PreOperationInformation, decode_operation, target_pid_of, dangerous_process_mask,
  process_object_notify, observe_operation, observe_parameters, gate_access, emit_handle_access,
}
use wazabi_edr_driver.Callbacks.Registry.{
  CreateKeyInformation, Notification, pre_set_value_key, pre_delete_value_key, pre_delete_key,
  pre_rename_key, pre_create_key_ex, other_class, registry_notify, observe_registry, emit_set_value,
  emit_delete_value, emit_delete_key, emit_rename_key, emit_create_key, write_value_name,
  write_data_preview, fill_registry_common,
}
use wazabi_edr_driver.Callbacks.Registry.Prefix.{is_interesting_unicode_string}
use wazabi_edr_driver.Callbacks.Preserve.Keys.{ReadableNames}
use wazabi_edr_driver.Events.{RegistryOp, RegistryEvent, HandleAccessOp}
use wazabi_edr_driver.System.{
  Request, io, on_process, on_image, on_registry, on_thread, on_object, serve, step,
}
use wazabi_edr_driver.Safety.Attempts.{
  attempts, emit-attempts, submit-attempts, string_into-log, image_name-log, unicode_into-log,
}
use wazabi_edr_driver.Safety.Attempts.Keys.{change-attempts}
use wazabi_edr_driver.Safety.Attempts.Reportable.{
  is_dangerous, is_watched, is_reportable, IsReportable, is_reportable-Decides,
}

module _ (k : Kernel) (w : World) where
  thread_notify-attempts :
      (pid tid : Ptr) (create : ℕ)
      → attempts (thread_notify k pid tid create w).1.log ≡ attempts w.log + 1
  unfolding thread_notify emit_thread_create emit_thread_exit
  thread_notify-attempts pid tid create = elim (Bool-cases (not (create == 0))) [
    | inl t ↦ rw t (emit-attempts k _ _ _ w (λ p h w'. submit-attempts k p _ w'))
    | inr t ↦ rw t (emit-attempts k _ _ _ w (λ p h w'. submit-attempts k p _ w'))
  ]

  process_notify-attempts :
      (process pid : Ptr) (info : Option CreateNotifyInfo)
      → attempts (process_notify k process pid info w).1.log ≡ attempts w.log + 1
  unfolding process_notify emit_process_create emit_process_exit
  process_notify-attempts process pid none =
      emit-attempts k _ _ _ w (λ p h w'. submit-attempts k p _ w')
  process_notify-attempts process pid (some info) = emit-attempts k _ _ _ w (λ p h w'.
      submit-attempts k p _ _
      ∙ ap attempts (
          string_into-log info.command_line _ _ _ _
          ∙ string_into-log info.image_file_name _ _ _ w'))

  image_load_notify-attempts :
      (name : Option UnicodeString) (pid : Ptr) (info : Option ImageInfo)
      → attempts (image_load_notify k name pid info w).1.log ≡ attempts w.log + 1
  unfolding image_load_notify emit_image_load
  image_load_notify-attempts name pid info =
      emit-attempts k _ _ _ w
        (λ p h w'. submit-attempts k p _ _ ∙ ap attempts (image_name-log name w'))

  serve-attempts :
      (routine : DispatchRoutine) (irp : Ptr)
      → attempts (serve k routine irp (handed irp w)).1.log ≡ attempts w.log
  unfolding serve dispatch_device_control dispatch_cleanup dispatch_create_close dispatch_invalid
      queue_pop_locked
  serve-attempts create_close irp = ground arith
  serve-attempts cleanup irp = ground arith
  serve-attempts device_control irp = ground arith
  serve-attempts invalid irp = ground arith

  emit_handle_access-attempts :
      (source target desired original : ℕ) (op : HandleAccessOp)
      → attempts (emit_handle_access k source target desired original op w).1.log
        ≡ attempts w.log + 1
  unfolding emit_handle_access
  emit_handle_access-attempts source target desired original op =
      emit-attempts k _ _ _ w (λ p h w'. submit-attempts k p _ w')

  operation-attempts :
      (info : PreOperationInformation)
      → attempts (observe_operation k info w).1.log
        ≡ attempts w.log + (if is_dangerous k w (some info) then 1 else 0)
  unfolding observe_operation observe_parameters gate_access
  operation-attempts info = elim (Bool-cases (info.kernel_handle == 0)) [
    | inr f ↦ rw f (omega arith)
    | inl t ↦
        rw t
          (elim (Bool-cases
            (target_pid_of k info.object == as_u32 (k.ps_get_current_process_id w.log))) [
              | inl same ↦ rw same (omega arith)
              | inr other ↦ rw other (elim (Option-cases info.parameters) [
                | inl b ↦ rw b (omega arith)
                | inr (params, b) ↦
                    rw b
                      (elim (Bool-cases (
                        bit_and (decode_operation info.operation params).1.original_desired_access
                          dangerous_process_mask
                        == 0)) [
                          | inl safe ↦ rw safe (omega arith)
                          | inr danger ↦ rw danger (emit_handle_access-attempts _ _ _ _ _)
                        ])
              ])
            ])
  ]

  object_notify-attempts :
      (info : Option PreOperationInformation)
      → attempts (process_object_notify k info w).1.log
        ≡ attempts w.log + (if is_dangerous k w info then 1 else 0)
  unfolding process_object_notify
  object_notify-attempts none = omega arith
  object_notify-attempts (some info) = operation-attempts info

-- The parts of a registry event.
write_value_name-attempts :
    (evt : RegistryEvent) (name : Option UnicodeString) (w : World)
    → attempts (write_value_name evt name w).1.log ≡ attempts w.log
unfolding write_value_name
write_value_name-attempts evt name w = ap attempts (unicode_into-log name _ _ w)

write_data_preview-attempts :
    (evt : RegistryEvent) (bytes : Option (List ℕ)) (size : ℕ) (w : World)
    → attempts (write_data_preview evt bytes size w).1.log ≡ attempts w.log
unfolding write_data_preview
write_data_preview-attempts evt none size w = refl
write_data_preview-attempts evt (some bytes) size w = ground arith

emit_create_key-attempts :
    (k : Kernel) (info : CreateKeyInformation) (w : World)
    → attempts (emit_create_key k (some info) w).1.log
      ≡ attempts w.log + (if is_interesting_unicode_string info.complete_name then 1 else 0)
unfolding emit_create_key fill_registry_common
emit_create_key-attempts k info w =
    elim (Bool-cases (is_interesting_unicode_string info.complete_name)) [
      | inr f ↦ rw f (omega arith)
      | inl t ↦ rw t (
          emit-attempts k _ _ _ w (λ p h w'.
            submit-attempts k p _ _ ∙ ap attempts (unicode_into-log info.complete_name _ _ w')))
    ]

registry_notify-attempts :
    (k : Kernel) (readable : ReadableNames k) (n : Notification) (w : World)
    → attempts (registry_notify k n w).1.log ≡ attempts w.log + (if is_watched k w n then 1 else 0)
unfolding registry_notify observe_registry emit_set_value emit_delete_value emit_delete_key
    emit_rename_key emit_create_key
registry_notify-attempts k readable (pre_set_value_key none) w = omega arith
registry_notify-attempts k readable (pre_set_value_key (some info)) w =
    change-attempts k readable RegistryOp.set_value info.object _ w (λ evt w'.
      write_data_preview-attempts _ info.value info.data_size _
      ∙ write_value_name-attempts _ info.value_name w')
registry_notify-attempts k readable (pre_delete_value_key none) w = omega arith
registry_notify-attempts k readable (pre_delete_value_key (some info)) w =
    change-attempts k readable RegistryOp.delete_value info.object _ w
      (λ evt w'. write_value_name-attempts evt info.value_name w')
registry_notify-attempts k readable (pre_delete_key none) w = omega arith
registry_notify-attempts k readable (pre_delete_key (some info)) w =
    change-attempts k readable RegistryOp.delete_key info.object pure w (λ evt w'. refl)
registry_notify-attempts k readable (pre_rename_key none) w = omega arith
registry_notify-attempts k readable (pre_rename_key (some info)) w =
    change-attempts k readable RegistryOp.rename_key info.object pure w (λ evt w'. refl)
registry_notify-attempts k readable (pre_create_key_ex none) w = omega arith
registry_notify-attempts k readable (pre_create_key_ex (some info)) w =
    emit_create_key-attempts k info w
registry_notify-attempts k readable (other_class c) w = omega arith

-- A step asks as often as the code's tests let it.
step-counted :
    (k : Kernel) (readable : ReadableNames k) (w : World) (r : Request)
    → attempts (step k w r).log ≡ attempts w.log + (if is_reportable k w r then 1 else 0)
unfolding step
step-counted k readable w (io routine irp) = omega (arith, serve-attempts k w routine irp)
step-counted k readable w (on_process process pid info) =
    process_notify-attempts k w process pid info
step-counted k readable w (on_image name pid info) = image_load_notify-attempts k w name pid info
step-counted k readable w (on_registry n) = registry_notify-attempts k readable n w
step-counted k readable w (on_thread pid tid create) = thread_notify-attempts k w pid tid create
step-counted k readable w (on_object info) = object_notify-attempts k w info

-- In every state of the driver, when the names that the kernel answers with can be read, each notification
-- that is to be reported asks the pool for exactly one block, and every other one, and every request of
-- the I/O manager, for none. To be reported are all notifications of threads, processes and images; a
-- user-mode handle to another process than the current one whose original mask, in the view of the
-- operation, has one of seven rights; the creation of a key whose complete name starts with a watched
-- prefix; and a change of a key that is not null, for which the kernel's call does not fail and gives
-- a name that, cut to the room that there is, starts with a watched prefix. A letter's case does not
-- count in a prefix.
pub step-attempts :
    (k : Kernel) (readable : ReadableNames k) (w : World) (r : Request)
    → let w' = step k w r in
      (IsReportable k w r × (attempts w'.log ≡ attempts w.log + 1))
      ⊎ ((¬ IsReportable k w r) × (attempts w'.log ≡ attempts w.log))
step-attempts k readable w r =
    let counted = step-counted k readable w r in
    elim (is_reportable-Decides k w r) [
      | inl (t, is) ↦ inl (is, counted ∙ ap (λ b. attempts w.log + (if b then 1 else 0)) t)
      | inr (f, no_) ↦
          inr (no_, counted ∙ ap (λ b. attempts w.log + (if b then 1 else 0)) f ∙ omega arith)
    ]
