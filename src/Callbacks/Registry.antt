-- ===== src/Callbacks/Registry.antt =====
-- callbacks/registry.rs: changes to the registry, gated by the key's path.
pub mod Prefix
use wazabi_edr_driver.Base.{
  ℕ, ◌-◌, ◌/◌, ◌<◌, List, [], Option, none, some, Bool, true, false, not, ◌||◌, ◌&&◌, if◌then◌else◌,
  ◌==◌, ltb, min, take, replicate, copy_into,
}
use wazabi_edr_driver.Wdk.{
  Ptr, null, NtStatus, status_success, is_negative, Kernel, UnicodeString, as_u16, as_u32,
  get_key_name, release_key_name,
}
use wazabi_edr_driver.State.{World, M, ◌>>=◌, ◌>>◌, pure, gets, act, when}
use wazabi_edr_driver.Events.{
  EventType, EventHeader, RegistryEvent, RegistryOp, registry_op_code, registry_key_path_max,
  registry_value_name_max, registry_data_preview_max, size_of_registry,
}
use wazabi_edr_driver.Events.Event.{Event}
use wazabi_edr_driver.Callbacks.Header.{add_trunc, alloc_event_for, submit, unless_null}
use Prefix.{is_interesting_path, is_interesting_unicode_string}

-- The units after the copy into `dst`, and how many were copied.
unfoldable pub copy_unicode_into : Option UnicodeString → List ℕ → ℕ → M (List ℕ × ℕ)
unfolding add_trunc
copy_unicode_into none dst max = pure (dst, 0)
copy_unicode_into (some s) dst max = elim s.buffer [
  | none ↦ pure (dst, 0)
  | some units ↦ if s.length_bytes == 0 then pure (dst, 0) else (do
    let chars = s.length_bytes / 2
    let copy = min chars (max - 1)
    when (ltb copy chars) add_trunc
    pure (copy_into units dst copy, copy))
]

-- What CmCallbackGetKeyObjectIDEx answered: the pointer to a name is recorded, as it has to be
-- released.
unfoldable pub get_key_object_id : Kernel → Ptr → M (Option (Ptr × UnicodeString))
unfolding act
get_key_object_id k object = do
  answer ← gets (λ w. k.cm_callback_get_key_object_id_ex w.log w.registry_callback_cookie object)
  if is_negative answer.status then pure none else elim answer.name [
    | none ↦ pure none
    | some name ↦ act (get_key_name answer.pointer) >> pure (some (answer.pointer, name))
  ]

-- The copy, and the release of the name.
unfoldable pub copy_key_name : List ℕ → ℕ → Option (Ptr × UnicodeString) → M (List ℕ × ℕ)
unfolding act
copy_key_name dst max none = pure (dst, 0)
copy_key_name dst max (some (pointer, name)) = do
  written ← copy_unicode_into (some name) dst max
  act (release_key_name pointer)
  pure written

unfoldable pub write_key_path_from_object : Kernel → Ptr → List ℕ → ℕ → M (List ℕ × ℕ)
unfolding copy_key_name
write_key_path_from_object k object dst max w =
    if object == null
    then ((dst, 0), w)
    else (do name ← get_key_object_id k object; copy_key_name dst max name) w

-- `len == 0 || !is_interesting_path(&buf[..len])`
abbrev pub is_gated_out : List ℕ × ℕ → Bool
is_gated_out path = (path.1 == 0) || not (is_interesting_path (take path.1 path.0))

unfoldable pub resolve_and_gate_object : Kernel → Ptr → M (Option (List ℕ × ℕ))
resolve_and_gate_object k object w =
    let r =
      write_key_path_from_object k object (replicate registry_key_path_max 0) registry_key_path_max
        w in
    if is_gated_out r.0 then (none, r.1) else (some r.0, r.1)

-- A zeroed event with its header, `process_id` and `operation`.
unfoldable pub fill_registry_common : Kernel → EventHeader → RegistryOp → M RegistryEvent
fill_registry_common k header op = do
  pid ← gets (λ w. as_u32 (k.ps_get_current_process_id w.log))
  pure (record {
    header = header;
    process_id = pid;
    operation = registry_op_code op;
    value_type = 0;
    data_size = 0;
    key_path = replicate registry_key_path_max 0;
    key_path_len = 0;
    value_name = replicate registry_value_name_max 0;
    value_name_len = 0;
    data_preview = replicate registry_data_preview_max 0;
    data_preview_len = 0;
  })

unfoldable pub write_resolved_key_path : RegistryEvent → List ℕ × ℕ → RegistryEvent
write_resolved_key_path evt (src, len) = record evt {
  key_path = copy_into src evt.key_path len;
  key_path_len = as_u16 len;
}

-- The part of `emit_set_value` and `emit_delete_value` that copies the value's name.
unfoldable pub write_value_name : RegistryEvent → Option UnicodeString → M RegistryEvent
write_value_name evt name = do
  val ← copy_unicode_into name evt.value_name registry_value_name_max
  pure (record evt { value_name = val.0; value_name_len = as_u16 val.1 })

-- The part of `emit_set_value` that copies the data; `none` is a null `Data`.
unfoldable pub write_data_preview : RegistryEvent → Option (List ℕ) → ℕ → M RegistryEvent
unfolding add_trunc
write_data_preview evt none data_size = pure evt
write_data_preview evt (some bytes) data_size =
    if ltb 0 data_size
    then (do
      let data_len = min data_size registry_data_preview_max
      when (ltb data_len data_size) add_trunc
      pure (record evt {
        data_preview = copy_into bytes evt.data_preview data_len;
        data_preview_len = as_u16 data_len;
      }))
    else pure evt

pub record SetValueInformation : Type 0 where
  pub object : Ptr
  pub value_name : Option UnicodeString
  pub type_ : ℕ
  pub value : Option (List ℕ)
  pub data_size : ℕ

pub record DeleteValueInformation : Type 0 where
  pub object : Ptr
  pub value_name : Option UnicodeString

-- REG_DELETE_KEY_INFORMATION and REG_RENAME_KEY_INFORMATION, of which only the object is read
pub record KeyInformation : Type 0 where
  pub object : Ptr

pub record CreateKeyInformation : Type 0 where
  pub complete_name : Option UnicodeString

-- Behind the gate: a buffer, and the event that `fill` completes.
unfoldable pub emit_gated :
    Kernel → RegistryOp → Option (List ℕ × ℕ) → (RegistryEvent → M RegistryEvent) → M (Unit {0})
emit_gated k op none fill = pure tt
emit_gated k op (some path) fill = do
  buffer ← alloc_event_for k size_of_registry EventType.registry_modify
  unless_null buffer (λ p header. do
    common ← fill_registry_common k header op
    evt ← fill (write_resolved_key_path common path)
    submit k p (Event.registry evt))

unfoldable pub emit_set_value : Kernel → Option SetValueInformation → M (Unit {0})
emit_set_value k none = pure tt
emit_set_value k (some info) = do
  path ← resolve_and_gate_object k info.object
  emit_gated k RegistryOp.set_value path (λ evt. do
    named ←
        write_value_name (record evt { value_type = info.type_; data_size = info.data_size })
          info.value_name
    write_data_preview named info.value info.data_size)

unfoldable pub emit_delete_value : Kernel → Option DeleteValueInformation → M (Unit {0})
emit_delete_value k none = pure tt
emit_delete_value k (some info) = do
  path ← resolve_and_gate_object k info.object
  emit_gated k RegistryOp.delete_value path (λ evt. write_value_name evt info.value_name)

unfoldable pub emit_delete_key : Kernel → Option KeyInformation → M (Unit {0})
emit_delete_key k none = pure tt
emit_delete_key k (some info) = do
  path ← resolve_and_gate_object k info.object
  emit_gated k RegistryOp.delete_key path pure

unfoldable pub emit_rename_key : Kernel → Option KeyInformation → M (Unit {0})
emit_rename_key k none = pure tt
emit_rename_key k (some info) = do
  path ← resolve_and_gate_object k info.object
  emit_gated k RegistryOp.rename_key path pure

unfoldable pub emit_create_key : Kernel → Option CreateKeyInformation → M (Unit {0})
emit_create_key k none = pure tt
emit_create_key k (some info) =
    if not (is_interesting_unicode_string info.complete_name) then pure tt else (do
      buffer ← alloc_event_for k size_of_registry EventType.registry_modify
      unless_null buffer (λ p header. do
        common ← fill_registry_common k header RegistryOp.create_key
        key ← copy_unicode_into info.complete_name common.key_path registry_key_path_max
        submit k p
            (Event.registry (record common { key_path = key.0; key_path_len = as_u16 key.1 }))))

-- REG_NOTIFY_CLASS with the information that goes with it; `other_class` is every class that the
-- `match` ignores.
pub data Notification : Type 0 where
  pre_set_value_key : Option SetValueInformation → Notification
  pre_delete_value_key : Option DeleteValueInformation → Notification
  pre_delete_key : Option KeyInformation → Notification
  pre_rename_key : Option KeyInformation → Notification
  pre_create_key_ex : Option CreateKeyInformation → Notification
  other_class : ℕ → Notification

unfoldable pub observe_registry : Kernel → Notification → M (Unit {0})
observe_registry k (pre_set_value_key info) = emit_set_value k info
observe_registry k (pre_delete_value_key info) = emit_delete_value k info
observe_registry k (pre_delete_key info) = emit_delete_key k info
observe_registry k (pre_rename_key info) = emit_rename_key k info
observe_registry k (pre_create_key_ex info) = emit_create_key k info
observe_registry k (other_class c) = pure tt

unfoldable pub registry_notify : Kernel → Notification → M NtStatus
unfolding observe_registry
registry_notify k n = do observe_registry k n; pure status_success
