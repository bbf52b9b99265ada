-- ===== src/Events/Layout.antt =====
-- The bytes of each event, as `repr(C, packed)` lays it out on a little-endian machine.
use wazabi_edr_driver.Base.{ℕ, List, [], ◌∷◌}
use wazabi_edr_driver.Events.Codec.{le_bytes, units, pack}
use wazabi_edr_driver.Events.{
  EventHeader, ProcessCreateEvent, ProcessExitEvent, ImageLoadEvent, RegistryEvent,
  ThreadCreateEvent, ThreadExitEvent, ProcessHandleAccessEvent,
}

abbrev pub header_fields : EventHeader → List (List ℕ)
header_fields h =
    le_bytes 2 h.version
    ∷ le_bytes 2 h.type_
    ∷ le_bytes 8 h.timestamp
    ∷ le_bytes 4 h.size
    ∷ le_bytes 4 h.drop_count
    ∷ le_bytes 4 h.trunc_count
    ∷ []

unfoldable pub header_bytes : EventHeader → List ℕ
header_bytes h = pack (header_fields h)

abbrev pub process_create_fields : ProcessCreateEvent → List (List ℕ)
process_create_fields e =
    header_bytes e.header
    ∷ le_bytes 4 e.process_id
    ∷ le_bytes 4 e.parent_process_id
    ∷ le_bytes 4 e.creating_process_id
    ∷ units e.image_path
    ∷ le_bytes 2 e.image_path_len
    ∷ units e.command_line
    ∷ le_bytes 2 e.command_line_len
    ∷ units e.parent_image_path
    ∷ le_bytes 2 e.parent_image_path_len
    ∷ units e.user_sid
    ∷ le_bytes 2 e.user_sid_len
    ∷ le_bytes 4 e.integrity_level
    ∷ []

unfoldable pub process_create_bytes : ProcessCreateEvent → List ℕ
process_create_bytes e = pack (process_create_fields e)

abbrev pub process_exit_fields : ProcessExitEvent → List (List ℕ)
process_exit_fields e =
    header_bytes e.header ∷ le_bytes 4 e.process_id ∷ le_bytes 4 e.exit_code ∷ []

unfoldable pub process_exit_bytes : ProcessExitEvent → List ℕ
process_exit_bytes e = pack (process_exit_fields e)

abbrev pub image_load_fields : ImageLoadEvent → List (List ℕ)
image_load_fields e =
    header_bytes e.header
    ∷ le_bytes 4 e.process_id
    ∷ le_bytes 8 e.image_base
    ∷ le_bytes 8 e.image_size
    ∷ units e.image_path
    ∷ le_bytes 2 e.image_path_len
    ∷ []

unfoldable pub image_load_bytes : ImageLoadEvent → List ℕ
image_load_bytes e = pack (image_load_fields e)

-- `data_preview` is an array of bytes.
abbrev pub registry_fields : RegistryEvent → List (List ℕ)
registry_fields e =
    header_bytes e.header
    ∷ le_bytes 4 e.process_id
    ∷ le_bytes 2 e.operation
    ∷ le_bytes 4 e.value_type
    ∷ le_bytes 4 e.data_size
    ∷ units e.key_path
    ∷ le_bytes 2 e.key_path_len
    ∷ units e.value_name
    ∷ le_bytes 2 e.value_name_len
    ∷ e.data_preview
    ∷ le_bytes 2 e.data_preview_len
    ∷ []

unfoldable pub registry_bytes : RegistryEvent → List ℕ
registry_bytes e = pack (registry_fields e)

abbrev pub thread_create_fields : ThreadCreateEvent → List (List ℕ)
thread_create_fields e =
    header_bytes e.header
    ∷ le_bytes 4 e.process_id
    ∷ le_bytes 4 e.thread_id
    ∷ le_bytes 4 e.creating_process_id
    ∷ []

unfoldable pub thread_create_bytes : ThreadCreateEvent → List ℕ
thread_create_bytes e = pack (thread_create_fields e)

abbrev pub thread_exit_fields : ThreadExitEvent → List (List ℕ)
thread_exit_fields e = header_bytes e.header ∷ le_bytes 4 e.process_id ∷ le_bytes 4 e.thread_id ∷ []

unfoldable pub thread_exit_bytes : ThreadExitEvent → List ℕ
thread_exit_bytes e = pack (thread_exit_fields e)

abbrev pub handle_access_fields : ProcessHandleAccessEvent → List (List ℕ)
handle_access_fields e =
    header_bytes e.header
    ∷ le_bytes 4 e.source_process_id
    ∷ le_bytes 4 e.target_process_id
    ∷ le_bytes 4 e.desired_access
    ∷ le_bytes 4 e.original_desired_access
    ∷ le_bytes 2 e.operation
    ∷ []

unfoldable pub handle_access_bytes : ProcessHandleAccessEvent → List ℕ
handle_access_bytes e = pack (handle_access_fields e)
