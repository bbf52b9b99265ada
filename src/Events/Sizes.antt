-- ===== src/Events/Sizes.antt =====
-- The length of each event's bytes, from its field widths.
use wazabi_edr_driver.Base.{ℕ, ◌*◌, ◌≡◌, ◌∙◌, ap, List, [], ◌∷◌, arith, length}
use wazabi_edr_driver.Events.{
  EventHeader, ProcessCreateEvent, ProcessExitEvent, ImageLoadEvent, RegistryEvent,
  ThreadCreateEvent, ThreadExitEvent, ProcessHandleAccessEvent, image_path_max, command_line_max,
  user_sid_max, registry_key_path_max, registry_value_name_max, registry_data_preview_max,
  size_of_header, size_of_process_create,
}
use wazabi_edr_driver.Events.Codec.{
  length-le_bytes, length-units, length-pack, widths, total, units,
}
use wazabi_edr_driver.Events.Layout.{
  header_fields, header_bytes, process_create_fields, process_create_bytes, process_exit_fields,
  image_load_fields, registry_fields, thread_create_fields, thread_exit_fields,
  handle_access_fields,
}

abbrev pub header_widths : List ℕ
header_widths = 2 ∷ 2 ∷ 8 ∷ 4 ∷ 4 ∷ 4 ∷ []

pub widths-header : (h : EventHeader) → widths (header_fields h) ≡ header_widths
widths-header h = simp length-le_bytes

pub length-header_bytes : (h : EventHeader) → length (header_bytes h) ≡ size_of_header
unfolding header_bytes
length-header_bytes h = length-pack (header_fields h) ∙ ap total (widths-header h)

-- A fixed array of `n` units.
length-array : (us : List ℕ) {n : ℕ} → length us ≡ n → length (units us) ≡ 2 * n
length-array us e = omega (arith, length-units us)

abbrev pub process_create_widths : List ℕ
process_create_widths =
    size_of_header
    ∷ 4
    ∷ 4
    ∷ 4
    ∷ 2 * image_path_max
    ∷ 2
    ∷ 2 * command_line_max
    ∷ 2
    ∷ 2 * image_path_max
    ∷ 2
    ∷ 2 * user_sid_max
    ∷ 2
    ∷ 4
    ∷ []

pub record ProcessCreateArrays (e : ProcessCreateEvent) : Type 0 where
  pub image_path : length e.image_path ≡ image_path_max
  pub command_line : length e.command_line ≡ command_line_max
  pub parent_image_path : length e.parent_image_path ≡ image_path_max
  pub user_sid : length e.user_sid ≡ user_sid_max

pub widths-process_create :
    (e : ProcessCreateEvent)
    → ProcessCreateArrays e
    → widths (process_create_fields e) ≡ process_create_widths
widths-process_create e a = simp (
  length-header_bytes,
  length-le_bytes,
  length-array e.image_path a.image_path,
  length-array e.command_line a.command_line,
  length-array e.parent_image_path a.parent_image_path,
  length-array e.user_sid a.user_sid,
)

pub length-process_create_bytes :
    (e : ProcessCreateEvent)
    → ProcessCreateArrays e
    → length (process_create_bytes e) ≡ size_of_process_create
unfolding process_create_bytes
length-process_create_bytes e a =
    length-pack (process_create_fields e) ∙ ap total (widths-process_create e a)

abbrev pub process_exit_widths : List ℕ
process_exit_widths = size_of_header ∷ 4 ∷ 4 ∷ []

pub widths-process_exit :
    (e : ProcessExitEvent) → widths (process_exit_fields e) ≡ process_exit_widths
widths-process_exit e = simp (length-header_bytes, length-le_bytes)

abbrev pub image_load_widths : List ℕ
image_load_widths = size_of_header ∷ 4 ∷ 8 ∷ 8 ∷ 2 * image_path_max ∷ 2 ∷ []

pub widths-image_load :
    (e : ImageLoadEvent)
    → length e.image_path ≡ image_path_max
    → widths (image_load_fields e) ≡ image_load_widths
widths-image_load e a = simp (length-header_bytes, length-le_bytes, length-array e.image_path a)

abbrev pub registry_widths : List ℕ
registry_widths =
    size_of_header
    ∷ 4
    ∷ 2
    ∷ 4
    ∷ 4
    ∷ 2 * registry_key_path_max
    ∷ 2
    ∷ 2 * registry_value_name_max
    ∷ 2
    ∷ registry_data_preview_max
    ∷ 2
    ∷ []

pub record RegistryArrays (e : RegistryEvent) : Type 0 where
  pub key_path : length e.key_path ≡ registry_key_path_max
  pub value_name : length e.value_name ≡ registry_value_name_max
  pub data_preview : length e.data_preview ≡ registry_data_preview_max

pub widths-registry :
    (e : RegistryEvent) → RegistryArrays e → widths (registry_fields e) ≡ registry_widths
widths-registry e a = simp (
  length-header_bytes,
  length-le_bytes,
  length-array e.key_path a.key_path,
  length-array e.value_name a.value_name,
  a.data_preview,
)

abbrev pub thread_create_widths : List ℕ
thread_create_widths = size_of_header ∷ 4 ∷ 4 ∷ 4 ∷ []

pub widths-thread_create :
    (e : ThreadCreateEvent) → widths (thread_create_fields e) ≡ thread_create_widths
widths-thread_create e = simp (length-header_bytes, length-le_bytes)

abbrev pub thread_exit_widths : List ℕ
thread_exit_widths = size_of_header ∷ 4 ∷ 4 ∷ []

pub widths-thread_exit : (e : ThreadExitEvent) → widths (thread_exit_fields e) ≡ thread_exit_widths
widths-thread_exit e = simp (length-header_bytes, length-le_bytes)

abbrev pub handle_access_widths : List ℕ
handle_access_widths = size_of_header ∷ 4 ∷ 4 ∷ 4 ∷ 4 ∷ 2 ∷ []

pub widths-handle_access :
    (e : ProcessHandleAccessEvent) → widths (handle_access_fields e) ≡ handle_access_widths
widths-handle_access e = simp (length-header_bytes, length-le_bytes)
