-- ===== src/Events/Event.antt =====
-- The seven kinds of events as one type: what a callback hands to the queue.
use wazabi_edr_driver.Base.{ℕ, List, ◌≡◌, ◌∙◌, ap, length}
use wazabi_edr_driver.Events.{
  EventType, EventHeader, ProcessCreateEvent, ProcessExitEvent, ImageLoadEvent, RegistryEvent,
  ThreadCreateEvent, ThreadExitEvent, ProcessHandleAccessEvent, image_path_max,
  size_of_process_create, size_of_process_exit, size_of_image_load, size_of_registry,
  size_of_thread_create, size_of_thread_exit, size_of_handle_access,
}
use wazabi_edr_driver.Events.Codec.{length-pack, total}
use wazabi_edr_driver.Events.Layout.{
  process_create_bytes, process_exit_bytes, image_load_bytes, registry_bytes, thread_create_bytes,
  thread_exit_bytes, handle_access_bytes, process_create_fields, process_exit_fields,
  image_load_fields, registry_fields, thread_create_fields, thread_exit_fields,
  handle_access_fields,
}
use wazabi_edr_driver.Events.Sizes.{
  ProcessCreateArrays, RegistryArrays, widths-process_create, widths-process_exit,
  widths-image_load, widths-registry, widths-thread_create, widths-thread_exit,
  widths-handle_access,
}

pub data Event : Type 0 where
  process_create : ProcessCreateEvent → Event
  process_exit : ProcessExitEvent → Event
  image_load : ImageLoadEvent → Event
  registry : RegistryEvent → Event
  thread_create : ThreadCreateEvent → Event
  thread_exit : ThreadExitEvent → Event
  handle_access : ProcessHandleAccessEvent → Event

unfoldable pub event_bytes : Event → List ℕ
event_bytes (process_create e) = process_create_bytes e
event_bytes (process_exit e) = process_exit_bytes e
event_bytes (image_load e) = image_load_bytes e
event_bytes (registry e) = registry_bytes e
event_bytes (thread_create e) = thread_create_bytes e
event_bytes (thread_exit e) = thread_exit_bytes e
event_bytes (handle_access e) = handle_access_bytes e

-- `size_of` of the structure
abbrev pub event_size : Event → ℕ
event_size (process_create e) = size_of_process_create
event_size (process_exit e) = size_of_process_exit
event_size (image_load e) = size_of_image_load
event_size (registry e) = size_of_registry
event_size (thread_create e) = size_of_thread_create
event_size (thread_exit e) = size_of_thread_exit
event_size (handle_access e) = size_of_handle_access

abbrev pub event_header : Event → EventHeader
event_header (process_create e) = e.header
event_header (process_exit e) = e.header
event_header (image_load e) = e.header
event_header (registry e) = e.header
event_header (thread_create e) = e.header
event_header (thread_exit e) = e.header
event_header (handle_access e) = e.header

-- The `EventType` that goes with the structure.
abbrev pub event_type : Event → EventType
event_type (process_create e) = EventType.process_create
event_type (process_exit e) = EventType.process_exit
event_type (image_load e) = EventType.image_load
event_type (registry e) = EventType.registry_modify
event_type (thread_create e) = EventType.thread_create
event_type (thread_exit e) = EventType.thread_exit
event_type (handle_access e) = EventType.process_handle_access

-- The fixed-size arrays have their declared lengths.
abbrev pub HasArrays : Event → Type 0
HasArrays (process_create e) = ProcessCreateArrays e
HasArrays (process_exit e) = Unit
HasArrays (image_load e) = length e.image_path ≡ image_path_max
HasArrays (registry e) = RegistryArrays e
HasArrays (thread_create e) = Unit
HasArrays (thread_exit e) = Unit
HasArrays (handle_access e) = Unit

-- When an event's arrays have their declared lengths, its bytes are exactly as many as `size_of`
-- its structure.
pub length-event_bytes : (e : Event) → HasArrays e → length (event_bytes e) ≡ event_size e
unfolding event_bytes process_create_bytes process_exit_bytes image_load_bytes registry_bytes
    thread_create_bytes thread_exit_bytes handle_access_bytes
length-event_bytes (process_create e) a =
    length-pack (process_create_fields e) ∙ ap total (widths-process_create e a)
length-event_bytes (process_exit e) a =
    length-pack (process_exit_fields e) ∙ ap total (widths-process_exit e)
length-event_bytes (image_load e) a =
    length-pack (image_load_fields e) ∙ ap total (widths-image_load e a)
length-event_bytes (registry e) a = length-pack (registry_fields e) ∙ ap total (widths-registry e a)
length-event_bytes (thread_create e) a =
    length-pack (thread_create_fields e) ∙ ap total (widths-thread_create e)
length-event_bytes (thread_exit e) a =
    length-pack (thread_exit_fields e) ∙ ap total (widths-thread_exit e)
length-event_bytes (handle_access e) a =
    length-pack (handle_access_fields e) ∙ ap total (widths-handle_access e)
