-- ===== src/Events/Decode.antt =====
-- A reader of the wire format, as the agent needs one: it cuts the bytes at the packed offsets and
-- reads each field. It is a specification of the layout, independent of the writer.
pub mod Header
pub mod Images
pub mod Others
use wazabi_edr_driver.Base.{
  ℕ, zero, suc, ◌<◌, ◌^◌, ◌≡◌, refl, ap, ◌∙◌, List, [], ◌∷◌, Option, none, some, if◌then◌else◌,
  ◌==◌, arith, ==_refl,
}
use wazabi_edr_driver.Events.{
  event_type_code, EventHeader, ProcessCreateEvent, ProcessExitEvent, ImageLoadEvent, RegistryEvent,
  ThreadCreateEvent, ThreadExitEvent, ProcessHandleAccessEvent,
}
use wazabi_edr_driver.Events.Codec.{
  le_bytes, of_le_bytes, of_le_bytes-le_bytes, units, of_units, of_units-units, Below, unpack,
  unpack-pack, widths, pack,
}
use wazabi_edr_driver.Events.Layout.{
  header_bytes, header_fields, process_create_bytes, process_exit_bytes, image_load_bytes,
  registry_bytes, thread_create_bytes, thread_exit_bytes, handle_access_bytes,
  process_create_fields, process_exit_fields, image_load_fields, registry_fields,
  thread_create_fields, thread_exit_fields, handle_access_fields,
}
use wazabi_edr_driver.Events.Sizes.{
  header_widths, widths-header, process_create_widths, process_exit_widths, image_load_widths,
  registry_widths, thread_create_widths, thread_exit_widths, handle_access_widths,
  widths-process_create, widths-process_exit, widths-image_load, widths-registry,
  widths-thread_create, widths-thread_exit, widths-handle_access,
}
use wazabi_edr_driver.Events.Event.{
  Event, process_create, process_exit, image_load, registry, thread_create, thread_exit,
  handle_access, event_bytes, event_header, event_type, HasArrays,
}
use wazabi_edr_driver.Events.Decode.Header.{
  decode_header, HeaderFits, decode_header-header_bytes, unpack-at,
}
use wazabi_edr_driver.Events.Decode.Images.{
  ProcessCreateFits, ProcessExitFits, ImageLoadFits, process_create_of, process_exit_of,
  image_load_of, process_create_of-fields, process_exit_of-fields, image_load_of-fields,
}
use wazabi_edr_driver.Events.Decode.Others.{
  RegistryFits, ThreadCreateFits, ThreadExitFits, ProcessHandleAccessFits, registry_of,
  thread_create_of, thread_exit_of, handle_access_of, registry_of-fields, thread_create_of-fields,
  thread_exit_of-fields, handle_access_of-fields,
}

abbrev pub Fits : Event → Type 0
Fits (process_create e) = ProcessCreateFits e
Fits (process_exit e) = ProcessExitFits e
Fits (image_load e) = ImageLoadFits e
Fits (registry e) = RegistryFits e
Fits (thread_create e) = ThreadCreateFits e
Fits (thread_exit e) = ThreadExitFits e
Fits (handle_access e) = ProcessHandleAccessFits e

-- The layout behind the header depends on the type.
decode_as : ℕ → List ℕ → Option Event
decode_as t bytes =
    if t == 1
    then some (process_create (process_create_of (unpack process_create_widths bytes)))
    else if t == 2
    then some (process_exit (process_exit_of (unpack process_exit_widths bytes)))
    else if t == 3
    then some (image_load (image_load_of (unpack image_load_widths bytes)))
    else if t == 4
    then some (registry (registry_of (unpack registry_widths bytes)))
    else if t == 5
    then some (thread_create (thread_create_of (unpack thread_create_widths bytes)))
    else if t == 6
    then some (thread_exit (thread_exit_of (unpack thread_exit_widths bytes)))
    else if t == 7
    then some (handle_access (handle_access_of (unpack handle_access_widths bytes)))
    else none

pub decode_event : List ℕ → Option Event
unfolding decode_as
decode_event bytes = decode_as (decode_header bytes).type_ bytes

-- An event's bytes begin with its header's, so the reader finds the type.
decode_header-event_bytes :
    (e : Event) → HeaderFits (event_header e) → decode_header (event_bytes e) ≡ event_header e
unfolding event_bytes process_create_bytes process_exit_bytes image_load_bytes registry_bytes
    thread_create_bytes thread_exit_bytes handle_access_bytes
decode_header-event_bytes (process_create e) f = decode_header-header_bytes e.header _ f
decode_header-event_bytes (process_exit e) f = decode_header-header_bytes e.header _ f
decode_header-event_bytes (image_load e) f = decode_header-header_bytes e.header _ f
decode_header-event_bytes (registry e) f = decode_header-header_bytes e.header _ f
decode_header-event_bytes (thread_create e) f = decode_header-header_bytes e.header _ f
decode_header-event_bytes (thread_exit e) f = decode_header-header_bytes e.header _ f
decode_header-event_bytes (handle_access e) f = decode_header-header_bytes e.header _ f

-- Read as its own kind, an event comes back.
decode_as-event_bytes :
    (e : Event)
    → HasArrays e
    → Fits e
    → decode_as (event_type_code (event_type e)) (event_bytes e) ≡ some e
unfolding decode_as event_bytes process_create_bytes process_exit_bytes image_load_bytes
    registry_bytes thread_create_bytes thread_exit_bytes handle_access_bytes
decode_as-event_bytes (process_create e) a f =
    ap (λ x. some (process_create (process_create_of x)))
      (unpack-at (process_create_fields e) (widths-process_create e a))
    ∙ ap (λ x. some (process_create x)) (process_create_of-fields e f)
decode_as-event_bytes (process_exit e) a f =
    ap (λ x. some (process_exit (process_exit_of x)))
      (unpack-at (process_exit_fields e) (widths-process_exit e))
    ∙ ap (λ x. some (process_exit x)) (process_exit_of-fields e f)
decode_as-event_bytes (image_load e) a f =
    ap (λ x. some (image_load (image_load_of x)))
      (unpack-at (image_load_fields e) (widths-image_load e a))
    ∙ ap (λ x. some (image_load x)) (image_load_of-fields e f)
decode_as-event_bytes (registry e) a f =
    ap (λ x. some (registry (registry_of x))) (unpack-at (registry_fields e) (widths-registry e a))
    ∙ ap (λ x. some (registry x)) (registry_of-fields e f)
decode_as-event_bytes (thread_create e) a f =
    ap (λ x. some (thread_create (thread_create_of x)))
      (unpack-at (thread_create_fields e) (widths-thread_create e))
    ∙ ap (λ x. some (thread_create x)) (thread_create_of-fields e f)
decode_as-event_bytes (thread_exit e) a f =
    ap (λ x. some (thread_exit (thread_exit_of x)))
      (unpack-at (thread_exit_fields e) (widths-thread_exit e))
    ∙ ap (λ x. some (thread_exit x)) (thread_exit_of-fields e f)
decode_as-event_bytes (handle_access e) a f =
    ap (λ x. some (handle_access (handle_access_of x)))
      (unpack-at (handle_access_fields e) (widths-handle_access e))
    ∙ ap (λ x. some (handle_access x)) (handle_access_of-fields e f)

Fits-header : (e : Event) → Fits e → HeaderFits (event_header e)
Fits-header (process_create e) f = f.header
Fits-header (process_exit e) f = f.header
Fits-header (image_load e) f = f.header
Fits-header (registry e) f = f.header
Fits-header (thread_create e) f = f.header
Fits-header (thread_exit e) f = f.header
Fits-header (handle_access e) f = f.header

-- Reading the bytes of an event whose numbers fit their fields, whose arrays have their declared
-- lengths, and whose header names its kind, gives the event back.
pub decode_event-event_bytes :
    (e : Event)
    → HasArrays e
    → Fits e
    → (event_header e).type_ ≡ event_type_code (event_type e)
    → decode_event (event_bytes e) ≡ some e
unfolding decode_event
decode_event-event_bytes e a f t =
    ap (λ n. decode_as n (event_bytes e))
      (ap (λ h. h.type_) (decode_header-event_bytes e (Fits-header e f)) ∙ t)
    ∙ decode_as-event_bytes e a f
