-- ===== src/Events/Wrapped.antt =====
-- An event with each number cut to its field, as the bytes hold it: every event's bytes are those of
-- an event whose numbers fit.
pub mod Bytes
pub mod Fitting
use wazabi_edr_driver.Base.{ℕ, ◌%◌, ◌^◌, ◌≡◌, refl, ap₂, ◌∙◌, List, [], ◌∷◌, map, arith, length}
use wazabi_edr_driver.Events.{EventHeader}
use wazabi_edr_driver.Events.Codec.{le_bytes, units, Below}
use wazabi_edr_driver.Events.Layout.{
  header_bytes, process_create_bytes, process_exit_bytes, image_load_bytes, registry_bytes,
  thread_create_bytes, thread_exit_bytes, handle_access_bytes,
}
use wazabi_edr_driver.Events.Event.{
  Event, process_create, process_exit, image_load, registry, thread_create, thread_exit,
  handle_access, event_bytes, event_header, event_type, event_size, HasArrays,
}
use wazabi_edr_driver.Events.Decode.{Fits}
use wazabi_edr_driver.Events.Decode.Header.{HeaderFits}

abbrev pub wrap_units : List ℕ → List ℕ
wrap_units us = map (λ u. u % 2 ^ 16) us

abbrev pub wrap_header : EventHeader → EventHeader
wrap_header h = record {
  version = h.version % 256 ^ 2;
  type_ = h.type_ % 256 ^ 2;
  timestamp = h.timestamp % 256 ^ 8;
  size = h.size % 256 ^ 4;
  drop_count = h.drop_count % 256 ^ 4;
  trunc_count = h.trunc_count % 256 ^ 4;
}

abbrev pub wrap : Event → Event
wrap (process_create e) = process_create (record {
  header = wrap_header e.header;
  process_id = e.process_id % 256 ^ 4;
  parent_process_id = e.parent_process_id % 256 ^ 4;
  creating_process_id = e.creating_process_id % 256 ^ 4;
  image_path = wrap_units e.image_path;
  image_path_len = e.image_path_len % 256 ^ 2;
  command_line = wrap_units e.command_line;
  command_line_len = e.command_line_len % 256 ^ 2;
  parent_image_path = wrap_units e.parent_image_path;
  parent_image_path_len = e.parent_image_path_len % 256 ^ 2;
  user_sid = wrap_units e.user_sid;
  user_sid_len = e.user_sid_len % 256 ^ 2;
  integrity_level = e.integrity_level % 256 ^ 4;
})
wrap (process_exit e) = process_exit (record {
  header = wrap_header e.header;
  process_id = e.process_id % 256 ^ 4;
  exit_code = e.exit_code % 256 ^ 4;
})
wrap (image_load e) = image_load (record {
  header = wrap_header e.header;
  process_id = e.process_id % 256 ^ 4;
  image_base = e.image_base % 256 ^ 8;
  image_size = e.image_size % 256 ^ 8;
  image_path = wrap_units e.image_path;
  image_path_len = e.image_path_len % 256 ^ 2;
})
wrap (registry e) = registry (record {
  header = wrap_header e.header;
  process_id = e.process_id % 256 ^ 4;
  operation = e.operation % 256 ^ 2;
  value_type = e.value_type % 256 ^ 4;
  data_size = e.data_size % 256 ^ 4;
  key_path = wrap_units e.key_path;
  key_path_len = e.key_path_len % 256 ^ 2;
  value_name = wrap_units e.value_name;
  value_name_len = e.value_name_len % 256 ^ 2;
  data_preview = e.data_preview;
  data_preview_len = e.data_preview_len % 256 ^ 2;
})
wrap (thread_create e) = thread_create (record {
  header = wrap_header e.header;
  process_id = e.process_id % 256 ^ 4;
  thread_id = e.thread_id % 256 ^ 4;
  creating_process_id = e.creating_process_id % 256 ^ 4;
})
wrap (thread_exit e) = thread_exit (record {
  header = wrap_header e.header;
  process_id = e.process_id % 256 ^ 4;
  thread_id = e.thread_id % 256 ^ 4;
})
wrap (handle_access e) = handle_access (record {
  header = wrap_header e.header;
  source_process_id = e.source_process_id % 256 ^ 4;
  target_process_id = e.target_process_id % 256 ^ 4;
  desired_access = e.desired_access % 256 ^ 4;
  original_desired_access = e.original_desired_access % 256 ^ 4;
  operation = e.operation % 256 ^ 2;
})
