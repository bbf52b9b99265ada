-- ===== src/Events/Wrapped/Fitting.antt =====
-- An event whose numbers are cut to their fields fits, and is otherwise as it was.
use wazabi_edr_driver.Base.{ℕ, ◌%◌, ◌^◌, ◌≡◌, refl, ◌∙◌, List, [], ◌∷◌, arith, length}
use wazabi_edr_driver.Events.{EventHeader}
use wazabi_edr_driver.Events.Codec.{Below}
use wazabi_edr_driver.Events.Event.{
  Event, process_create, process_exit, image_load, registry, thread_create, thread_exit,
  handle_access, event_header, event_type, event_size, HasArrays,
}
use wazabi_edr_driver.Events.Decode.{Fits}
use wazabi_edr_driver.Events.Decode.Header.{HeaderFits}
use wazabi_edr_driver.Events.Wrapped.{wrap_units, wrap_header, wrap}

wrap_units-Below : (us : List ℕ) → Below (2 ^ 16) (wrap_units us)
wrap_units-Below [] = tt
wrap_units-Below (u ∷ us) = (omega arith, wrap_units-Below us)

length-wrap_units : (us : List ℕ) → length (wrap_units us) ≡ length us
length-wrap_units [] = refl
length-wrap_units (u ∷ us) = omega (arith, length-wrap_units us)

wrap_header-Fits : (h : EventHeader) → HeaderFits (wrap_header h)
wrap_header-Fits h = record {
  version = omega arith;
  type_ = omega arith;
  timestamp = omega arith;
  size = omega arith;
  drop_count = omega arith;
  trunc_count = omega arith;
}

pub wrap-Fits : (e : Event) → Fits (wrap e)
wrap-Fits (process_create e) = record {
  header = wrap_header-Fits e.header;
  process_id = omega arith;
  parent_process_id = omega arith;
  creating_process_id = omega arith;
  image_path = wrap_units-Below e.image_path;
  image_path_len = omega arith;
  command_line = wrap_units-Below e.command_line;
  command_line_len = omega arith;
  parent_image_path = wrap_units-Below e.parent_image_path;
  parent_image_path_len = omega arith;
  user_sid = wrap_units-Below e.user_sid;
  user_sid_len = omega arith;
  integrity_level = omega arith;
}
wrap-Fits (process_exit e) = record {
  header = wrap_header-Fits e.header;
  process_id = omega arith;
  exit_code = omega arith;
}
wrap-Fits (image_load e) = record {
  header = wrap_header-Fits e.header;
  process_id = omega arith;
  image_base = omega arith;
  image_size = omega arith;
  image_path = wrap_units-Below e.image_path;
  image_path_len = omega arith;
}
wrap-Fits (registry e) = record {
  header = wrap_header-Fits e.header;
  process_id = omega arith;
  operation = omega arith;
  value_type = omega arith;
  data_size = omega arith;
  key_path = wrap_units-Below e.key_path;
  key_path_len = omega arith;
  value_name = wrap_units-Below e.value_name;
  value_name_len = omega arith;
  data_preview_len = omega arith;
}
wrap-Fits (thread_create e) = record {
  header = wrap_header-Fits e.header;
  process_id = omega arith;
  thread_id = omega arith;
  creating_process_id = omega arith;
}
wrap-Fits (thread_exit e) = record {
  header = wrap_header-Fits e.header;
  process_id = omega arith;
  thread_id = omega arith;
}
wrap-Fits (handle_access e) = record {
  header = wrap_header-Fits e.header;
  source_process_id = omega arith;
  target_process_id = omega arith;
  desired_access = omega arith;
  original_desired_access = omega arith;
  operation = omega arith;
}

pub wrap-HasArrays : (e : Event) → HasArrays e → HasArrays (wrap e)
wrap-HasArrays (process_create e) a = record {
  image_path = length-wrap_units e.image_path ∙ a.image_path;
  command_line = length-wrap_units e.command_line ∙ a.command_line;
  parent_image_path = length-wrap_units e.parent_image_path ∙ a.parent_image_path;
  user_sid = length-wrap_units e.user_sid ∙ a.user_sid;
}
wrap-HasArrays (process_exit e) a = tt
wrap-HasArrays (image_load e) a = length-wrap_units e.image_path ∙ a
wrap-HasArrays (registry e) a = record {
  key_path = length-wrap_units e.key_path ∙ a.key_path;
  value_name = length-wrap_units e.value_name ∙ a.value_name;
  data_preview = a.data_preview;
}
wrap-HasArrays (thread_create e) a = tt
wrap-HasArrays (thread_exit e) a = tt
wrap-HasArrays (handle_access e) a = tt

pub wrap-header : (e : Event) → event_header (wrap e) ≡ wrap_header (event_header e)
wrap-header (process_create e) = refl
wrap-header (process_exit e) = refl
wrap-header (image_load e) = refl
wrap-header (registry e) = refl
wrap-header (thread_create e) = refl
wrap-header (thread_exit e) = refl
wrap-header (handle_access e) = refl

pub wrap-type : (e : Event) → event_type (wrap e) ≡ event_type e
wrap-type (process_create e) = refl
wrap-type (process_exit e) = refl
wrap-type (image_load e) = refl
wrap-type (registry e) = refl
wrap-type (thread_create e) = refl
wrap-type (thread_exit e) = refl
wrap-type (handle_access e) = refl

pub wrap-size :
    (e : Event) → (event_size (wrap e) ≡ event_size e) × (event_size e % 256 ^ 4 ≡ event_size e)
wrap-size (process_create e) = (refl, refl)
wrap-size (process_exit e) = (refl, refl)
wrap-size (image_load e) = (refl, refl)
wrap-size (registry e) = (refl, refl)
wrap-size (thread_create e) = (refl, refl)
wrap-size (thread_exit e) = (refl, refl)
wrap-size (handle_access e) = (refl, refl)
