-- ===== src/Events/Decode/Others.antt =====
-- Reading the registry, thread and handle events from their fields.
use wazabi_edr_driver.Base.{ℕ, ◌<◌, ◌^◌, ◌≡◌, List}
use wazabi_edr_driver.Events.{
  RegistryEvent, ThreadCreateEvent, ThreadExitEvent, ProcessHandleAccessEvent,
}
use wazabi_edr_driver.Events.Codec.{of_le_bytes-le_bytes, of_units-units, Below}
use wazabi_edr_driver.Events.Layout.{
  registry_fields, thread_create_fields, thread_exit_fields, handle_access_fields,
}
use wazabi_edr_driver.Events.Decode.Header.{
  field, number, array, decode_header, HeaderFits, header_back,
}

pub record RegistryFits (e : RegistryEvent) : Type 0 where
  pub header : HeaderFits e.header
  pub process_id : e.process_id < 256 ^ 4
  pub operation : e.operation < 256 ^ 2
  pub value_type : e.value_type < 256 ^ 4
  pub data_size : e.data_size < 256 ^ 4
  pub key_path : Below (2 ^ 16) e.key_path
  pub key_path_len : e.key_path_len < 256 ^ 2
  pub value_name : Below (2 ^ 16) e.value_name
  pub value_name_len : e.value_name_len < 256 ^ 2
  pub data_preview_len : e.data_preview_len < 256 ^ 2

abbrev pub registry_of : List (List ℕ) → RegistryEvent
registry_of fs = record {
  header = decode_header (field 0 fs);
  process_id = number 1 fs;
  operation = number 2 fs;
  value_type = number 3 fs;
  data_size = number 4 fs;
  key_path = array 5 fs;
  key_path_len = number 6 fs;
  value_name = array 7 fs;
  value_name_len = number 8 fs;
  data_preview = field 9 fs;
  data_preview_len = number 10 fs;
}

pub registry_of-fields : (e : RegistryEvent) → RegistryFits e → registry_of (registry_fields e) ≡ e
registry_of-fields e f = λ i. record {
  header = header_back e.header f.header i;
  process_id = of_le_bytes-le_bytes 4 e.process_id f.process_id i;
  operation = of_le_bytes-le_bytes 2 e.operation f.operation i;
  value_type = of_le_bytes-le_bytes 4 e.value_type f.value_type i;
  data_size = of_le_bytes-le_bytes 4 e.data_size f.data_size i;
  key_path = of_units-units e.key_path f.key_path i;
  key_path_len = of_le_bytes-le_bytes 2 e.key_path_len f.key_path_len i;
  value_name = of_units-units e.value_name f.value_name i;
  value_name_len = of_le_bytes-le_bytes 2 e.value_name_len f.value_name_len i;
  data_preview = e.data_preview;
  data_preview_len = of_le_bytes-le_bytes 2 e.data_preview_len f.data_preview_len i;
}

pub record ThreadCreateFits (e : ThreadCreateEvent) : Type 0 where
  pub header : HeaderFits e.header
  pub process_id : e.process_id < 256 ^ 4
  pub thread_id : e.thread_id < 256 ^ 4
  pub creating_process_id : e.creating_process_id < 256 ^ 4

abbrev pub thread_create_of : List (List ℕ) → ThreadCreateEvent
thread_create_of fs = record {
  header = decode_header (field 0 fs);
  process_id = number 1 fs;
  thread_id = number 2 fs;
  creating_process_id = number 3 fs;
}

pub thread_create_of-fields :
    (e : ThreadCreateEvent) → ThreadCreateFits e → thread_create_of (thread_create_fields e) ≡ e
thread_create_of-fields e f = λ i. record {
  header = header_back e.header f.header i;
  process_id = of_le_bytes-le_bytes 4 e.process_id f.process_id i;
  thread_id = of_le_bytes-le_bytes 4 e.thread_id f.thread_id i;
  creating_process_id = of_le_bytes-le_bytes 4 e.creating_process_id f.creating_process_id i;
}

pub record ThreadExitFits (e : ThreadExitEvent) : Type 0 where
  pub header : HeaderFits e.header
  pub process_id : e.process_id < 256 ^ 4
  pub thread_id : e.thread_id < 256 ^ 4

abbrev pub thread_exit_of : List (List ℕ) → ThreadExitEvent
thread_exit_of fs = record {
  header = decode_header (field 0 fs);
  process_id = number 1 fs;
  thread_id = number 2 fs;
}

pub thread_exit_of-fields :
    (e : ThreadExitEvent) → ThreadExitFits e → thread_exit_of (thread_exit_fields e) ≡ e
thread_exit_of-fields e f = λ i. record {
  header = header_back e.header f.header i;
  process_id = of_le_bytes-le_bytes 4 e.process_id f.process_id i;
  thread_id = of_le_bytes-le_bytes 4 e.thread_id f.thread_id i;
}

pub record ProcessHandleAccessFits (e : ProcessHandleAccessEvent) : Type 0 where
  pub header : HeaderFits e.header
  pub source_process_id : e.source_process_id < 256 ^ 4
  pub target_process_id : e.target_process_id < 256 ^ 4
  pub desired_access : e.desired_access < 256 ^ 4
  pub original_desired_access : e.original_desired_access < 256 ^ 4
  pub operation : e.operation < 256 ^ 2

abbrev pub handle_access_of : List (List ℕ) → ProcessHandleAccessEvent
handle_access_of fs = record {
  header = decode_header (field 0 fs);
  source_process_id = number 1 fs;
  target_process_id = number 2 fs;
  desired_access = number 3 fs;
  original_desired_access = number 4 fs;
  operation = number 5 fs;
}

pub handle_access_of-fields :
    (e : ProcessHandleAccessEvent)
    → ProcessHandleAccessFits e
    → handle_access_of (handle_access_fields e) ≡ e
handle_access_of-fields e f = λ i. record {
  header = header_back e.header f.header i;
  source_process_id = of_le_bytes-le_bytes 4 e.source_process_id f.source_process_id i;
  target_process_id = of_le_bytes-le_bytes 4 e.target_process_id f.target_process_id i;
  desired_access = of_le_bytes-le_bytes 4 e.desired_access f.desired_access i;
  original_desired_access =
      of_le_bytes-le_bytes 4 e.original_desired_access f.original_desired_access i;
  operation = of_le_bytes-le_bytes 2 e.operation f.operation i;
}
