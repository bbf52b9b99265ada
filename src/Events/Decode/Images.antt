-- ===== src/Events/Decode/Images.antt =====
-- Reading the process and image events from their fields.
use wazabi_edr_driver.Base.{ℕ, ◌<◌, ◌^◌, ◌≡◌, List}
use wazabi_edr_driver.Events.{ProcessCreateEvent, ProcessExitEvent, ImageLoadEvent}
use wazabi_edr_driver.Events.Codec.{of_le_bytes-le_bytes, of_units-units, Below}
use wazabi_edr_driver.Events.Layout.{process_create_fields, process_exit_fields, image_load_fields}
use wazabi_edr_driver.Events.Decode.Header.{
  field, number, array, decode_header, HeaderFits, header_back,
}

pub record ProcessCreateFits (e : ProcessCreateEvent) : Type 0 where
  pub header : HeaderFits e.header
  pub process_id : e.process_id < 256 ^ 4
  pub parent_process_id : e.parent_process_id < 256 ^ 4
  pub creating_process_id : e.creating_process_id < 256 ^ 4
  pub image_path : Below (2 ^ 16) e.image_path
  pub image_path_len : e.image_path_len < 256 ^ 2
  pub command_line : Below (2 ^ 16) e.command_line
  pub command_line_len : e.command_line_len < 256 ^ 2
  pub parent_image_path : Below (2 ^ 16) e.parent_image_path
  pub parent_image_path_len : e.parent_image_path_len < 256 ^ 2
  pub user_sid : Below (2 ^ 16) e.user_sid
  pub user_sid_len : e.user_sid_len < 256 ^ 2
  pub integrity_level : e.integrity_level < 256 ^ 4

abbrev pub process_create_of : List (List ℕ) → ProcessCreateEvent
process_create_of fs = record {
  header = decode_header (field 0 fs);
  process_id = number 1 fs;
  parent_process_id = number 2 fs;
  creating_process_id = number 3 fs;
  image_path = array 4 fs;
  image_path_len = number 5 fs;
  command_line = array 6 fs;
  command_line_len = number 7 fs;
  parent_image_path = array 8 fs;
  parent_image_path_len = number 9 fs;
  user_sid = array 10 fs;
  user_sid_len = number 11 fs;
  integrity_level = number 12 fs;
}

pub process_create_of-fields :
    (e : ProcessCreateEvent) → ProcessCreateFits e → process_create_of (process_create_fields e) ≡ e
process_create_of-fields e f = λ i. record {
  header = header_back e.header f.header i;
  process_id = of_le_bytes-le_bytes 4 e.process_id f.process_id i;
  parent_process_id = of_le_bytes-le_bytes 4 e.parent_process_id f.parent_process_id i;
  creating_process_id = of_le_bytes-le_bytes 4 e.creating_process_id f.creating_process_id i;
  image_path = of_units-units e.image_path f.image_path i;
  image_path_len = of_le_bytes-le_bytes 2 e.image_path_len f.image_path_len i;
  command_line = of_units-units e.command_line f.command_line i;
  command_line_len = of_le_bytes-le_bytes 2 e.command_line_len f.command_line_len i;
  parent_image_path = of_units-units e.parent_image_path f.parent_image_path i;
  parent_image_path_len = of_le_bytes-le_bytes 2 e.parent_image_path_len f.parent_image_path_len i;
  user_sid = of_units-units e.user_sid f.user_sid i;
  user_sid_len = of_le_bytes-le_bytes 2 e.user_sid_len f.user_sid_len i;
  integrity_level = of_le_bytes-le_bytes 4 e.integrity_level f.integrity_level i;
}

pub record ProcessExitFits (e : ProcessExitEvent) : Type 0 where
  pub header : HeaderFits e.header
  pub process_id : e.process_id < 256 ^ 4
  pub exit_code : e.exit_code < 256 ^ 4

abbrev pub process_exit_of : List (List ℕ) → ProcessExitEvent
process_exit_of fs = record {
  header = decode_header (field 0 fs);
  process_id = number 1 fs;
  exit_code = number 2 fs;
}

pub process_exit_of-fields :
    (e : ProcessExitEvent) → ProcessExitFits e → process_exit_of (process_exit_fields e) ≡ e
process_exit_of-fields e f = λ i. record {
  header = header_back e.header f.header i;
  process_id = of_le_bytes-le_bytes 4 e.process_id f.process_id i;
  exit_code = of_le_bytes-le_bytes 4 e.exit_code f.exit_code i;
}

pub record ImageLoadFits (e : ImageLoadEvent) : Type 0 where
  pub header : HeaderFits e.header
  pub process_id : e.process_id < 256 ^ 4
  pub image_base : e.image_base < 256 ^ 8
  pub image_size : e.image_size < 256 ^ 8
  pub image_path : Below (2 ^ 16) e.image_path
  pub image_path_len : e.image_path_len < 256 ^ 2

abbrev pub image_load_of : List (List ℕ) → ImageLoadEvent
image_load_of fs = record {
  header = decode_header (field 0 fs);
  process_id = number 1 fs;
  image_base = number 2 fs;
  image_size = number 3 fs;
  image_path = array 4 fs;
  image_path_len = number 5 fs;
}

pub image_load_of-fields :
    (e : ImageLoadEvent) → ImageLoadFits e → image_load_of (image_load_fields e) ≡ e
image_load_of-fields e f = λ i. record {
  header = header_back e.header f.header i;
  process_id = of_le_bytes-le_bytes 4 e.process_id f.process_id i;
  image_base = of_le_bytes-le_bytes 8 e.image_base f.image_base i;
  image_size = of_le_bytes-le_bytes 8 e.image_size f.image_size i;
  image_path = of_units-units e.image_path f.image_path i;
  image_path_len = of_le_bytes-le_bytes 2 e.image_path_len f.image_path_len i;
}
