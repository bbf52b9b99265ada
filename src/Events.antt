-- ===== src/Events.antt =====
-- events.rs: the events as structures. Numbers are bit patterns of their field's width; a fixed-size
-- array is a list of that length.
pub mod Codec
pub mod Layout
pub mod Sizes
pub mod Event
pub mod Decode
pub mod Wrapped
use wazabi_edr_driver.Base.{ℕ, List, ◌+◌, ◌*◌}

abbrev pub event_version : ℕ
event_version = 6

abbrev pub image_path_max : ℕ
image_path_max = 512

abbrev pub command_line_max : ℕ
command_line_max = 4096

abbrev pub user_sid_max : ℕ
user_sid_max = 192

abbrev pub registry_key_path_max : ℕ
registry_key_path_max = 512

abbrev pub registry_value_name_max : ℕ
registry_value_name_max = 128

abbrev pub registry_data_preview_max : ℕ
registry_data_preview_max = 256

pub data EventType : Type 0 where
  process_create process_exit image_load registry_modify thread_create thread_exit : EventType
  process_handle_access : EventType

-- `as u16` on a discriminant
abbrev pub event_type_code : EventType → ℕ
event_type_code EventType.process_create = 1
event_type_code EventType.process_exit = 2
event_type_code EventType.image_load = 3
event_type_code EventType.registry_modify = 4
event_type_code EventType.thread_create = 5
event_type_code EventType.thread_exit = 6
event_type_code EventType.process_handle_access = 7

pub data HandleAccessOp : Type 0 where
  create duplicate : HandleAccessOp

abbrev pub handle_access_op_code : HandleAccessOp → ℕ
handle_access_op_code HandleAccessOp.create = 1
handle_access_op_code HandleAccessOp.duplicate = 2

pub data RegistryOp : Type 0 where
  set_value delete_value delete_key rename_key create_key : RegistryOp

abbrev pub registry_op_code : RegistryOp → ℕ
registry_op_code RegistryOp.set_value = 1
registry_op_code RegistryOp.delete_value = 2
registry_op_code RegistryOp.delete_key = 3
registry_op_code RegistryOp.rename_key = 4
registry_op_code RegistryOp.create_key = 5

pub record EventHeader : Type 0 where
  pub version : ℕ
  pub type_ : ℕ
  pub timestamp : ℕ
  pub size : ℕ
  pub drop_count : ℕ
  pub trunc_count : ℕ

pub record ProcessCreateEvent : Type 0 where
  pub header : EventHeader
  pub process_id : ℕ
  pub parent_process_id : ℕ
  pub creating_process_id : ℕ
  pub image_path : List ℕ
  pub image_path_len : ℕ
  pub command_line : List ℕ
  pub command_line_len : ℕ
  pub parent_image_path : List ℕ
  pub parent_image_path_len : ℕ
  pub user_sid : List ℕ
  pub user_sid_len : ℕ
  pub integrity_level : ℕ

pub record ProcessExitEvent : Type 0 where
  pub header : EventHeader
  pub process_id : ℕ
  pub exit_code : ℕ

pub record ImageLoadEvent : Type 0 where
  pub header : EventHeader
  pub process_id : ℕ
  pub image_base : ℕ
  pub image_size : ℕ
  pub image_path : List ℕ
  pub image_path_len : ℕ

pub record RegistryEvent : Type 0 where
  pub header : EventHeader
  pub process_id : ℕ
  pub operation : ℕ
  pub value_type : ℕ
  pub data_size : ℕ
  pub key_path : List ℕ
  pub key_path_len : ℕ
  pub value_name : List ℕ
  pub value_name_len : ℕ
  pub data_preview : List ℕ
  pub data_preview_len : ℕ

pub record ThreadCreateEvent : Type 0 where
  pub header : EventHeader
  pub process_id : ℕ
  pub thread_id : ℕ
  pub creating_process_id : ℕ

pub record ThreadExitEvent : Type 0 where
  pub header : EventHeader
  pub process_id : ℕ
  pub thread_id : ℕ

pub record ProcessHandleAccessEvent : Type 0 where
  pub header : EventHeader
  pub source_process_id : ℕ
  pub target_process_id : ℕ
  pub desired_access : ℕ
  pub original_desired_access : ℕ
  pub operation : ℕ

-- `core::mem::size_of` of each packed structure: the sum of its fields' widths
abbrev pub size_of_header : ℕ
size_of_header = 2 + 2 + 8 + 4 + 4 + 4

abbrev pub size_of_process_create : ℕ
size_of_process_create =
    size_of_header
    + 4
    + 4
    + 4
    + (2 * image_path_max + 2)
    + (2 * command_line_max + 2)
    + (2 * image_path_max + 2)
    + (2 * user_sid_max + 2)
    + 4

abbrev pub size_of_process_exit : ℕ
size_of_process_exit = size_of_header + 4 + 4

abbrev pub size_of_image_load : ℕ
size_of_image_load = size_of_header + 4 + 8 + 8 + (2 * image_path_max + 2)

abbrev pub size_of_registry : ℕ
size_of_registry =
    size_of_header
    + 4
    + 2
    + 4
    + 4
    + (2 * registry_key_path_max + 2)
    + (2 * registry_value_name_max + 2)
    + (registry_data_preview_max + 2)

abbrev pub size_of_thread_create : ℕ
size_of_thread_create = size_of_header + 4 + 4 + 4

abbrev pub size_of_thread_exit : ℕ
size_of_thread_exit = size_of_header + 4 + 4

abbrev pub size_of_handle_access : ℕ
size_of_handle_access = size_of_header + 4 + 4 + 4 + 4 + 2
