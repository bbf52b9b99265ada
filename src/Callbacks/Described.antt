-- ===== src/Callbacks/Described.antt =====
-- What an event says about the notification that it reports, for each callback of src/callbacks: a
-- description of the events that is independent of how the callbacks build them.
use wazabi_edr_driver.Base.{
  ℕ, ◌-◌, ◌/◌, ◌%◌, ◌^◌, ◌≡◌, ◌≢◌, List, [], Option, none, some, min, length, take, replicate,
  bit_and, if◌then◌else◌, ◌==◌,
}
use wazabi_edr_driver.Wdk.{Ptr, null, Log, Kernel, UnicodeString, as_u32}
use wazabi_edr_driver.Events.{
  EventHeader, RegistryEvent, image_path_max, command_line_max, user_sid_max, registry_key_path_max,
  registry_value_name_max, registry_data_preview_max,
}
use wazabi_edr_driver.Events.Event.{Event}
use wazabi_edr_driver.Callbacks.Process.{CreateNotifyInfo}
use wazabi_edr_driver.Callbacks.Image.{ImageInfo}
use wazabi_edr_driver.Callbacks.Object.{AccessMasks, PreOperationInformation, OperationParameters}
use wazabi_edr_driver.Callbacks.Registry.{
  SetValueInformation, DeleteValueInformation, KeyInformation, CreateKeyInformation, Notification,
  pre_set_value_key, pre_delete_value_key, pre_delete_key, pre_rename_key, pre_create_key_ex,
}
use wazabi_edr_driver.Callbacks.Registry.Prefix.{critical_registry_prefixes}
use wazabi_edr_driver.Callbacks.Registry.Prefix.Matching.{StartsWithAny}

-- The units of a kernel string; none for a null pointer or a null `Buffer`.
abbrev pub text_of : Option UnicodeString → List ℕ
text_of none = []
text_of (some s) = elim s.buffer [ none ↦ [] | some units ↦ take (s.length_bytes / 2) units ]

-- The bytes of a value that is set.
abbrev pub data_of : Option (List ℕ) → ℕ → List ℕ
data_of none size = []
data_of (some bytes) size = take size bytes

-- An array of an event with its length field shows the first `room` units of a text.
pub record Shows (room : ℕ) (text : List ℕ) (field : List ℕ × ℕ) : Type 0 where
  pub amount : field.1 ≡ min (length text) room
  pub units : take field.1 field.0 ≡ take room text

pub data OfThread (k : Kernel) (process_id thread_id : Ptr) (create : ℕ) : Event → Type 0 where
  starts :
      (header : EventHeader) (l : Log)
      → create ≢ 0
      → OfThread k process_id thread_id create (
          Event.thread_create (record {
            header = header;
            process_id = as_u32 process_id;
            thread_id = as_u32 thread_id;
            creating_process_id = as_u32 (k.ps_get_current_process_id l);
          }))
  ends :
      (header : EventHeader)
      → create ≡ 0
      → OfThread k process_id thread_id create (
          Event.thread_exit (record {
            header = header;
            process_id = as_u32 process_id;
            thread_id = as_u32 thread_id;
          }))

pub data OfProcess (k : Kernel) (process process_id : Ptr)
    : Option CreateNotifyInfo → Event → Type 0 where
  exits :
      (header : EventHeader)
      → OfProcess k process process_id none (
          Event.process_exit (record {
            header = header;
            process_id = as_u32 process_id;
            exit_code = if process == null then 0 else k.ps_get_process_exit_status process;
          }))
  created :
      (info : CreateNotifyInfo) (header : EventHeader) (image command : List ℕ × ℕ)
      → Shows (image_path_max - 1) (text_of info.image_file_name) image
      → Shows (command_line_max - 1) (text_of info.command_line) command
      → OfProcess k process process_id (some info) (
          Event.process_create (record {
            header = header;
            process_id = as_u32 process_id;
            parent_process_id = as_u32 info.parent_process_id;
            creating_process_id = as_u32 info.creating_process;
            image_path = image.0;
            image_path_len = image.1;
            command_line = command.0;
            command_line_len = command.1;
            parent_image_path = replicate image_path_max 0;
            parent_image_path_len = 0;
            user_sid = replicate user_sid_max 0;
            user_sid_len = 0;
            integrity_level = 0xFFFFFFFF;
          }))

-- Where the image lies, both numbers as 64 bits; nowhere for a null pointer.
abbrev pub Spans : Option ImageInfo → ℕ → ℕ → Type 0
Spans none base size = (base ≡ 0) × (size ≡ 0)
Spans (some info) base size = (base ≡ info.image_base % 2 ^ 64) × (size ≡ info.image_size % 2 ^ 64)

pub data OfImage (name : Option UnicodeString) (process_id : Ptr) (info : Option ImageInfo)
    : Event → Type 0 where
  loads :
      (header : EventHeader) (path : List ℕ × ℕ) (base size : ℕ)
      → Shows (image_path_max - 1) (text_of name) path
      → Spans info base size
      → OfImage name process_id info (
          Event.image_load (record {
            header = header;
            process_id = as_u32 process_id;
            image_base = base;
            image_size = size;
            image_path = path.0;
            image_path_len = path.1;
          }))

-- The process that an object is; none, so 0, for a null pointer.
abbrev pub pid_of_object : Kernel → Ptr → ℕ
pid_of_object k object = if object == null then 0 else as_u32 (k.ps_get_process_id object)

-- The masks that go with the operation: 1, OB_OPERATION_HANDLE_CREATE, and any other one, which is taken
-- for a duplication.
abbrev pub masks_of : ℕ → OperationParameters → AccessMasks
masks_of operation params =
    if operation == 1 then params.create_handle_information else params.duplicate_handle_information

-- A user-mode handle to another process than the current one, with one of the rights 0x001, 0x002, 0x008,
-- 0x010, 0x020, 0x040 and 0x800.
pub record IsDangerous (k : Kernel) (current : ℕ) (info : PreOperationInformation)
    (masks : AccessMasks) : Type 0 where
  pub user : info.kernel_handle ≡ 0
  pub other : pid_of_object k info.object ≢ current
  pub asks :
      (params : OperationParameters) × (info.parameters ≡ some params)
      × (masks ≡ masks_of info.operation params)
  pub rights : bit_and masks.original_desired_access 0x87B ≢ 0

-- Such a handle is being opened or duplicated, which the event's last field says by 1 and 2.
pub data OfObject (k : Kernel) : Option PreOperationInformation → Event → Type 0 where
  opens :
      (info : PreOperationInformation) (masks : AccessMasks) (header : EventHeader) (l : Log)
      (target code : ℕ)
      → IsDangerous k (as_u32 (k.ps_get_current_process_id l)) info masks
      → target ≡ pid_of_object k info.object
      → code ≡ (if info.operation == 1 then 1 else 2)
      → OfObject k (some info) (
          Event.handle_access (record {
            header = header;
            source_process_id = as_u32 (k.ps_get_current_process_id l);
            target_process_id = target;
            desired_access = masks.desired_access;
            original_desired_access = masks.original_desired_access;
            operation = code;
          }))

-- The path is a name that the kernel gives the key's object, and starts with a watched prefix.
pub data Named (k : Kernel) (object : Ptr) (path : List ℕ × ℕ) : Type 0 where
  named :
      (l : Log) (cookie : ℕ) (name : UnicodeString)
      → (k.cm_callback_get_key_object_id_ex l cookie object).name ≡ some name
      → Shows (registry_key_path_max - 1) (text_of (some name)) path
      → StartsWithAny (take path.1 path.0) critical_registry_prefixes
      → Named k object path

-- The parts that every change of an existing key has; the operation's code is 1 for a value that is set,
-- 2 for one that is deleted, 3 for a key that is deleted, and 4 for one that is renamed.
pub record Changes (k : Kernel) (code : ℕ) (object : Ptr) (e : RegistryEvent) : Type 0 where
  pub operation : e.operation ≡ code
  pub key : Named k object (e.key_path, e.key_path_len)

abbrev pub NamesValue : Option UnicodeString → RegistryEvent → Type 0
NamesValue name e =
    Shows (registry_value_name_max - 1) (text_of name) (e.value_name, e.value_name_len)

pub data OfRegistry (k : Kernel) : Notification → Event → Type 0 where
  sets_value :
      (info : SetValueInformation) (e : RegistryEvent)
      → Changes k 1 info.object e
      → NamesValue info.value_name e
      → e.value_type ≡ info.type_
      → e.data_size ≡ info.data_size
      → Shows registry_data_preview_max
          (data_of info.value info.data_size)
          (e.data_preview, e.data_preview_len)
      → OfRegistry k (pre_set_value_key (some info)) (Event.registry e)
  deletes_value :
      (info : DeleteValueInformation) (e : RegistryEvent)
      → Changes k 2 info.object e
      → NamesValue info.value_name e
      → OfRegistry k (pre_delete_value_key (some info)) (Event.registry e)
  deletes_key :
      (info : KeyInformation) (e : RegistryEvent)
      → Changes k 3 info.object e
      → OfRegistry k (pre_delete_key (some info)) (Event.registry e)
  renames_key :
      (info : KeyInformation) (e : RegistryEvent)
      → Changes k 4 info.object e
      → OfRegistry k (pre_rename_key (some info)) (Event.registry e)
  creates_key :
      (info : CreateKeyInformation) (e : RegistryEvent)
      → e.operation ≡ 5
      → StartsWithAny (text_of info.complete_name) critical_registry_prefixes
      → Shows (registry_key_path_max - 1) (text_of info.complete_name) (e.key_path, e.key_path_len)
      → OfRegistry k (pre_create_key_ex (some info)) (Event.registry e)
