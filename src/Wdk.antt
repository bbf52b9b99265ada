-- ===== src/Wdk.antt =====
-- What the driver sees of the Windows kernel: its constants and types (wdk_sys), the calls that the
-- driver makes, and their results. The kernel is not part of the repository, so its results are
-- a parameter, `Kernel`: each is any function of what the driver has done so far.
use wazabi_edr_driver.Base.{ℕ, ◌^◌, ◌%◌, Bool, Option, List, leb}

-- An address; a HANDLE is one too.
abbrev pub Ptr : Type 0
Ptr = ℕ

abbrev pub null : Ptr
null = 0

-- An `as u32` cast, also of a HANDLE by way of `usize`.
abbrev pub as_u32 : ℕ → ℕ
as_u32 n = n % 2 ^ 32

abbrev pub as_u16 : ℕ → ℕ
as_u16 n = n % 2 ^ 16

-- An NTSTATUS is a 32-bit pattern, negative from 2^31 on. Values as in ntstatus.h.
abbrev pub NtStatus : Type 0
NtStatus = ℕ

abbrev pub is_negative : NtStatus → Bool
is_negative s = leb (2 ^ 31) s

abbrev pub status_success : NtStatus
status_success = 0

abbrev pub status_pending : NtStatus
status_pending = 0x103

abbrev pub status_unsuccessful : NtStatus
status_unsuccessful = 0xC0000001

abbrev pub status_invalid_device_request : NtStatus
status_invalid_device_request = 0xC0000010

abbrev pub status_buffer_too_small : NtStatus
status_buffer_too_small = 0xC0000023

abbrev pub status_cancelled : NtStatus
status_cancelled = 0xC0000120

-- UNICODE_STRING: `Length` counts bytes; the buffer's units stand for the memory behind `Buffer`.
pub record UnicodeString : Type 0 where
  pub length_bytes : ℕ
  pub buffer : Option (List ℕ)

-- The parts of an IRP and of its current stack location that the driver reads or writes.
pub record Irp : Type 0 where
  pub io_control_code : ℕ
  pub output_buffer_length : ℕ
  pub control : ℕ
  pub system_buffer : List ℕ
  pub status : NtStatus
  pub information : ℕ

-- The dispatch routines that a slot of `MajorFunction` can point to.
pub data DispatchRoutine : Type 0 where
  create_close cleanup device_control invalid : DispatchRoutine

-- The five notification routines.
pub data Routine : Type 0 where
  process_routine image_routine registry_routine thread_routine object_routine : Routine

pub data Message : Type 0 where
  entry_called create_device_failed create_symlink_failed : Message
  routine_failed : Routine → Message
  ready ready_degraded out_of_memory unload_stopping unload_bye : Message

-- What the resolvers of callbacks/process.rs get from the kernel, to be given back: a reference to a
-- process or to a token, the name that SeLocateProcessImageName allocated, what
-- SeQueryInformationToken allocated, and the text that RtlConvertSidToUnicodeString allocated.
pub data Resource : Type 0 where
  process_reference : Resource
  token_reference : Resource
  image_name : Resource
  token_information : Resource
  sid_text : Resource

-- What the driver does that others can see: its kernel calls with their results, and its accesses
-- through an IRP pointer.
pub data Action : Type 0 where
  -- the I/O manager hands an IRP to a dispatch routine
  receive : Ptr → Action
  -- ExAllocatePool2: the size, and the block; or the size, when it returned null
  allocate : ℕ → Ptr → Action
  allocate_failed : ℕ → Action
  -- ExFreePool
  free : Ptr → Action
  -- a read or write of a pool block
  access_block : Ptr → Action
  -- KeAcquireSpinLockRaiseToDpc, with the IRQL it returned; KeReleaseSpinLock, with the IRQL given
  acquire : ℕ → Action
  release : ℕ → Action
  -- a read or write of an IRP, or of its stack location
  access_irp : Ptr → Action
  -- `n` bytes written to the IRP's system buffer
  write_user : Ptr → ℕ → Action
  -- IofCompleteRequest, with the Status and Information in the IRP
  complete : Ptr → NtStatus → ℕ → Action
  dbg_print : Message → Action
  -- CmCallbackGetKeyObjectIDEx that returned a name, with the pointer to it;
  -- CmCallbackReleaseKeyObjectIDEx of a pointer
  get_key_name : Ptr → Action
  release_key_name : Ptr → Action
  obtain : Resource → Ptr → Action
  give_back : Resource → Ptr → Action
  -- the calls of DriverEntry and DriverUnload
  initialize_lock : Action
  create_device : List ℕ → Ptr → Action
  set_buffered_io : Ptr → Action
  delete_device : Ptr → Action
  create_symlink : List ℕ → List ℕ → Action
  delete_symlink : List ℕ → Action
  -- with the cookie or handle, where the routine has one, and 0 where it has none
  register : Routine → ℕ → Action
  unregister : Routine → ℕ → Action

-- Newest first.
abbrev pub Log : Type 0
Log = List Action

-- What CmCallbackGetKeyObjectIDEx gives back: a status, the pointer to the name that it stores, and
-- the name behind it, `none` for a null pointer.
pub record KeyName : Type 0 where
  pub status : NtStatus
  pub pointer : Ptr
  pub name : Option UnicodeString

-- A registration: its status, and the cookie or handle that it stores.
pub record Registration : Type 0 where
  pub status : NtStatus
  pub cookie : ℕ

-- The kernel's answers.
pub record Kernel : Type 0 where
  pub ex_allocate_pool2 : Log → ℕ → Ptr
  pub ke_acquire_spin_lock : Log → ℕ
  pub ke_query_system_time_precise : Log → ℕ
  pub ps_get_current_process_id : Log → Ptr
  pub ps_get_process_id : Ptr → Ptr
  pub ps_get_process_exit_status : Ptr → ℕ
  pub cm_callback_get_key_object_id_ex : Log → ℕ → Ptr → KeyName
  pub io_create_device : Log → NtStatus × Ptr
  pub io_create_symbolic_link : Log → NtStatus
  pub register_routine : Log → Routine → Registration
