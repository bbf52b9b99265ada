-- ===== src/Tests/Setting.antt =====
-- A kernel, a memory and a session that the tests share.
use wazabi_edr_driver.Base.{ℕ, ◌+◌, arith, List, [], ◌∷◌, none, some, replicate}
use wazabi_edr_driver.Wdk.{
  Ptr, Irp, Log, UnicodeString, Kernel, create_close, cleanup, device_control, status_success,
}
use wazabi_edr_driver.State.{Slot}
use wazabi_edr_driver.Callbacks.Preserve.Copies.{IsReadable}
use wazabi_edr_driver.Callbacks.Preserve.Keys.{ReadableNames}
use wazabi_edr_driver.Safety.Run.{AllGenuine}
use wazabi_edr_driver.Safety.Registered.{RealHandles}
use wazabi_edr_driver.System.{Request, io, on_thread, on_image, on_process}

abbrev pub actions : Log → ℕ
actions [] = 0
actions (a ∷ l) = 1 + actions l

abbrev pub key_name : UnicodeString
key_name = record { length_bytes = 4; buffer = some (92 ∷ 65 ∷ []) }

-- Pool blocks are numbered by the moment; every call succeeds.
abbrev pub kernel : Kernel
kernel = record {
  ex_allocate_pool2 = λ l size. 1000 + actions l;
  ke_acquire_spin_lock = λ l. 0;
  ke_query_system_time_precise = λ l. actions l;
  ps_get_current_process_id = λ l. 4;
  ps_get_process_id = λ p. p;
  ps_get_process_exit_status = λ p. 0;
  cm_callback_get_key_object_id_ex =
      λ l cookie o. record { status = status_success; pointer = 900; name = some key_name };
  io_create_device = λ l. (status_success, 50);
  io_create_symbolic_link = λ l. status_success;
  register_routine = λ l r. record { status = status_success; cookie = 60 };
}

abbrev pub ring_memory : ℕ → Slot
ring_memory i = record { block = 0; size = 0 }

abbrev pub pool_memory : Ptr → List ℕ
pool_memory p = []

-- Every IRP asks for an event, with room for 64 bytes.
abbrev pub request : Irp
request = record {
  io_control_code = 0x226000;
  output_buffer_length = 64;
  control = 0;
  system_buffer = replicate 64 0;
  status = 0;
  information = 0;
}

abbrev pub irp_memory : Ptr → Irp
irp_memory p = request

-- A thread starts, the agent opens the device and asks twice, the thread exits, an image is loaded, a
-- process ends, and the agent closes its handle.
abbrev pub requests : List Request
requests =
    on_thread 8 9 1
    ∷ io create_close 201
    ∷ io device_control 202
    ∷ io device_control 203
    ∷ on_thread 8 9 0
    ∷ on_image (some key_name) 8 none
    ∷ on_process 300 8 none
    ∷ io cleanup 204
    ∷ []

pub key_name-IsReadable : IsReadable key_name
key_name-IsReadable = record { units = λ us e. ground arith }

pub kernel-ReadableNames : ReadableNames kernel
kernel-ReadableNames l cookie o = key_name-IsReadable

pub kernel-RealHandles : RealHandles kernel
kernel-RealHandles = record { objects = λ l e. ground arith; devices_ = λ l e. ground arith }

pub requests-AllGenuine : AllGenuine requests
requests-AllGenuine = (
  tt,
  (
    ground arith,
    (ground arith, (ground arith, (tt, (key_name-IsReadable, (tt, (ground arith, tt)))))),
  ),
)
