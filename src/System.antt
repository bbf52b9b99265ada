-- ===== src/System.antt =====
-- The running driver: the I/O manager's requests and the kernel's notifications, one after the other.
-- Each is handled whole; Concurrent has the steps of several processors in between.
use wazabi_edr_driver.Base.{ℕ, List, [], ◌∷◌, Option}
use wazabi_edr_driver.Wdk.{
  Ptr, Irp, NtStatus, Kernel, UnicodeString, DispatchRoutine, create_close, cleanup, device_control,
  invalid, receive,
}
use wazabi_edr_driver.State.{Slot, World, loaded, M, ◌>>◌, act}
use wazabi_edr_driver.Dispatch.{
  dispatch_create_close, dispatch_cleanup, dispatch_device_control, dispatch_invalid,
}
use wazabi_edr_driver.Entry.{driver_entry, driver_unload}
use wazabi_edr_driver.Callbacks.Thread.{thread_notify}
use wazabi_edr_driver.Callbacks.Process.{CreateNotifyInfo, process_notify}
use wazabi_edr_driver.Callbacks.Image.{ImageInfo, image_load_notify}
use wazabi_edr_driver.Callbacks.Object.{PreOperationInformation, process_object_notify}
use wazabi_edr_driver.Callbacks.Registry.{Notification, registry_notify}

pub data Request : Type 0 where
  io : DispatchRoutine → Ptr → Request
  on_process : Ptr → Ptr → Option CreateNotifyInfo → Request
  on_image : Option UnicodeString → Ptr → Option ImageInfo → Request
  on_registry : Notification → Request
  on_thread : Ptr → Ptr → ℕ → Request
  on_object : Option PreOperationInformation → Request

unfoldable pub serve : Kernel → DispatchRoutine → Ptr → M NtStatus
serve k create_close irp = dispatch_create_close irp
serve k cleanup irp = dispatch_cleanup irp
serve k device_control irp = dispatch_device_control k irp
serve k invalid irp = dispatch_invalid irp

-- The I/O manager hands the IRP over, which the log records.
unfoldable pub step : Kernel → World → Request → World
unfolding serve act
step k w (io routine irp) = ((act (receive irp) >> serve k routine irp) w).1
step k w (on_process process pid info) = (process_notify k process pid info w).1
step k w (on_image name pid info) = (image_load_notify k name pid info w).1
step k w (on_registry n) = (registry_notify k n w).1
step k w (on_thread pid tid create) = (thread_notify k pid tid create w).1
step k w (on_object info) = (process_object_notify k info w).1

unfoldable pub run : Kernel → World → List Request → World
run k w [] = w
run k w (r ∷ rs) = run k (step k w r) rs

-- The driver is loaded, started, and then used.
unfoldable pub session : Kernel → (ℕ → Slot) → (Ptr → List ℕ) → (Ptr → Irp) → List Request → World
session k buf pool irps rs = run k (driver_entry k (loaded buf pool irps)).1 rs

-- The same, and then unloaded.
unfoldable pub lifetime : Kernel → (ℕ → Slot) → (Ptr → List ℕ) → (Ptr → Irp) → List Request → World
unfolding session
lifetime k buf pool irps rs = (driver_unload k (session k buf pool irps rs)).1
