-- ===== src/Tests/Wire.antt =====
-- Events as bytes.
use wazabi_edr_driver.Base.{◌+◌, ◌≡◌, refl, arith, [], ◌∷◌, some}
use wazabi_edr_driver.Wdk.{status_success}
use wazabi_edr_driver.State.{World, loaded}
use wazabi_edr_driver.Events.{EventHeader}
use wazabi_edr_driver.Events.Layout.{thread_create_bytes, header_bytes}
use wazabi_edr_driver.Events.Codec.{le_bytes}
use wazabi_edr_driver.Events.Event.{Event, thread_create, event_bytes}
use wazabi_edr_driver.Events.Decode.{decode_event, Fits, decode_event-event_bytes}
use wazabi_edr_driver.Safety.{completed}
use wazabi_edr_driver.Ring.Inv.{IsValid}
use wazabi_edr_driver.Ring.Refine.{contents}
use wazabi_edr_driver.Dispatch.{ioctl_wedr_get_event, dispatch_device_control}
use wazabi_edr_driver.Callbacks.Header.{submit}
use wazabi_edr_driver.Callbacks.Kept.{WellFormed}
use wazabi_edr_driver.Callbacks.Delivered.{answer, submit-delivers, submit-get_event}
use wazabi_edr_driver.Tests.Setting.{kernel, ring_memory, pool_memory, irp_memory}

abbrev pub created_header : EventHeader
created_header = record {
  version = 6;
  type_ = 5;
  timestamp = 72623859790382856;
  size = 36;
  drop_count = 2;
  trunc_count = 0;
}

abbrev pub created : Event
created =
    thread_create
      (record { header = created_header; process_id = 8; thread_id = 9; creating_process_id = 4 })

created-Fits : Fits created
created-Fits = record {
  header = record {
    version = omega arith;
    type_ = omega arith;
    timestamp = omega arith;
    size = omega arith;
    drop_count = omega arith;
    trunc_count = omega arith;
  };
  process_id = omega arith;
  thread_id = omega arith;
  creating_process_id = omega arith;
}

pub created-WellFormed : WellFormed created
created-WellFormed = record {
  header = record { version = refl; type_ = refl; size_ = refl };
  arrays = tt;
}

-- The bytes of an event, header first, each number least significant byte first.
created_bytes_test :
    event_bytes created
    ≡ 6 ∷ 0 ∷ 5 ∷ 0 ∷ 8 ∷ 7 ∷ 6 ∷ 5 ∷ 4 ∷ 3 ∷ 2 ∷ 1 ∷ 36 ∷ 0 ∷ 0 ∷ 0 ∷ 2 ∷ 0 ∷ 0 ∷ 0 ∷ 0 ∷ 0 ∷ 0 ∷ 0
      ∷ 8 ∷ 0 ∷ 0 ∷ 0 ∷ 9 ∷ 0 ∷ 0 ∷ 0 ∷ 4 ∷ 0 ∷ 0 ∷ 0 ∷ []
unfolding event_bytes thread_create_bytes header_bytes le_bytes
created_bytes_test = refl

decode_event-event_bytes_example : decode_event (event_bytes created) ≡ some created
decode_event-event_bytes_example = decode_event-event_bytes created tt created-Fits refl

-- The driver when IRP 202 waits.
abbrev waiting : World
waiting = record (loaded ring_memory pool_memory irp_memory) { pending_irp = 202 }

submit-delivers_example :
    let irp = (submit kernel 77 created waiting).1.irps 202 in
    (irp.status ≡ status_success)
    × (decode_event (answer irp) ≡ some created)
    × (completed 202 (submit kernel 77 created waiting).1.log ≡ completed 202 waiting.log + 1)
submit-delivers_example =
    submit-delivers kernel 77 created waiting created-WellFormed created-Fits (ground arith)
      (omega arith)

abbrev idle : World
idle = loaded ring_memory pool_memory irp_memory

idle-IsValid : IsValid idle.queue
idle-IsValid = record { head_in = omega arith; len_in = omega arith; tail_at = refl }

asks : (irp_memory 202).io_control_code ≡ ioctl_wedr_get_event
unfolding ioctl_wedr_get_event
asks = refl

submit-get_event_example :
    let (status, w') = dispatch_device_control kernel 202 (submit kernel 77 created idle).1 in
    (status ≡ status_success)
    × ((w'.irps 202).status ≡ status_success)
    × (decode_event (answer (w'.irps 202)) ≡ some created)
    × (contents w'.queue ≡ [])
    × (completed 202 w'.log ≡ completed 202 idle.log + 1)
submit-get_event_example =
    submit-get_event kernel 77 created idle 202 created-WellFormed created-Fits refl idle-IsValid
      refl asks (omega arith)
