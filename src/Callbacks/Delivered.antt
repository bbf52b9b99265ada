-- ===== src/Callbacks/Delivered.antt =====
-- From an emitter to the reader: the agent gets the event that was submitted.
use wazabi_edr_driver.Base.{
  ℕ, ◌+◌, ◌≡◌, ◌≢◌, ◌≤◌, ◌∙◌, sym, ap, subst, arith, List, [], ◌∷◌, take, copy_into, take-copy_into,
  take-all, some,
}
use wazabi_edr_driver.Wdk.{Ptr, null, Irp, Kernel, status_success}
use wazabi_edr_driver.State.{World}
use wazabi_edr_driver.Ring.{queue_push_locked}
use wazabi_edr_driver.Ring.Inv.{IsValid}
use wazabi_edr_driver.Ring.Refine.{contents, fifo_push, contents-empty}
use wazabi_edr_driver.Events.Event.{Event, event_bytes, event_size, length-event_bytes}
use wazabi_edr_driver.Events.Decode.{decode_event, Fits, decode_event-event_bytes}
use wazabi_edr_driver.Submit.{submit_event}
use wazabi_edr_driver.Submit.Paths.{submit_event-queues}
use wazabi_edr_driver.Dispatch.{ioctl_wedr_get_event, dispatch_device_control}
use wazabi_edr_driver.Dispatch.Paths.{get_event-hands_out}
use wazabi_edr_driver.Callbacks.Header.{write_block, submit}
use wazabi_edr_driver.Callbacks.Kept.{WellFormed}
use wazabi_edr_driver.Safety.{completed}

-- What the agent sees of a completed IRP: the first `Information` bytes of its buffer.
abbrev pub answer : Irp → List ℕ
answer irp = take irp.information irp.system_buffer

-- The start of a buffer that an event was copied to reads as that event.
copied :
    (e : Event) (old : List ℕ)
    → WellFormed e
    → Fits e
    → decode_event (take (event_size e) (copy_into (event_bytes e) old (event_size e))) ≡ some e
copied e old wf f =
    let len = length-event_bytes e wf.arrays in
    let whole : take (event_size e) (event_bytes e) ≡ event_bytes e =
      ap (λ n. take n (event_bytes e)) (sym len) ∙ take-all (event_bytes e) in
    ap decode_event (take-copy_into (event_bytes e) old (event_size e) (omega arith) ∙ whole)
    ∙ decode_event-event_bytes e wf.arrays f wf.header.type_

-- A well-formed event whose numbers fit their fields, submitted while an IRP with a long enough
-- buffer waits, completes that IRP with success, and its answer decodes to the event.
pub submit-delivers :
    (k : Kernel) (p : Ptr) (e : Event) (w : World)
    → WellFormed e
    → Fits e
    → w.pending_irp ≢ null
    → event_size e ≤ (w.irps w.pending_irp).output_buffer_length
    → let irp = (submit k p e w).1.irps w.pending_irp in
      (irp.status ≡ status_success)
      × (decode_event (answer irp) ≡ some e)
      × (completed w.pending_irp (submit k p e w).1.log ≡ completed w.pending_irp w.log + 1)
unfolding submit write_block submit_event
submit-delivers k p e w wf f n fits =
    let got : (submit k p e w).1.irps w.pending_irp ≡ record (w.irps w.pending_irp) {
      status = status_success;
      information = event_size e;
      system_buffer = copy_into (event_bytes e) (w.irps w.pending_irp).system_buffer (event_size e);
    } =
      ground arith in
    (ap (λ i. i.status) got, ap (λ i. decode_event (answer i)) got ∙ copied e _ wf f, ground arith)

-- A well-formed event whose numbers fit their fields, submitted when no IRP waits and the queue is empty,
-- is what the next IOCTL_WEDR_GET_EVENT with a long enough buffer gets: that IRP is completed with
-- success, its answer decodes to the event, and the queue is empty again.
pub submit-get_event :
    (k : Kernel) (p : Ptr) (e : Event) (w : World) (irp : Ptr)
    → WellFormed e
    → Fits e
    → w.pending_irp ≡ null
    → IsValid w.queue
    → w.queue.len ≡ 0
    → (w.irps irp).io_control_code ≡ ioctl_wedr_get_event
    → event_size e ≤ (w.irps irp).output_buffer_length
    → let (status, w') = dispatch_device_control k irp (submit k p e w).1 in
      (status ≡ status_success)
      × ((w'.irps irp).status ≡ status_success)
      × (decode_event (answer (w'.irps irp)) ≡ some e)
      × (contents w'.queue ≡ [])
      × (completed irp w'.log ≡ completed irp w.log + 1)
unfolding submit write_block submit_event queue_push_locked fifo_push
submit-get_event k p e w irp wf f n v empty asks fits =
    let w1 : World = (submit k p e w).1 in
    let pool : w1.pool p ≡ event_bytes e = ground arith in
    let unfinished : completed irp w1.log ≡ completed irp w.log = ground arith in
    let same : w1.irps irp ≡ w.irps irp = ground arith in
    let v1 : IsValid w1.queue = ground (arith) in
    let one : contents w1.queue ≡ record { block = p; size = event_size e } ∷ [] =
      (submit_event-queues k p (event_size e) (write_block p (event_bytes e) w).1 irp n v).0
      ∙ ap (λ xs. fifo_push xs (record { block = p; size = event_size e }))
          (contents-empty w.queue empty) in
    let (status, rest, got, drops, parked, finished) =
      get_event-hands_out k irp w1 (ap (λ i. i.io_control_code) same ∙ asks) v1
        (record { block = p; size = event_size e }) [] one
        (subst (λ i. event_size e ≤ i.output_buffer_length) (sym same) fits) in
    (
      status,
      ap (λ i. i.status) got,
      ap (λ i. decode_event (answer i)) got
          ∙ ap
              (λ b.
                decode_event
                  (take (event_size e) (copy_into b (w1.irps irp).system_buffer (event_size e))))
              pool
          ∙ copied e _ wf f,
      rest,
      omega (arith, finished, unfinished),
    )
