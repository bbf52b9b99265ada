-- ===== src/Submit/Paths.antt =====
-- The three ways of submit_event, and the two of alloc_event.
use wazabi_edr_driver.Base.{
  inl, inr, ℕ_discrete, dec_lt, ℕ, ◌≡◌, ◌≢◌, ◌≤◌, ◌<◌, ◌⊎◌, ◌+◌, arith, copy_into,
}
use wazabi_edr_driver.Wdk.{Ptr, null, Kernel, status_success, status_buffer_too_small}
use wazabi_edr_driver.State.{World, add_u32}
use wazabi_edr_driver.Ring.{queue_push_locked}
use wazabi_edr_driver.Ring.Inv.{IsValid}
use wazabi_edr_driver.Ring.Refine.{contents, fifo_push, contents-pushed}
use wazabi_edr_driver.Submit.{alloc_event, submit_event}
use wazabi_edr_driver.Safety.{completed}

module _ (k : Kernel) (block : Ptr) (size : ℕ) (w : World) where
  -- A waiting IRP whose buffer is long enough is taken from its slot, and completed with success,
  -- the size, and the block's bytes at the start of its buffer; the queue, the drop counter and
  -- every other IRP stay as they are.
  pub submit_event-delivers :
      (i : Ptr)
      → w.pending_irp ≢ null
      → i ≢ w.pending_irp
      → size ≤ (w.irps w.pending_irp).output_buffer_length
      → let irp = w.pending_irp in
        let w' = (submit_event k block size w).1 in
        (w'.pending_irp ≡ null)
        × (w'.irps irp ≡ record (w.irps irp) {
          status = status_success;
          information = size;
          system_buffer = copy_into (w.pool block) (w.irps irp).system_buffer size;
        })
        × (w'.irps i ≡ w.irps i)
        × (w'.queue ≡ w.queue)
        × (w'.drop_count ≡ w.drop_count)
        × (completed irp w'.log ≡ completed irp w.log + 1)
  unfolding submit_event
  submit_event-delivers i p n fits =
      (ground arith, ground arith, ground arith, ground arith, ground arith, ground arith)

  -- A waiting IRP whose buffer is too short is taken from its slot and completed with
  -- STATUS_BUFFER_TOO_SMALL and the needed size, its buffer untouched; the event is counted as
  -- dropped, and the queue and every other IRP stay as they are.
  pub submit_event-rejects :
      (i : Ptr)
      → w.pending_irp ≢ null
      → i ≢ w.pending_irp
      → (w.irps w.pending_irp).output_buffer_length < size
      → let irp = w.pending_irp in
        let w' = (submit_event k block size w).1 in
        (w'.pending_irp ≡ null)
        × (w'.irps irp
            ≡ record (w.irps irp) { status = status_buffer_too_small; information = size })
        × (w'.irps i ≡ w.irps i)
        × (w'.queue ≡ w.queue)
        × (w'.drop_count ≡ add_u32 w.drop_count 1)
        × (completed irp w'.log ≡ completed irp w.log + 1)
  unfolding submit_event
  submit_event-rejects i p n fits =
      (ground arith, ground arith, ground arith, ground arith, ground arith, ground arith)

  -- With no IRP waiting and a valid ring, the event goes to the end of the queue, at the cost of the
  -- oldest one when there are QUEUE_CAP; no IRP changes.
  pub submit_event-queues :
      (i : Ptr)
      → w.pending_irp ≡ null
      → IsValid w.queue
      → let w' = (submit_event k block size w).1 in
        (contents w'.queue ≡ fifo_push (contents w.queue) (record { block = block; size = size }))
        × (w'.pending_irp ≡ null)
        × (w'.irps i ≡ w.irps i)
  unfolding submit_event queue_push_locked
  submit_event-queues i p v = (
    ground (arith, contents-pushed (record { block = block; size = size }) w.queue v),
    ground arith,
    ground arith,
  )

-- `alloc_event` returns null exactly when the pool does, and then counts one drop and one failure;
-- otherwise it returns the pool's block and counts nothing.
pub alloc_event_lem :
    (k : Kernel) (size : ℕ) (w : World)
    → let (b, w') = alloc_event k size w in
      (b ≡ k.ex_allocate_pool2 w.log size)
      × (((b ≡ null)
            × (w'.drop_count ≡ add_u32 w.drop_count 1)
            × (w'.oom_count ≡ add_u32 w.oom_count 1))
          ⊎ ((b ≢ null) × (w'.drop_count ≡ w.drop_count) × (w'.oom_count ≡ w.oom_count)))
unfolding alloc_event
alloc_event_lem k size w = (ground arith, ground arith)

-- On a valid ring `submit_event` goes one of three ways. With an IRP waiting whose buffer is long enough, it
-- takes that IRP and completes it with success, the size, and the block's bytes at the start of its
-- buffer. With an IRP waiting whose buffer is too short, it takes that IRP and completes it with
-- STATUS_BUFFER_TOO_SMALL and the needed size, and counts the event as dropped. With none waiting, it puts
-- the event at the end of the queue, at the cost of the oldest one when there are QUEUE_CAP. The first two
-- leave the queue alone; no way leaves an IRP waiting, or changes an IRP other than the one that waited.
pub submit_event_lem :
    (k : Kernel) (block : Ptr) (size : ℕ) (w : World) (i : Ptr)
    → IsValid w.queue
    → i ≢ w.pending_irp
    → let irp = w.pending_irp in
      let w' = (submit_event k block size w).1 in
      (w'.pending_irp ≡ null)
      × (w'.irps i ≡ w.irps i)
      × (((irp ≢ null)
            × (size ≤ (w.irps irp).output_buffer_length)
            × (w'.irps irp ≡ record (w.irps irp) {
              status = status_success;
              information = size;
              system_buffer = copy_into (w.pool block) (w.irps irp).system_buffer size;
            })
            × (w'.queue ≡ w.queue)
            × (w'.drop_count ≡ w.drop_count)
            × (completed irp w'.log ≡ completed irp w.log + 1))
          ⊎ ((irp ≢ null)
              × ((w.irps irp).output_buffer_length < size)
              × (w'.irps irp
                  ≡ record (w.irps irp) { status = status_buffer_too_small; information = size })
              × (w'.queue ≡ w.queue)
              × (w'.drop_count ≡ add_u32 w.drop_count 1)
              × (completed irp w'.log ≡ completed irp w.log + 1))
          ⊎ ((irp ≡ null)
              × (contents w'.queue
                  ≡ fifo_push (contents w.queue) (record { block = block; size = size }))))
submit_event_lem k block size w i v n = elim (ℕ_discrete w.pending_irp null) [
  | yes z ↦ (let (c, p, o) = submit_event-queues k block size w i z v in (p, o, inr (inr (z, c))))
  | no d ↦ elim (dec_lt (w.irps w.pending_irp).output_buffer_length size) [
    | yes short ↦
        (let (p, a, o, q, c, f) = submit_event-rejects k block size w i d n short in
          (p, o, inr (inl (d, short, a, q, c, f))))
    | no fits ↦
        (let long : size ≤ (w.irps w.pending_irp).output_buffer_length = omega arith in
          let (p, a, o, q, c, f) = submit_event-delivers k block size w i d n long in
          (p, o, inl (d, long, a, q, c, f)))
  ]
]
