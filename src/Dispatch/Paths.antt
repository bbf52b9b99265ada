-- ===== src/Dispatch/Paths.antt =====
-- What each branch of dispatch_device_control and dispatch_cleanup does to the caller's IRP.
use wazabi_edr_driver.Base.{
  ℕ, ◌+◌, dec_lt, ap, sym, ◌∙◌, ◌≡◌, ◌≢◌, ◌≤◌, ◌<◌, ◌⊎◌, arith, inl, inr, ℕ_discrete, List, ◌∷◌,
  copy_into, bit_or,
}
use wazabi_edr_driver.Wdk.{
  Ptr, null, Irp, NtStatus, Kernel, status_success, status_pending, status_unsuccessful,
  status_invalid_device_request, status_buffer_too_small, status_cancelled,
}
use wazabi_edr_driver.State.{Slot, World, add_u32}
use wazabi_edr_driver.Irp.{sl_pending_returned}
use wazabi_edr_driver.Ring.{queue_pop_locked, advance_head}
use wazabi_edr_driver.Ring.Inv.{IsValid}
use wazabi_edr_driver.Ring.Refine.{contents, contents-empty, contents-advance_head}
use wazabi_edr_driver.Safety.{completed}
use wazabi_edr_driver.Dispatch.{ioctl_wedr_get_event, dispatch_cleanup, dispatch_device_control}

-- The caller's IRP as `complete_irp` leaves it, once more completed than before.
abbrev pub Completed : NtStatus → ℕ → Ptr → Irp → World → World → Type 0
Completed status info irp before w w' =
    (w'.irps irp ≡ record before { status = status; information = info })
    × (completed irp w'.log ≡ completed irp w.log + 1)

-- The oldest entry stands at the head.
oldest :
    (w : World) (s : Slot) (rest : List Slot)
    → IsValid w.queue
    → contents w.queue ≡ s ∷ rest
    → (w.queue.len ≢ 0) × (w.queue.buf w.queue.head ≡ s) × (contents (advance_head w.queue) ≡ rest)
oldest w s rest v e = elim (ℕ_discrete w.queue.len 0) [
  | yes z ↦ (let c = contents-empty w.queue z in absurd (ground arith))
  | no n ↦ (let c = contents-advance_head w.queue v n in (n, ground arith, ground arith))
]

module _ (k : Kernel) (irp : Ptr) (w : World)
    (asks : (w.irps irp).io_control_code ≡ ioctl_wedr_get_event) where
  module _ (v : IsValid w.queue) (s : Slot) (rest : List Slot)
      (e : contents w.queue ≡ s ∷ rest) where
    -- On a valid ring whose oldest event fits the caller's buffer, IOCTL_WEDR_GET_EVENT takes that
    -- event off and completes the caller's IRP at once with success, the event's size, and the block's
    -- bytes at the start of its buffer. It counts no drop and leaves a parked IRP alone.
    pub get_event-hands_out :
        s.size ≤ (w.irps irp).output_buffer_length
        → let (status, w') = dispatch_device_control k irp w in
          (status ≡ status_success)
          × (contents w'.queue ≡ rest)
          × (w'.irps irp ≡ record (w.irps irp) {
            status = status_success;
            information = s.size;
            system_buffer = copy_into (w.pool s.block) (w.irps irp).system_buffer s.size;
          })
          × (w'.drop_count ≡ w.drop_count)
          × (w'.pending_irp ≡ w.pending_irp)
          × (completed irp w'.log ≡ completed irp w.log + 1)
    unfolding dispatch_device_control queue_pop_locked
    get_event-hands_out fits =
        let (n, h, c) = oldest w s rest v e in
        (ground arith, ground arith, ground arith, ground arith, ground arith, ground arith)

    -- On a valid ring whose oldest event does not fit the caller's buffer, IOCTL_WEDR_GET_EVENT takes
    -- that event off and loses it: the caller's IRP is completed with STATUS_BUFFER_TOO_SMALL and the
    -- needed size, its buffer untouched, and the loss is counted.
    pub get_event-too_small :
        (w.irps irp).output_buffer_length < s.size
        → let (status, w') = dispatch_device_control k irp w in
          (status ≡ status_buffer_too_small)
          × (contents w'.queue ≡ rest)
          × (w'.irps irp
              ≡ record (w.irps irp) { status = status_buffer_too_small; information = s.size })
          × (w'.drop_count ≡ add_u32 w.drop_count 1)
          × (w'.pending_irp ≡ w.pending_irp)
          × (completed irp w'.log ≡ completed irp w.log + 1)
    unfolding dispatch_device_control queue_pop_locked
    get_event-too_small fits =
        let (n, h, c) = oldest w s rest v e in
        (ground arith, ground arith, ground arith, ground arith, ground arith, ground arith)

  -- On an empty queue IOCTL_WEDR_GET_EVENT parks the caller's IRP, marked pending and not completed,
  -- when none is parked; otherwise it completes the caller's with STATUS_UNSUCCESSFUL and leaves the
  -- parked one in place.
  pub get_event-waits :
      w.queue.len ≡ 0
      → let (status, w') = dispatch_device_control k irp w in
        ((w.pending_irp ≡ null)
          × (status ≡ status_pending)
          × (w'.pending_irp ≡ irp)
          × (w'.irps irp
              ≡ record (w.irps irp) { control = bit_or (w.irps irp).control sl_pending_returned })
          × (completed irp w'.log ≡ completed irp w.log))
        ⊎ ((w.pending_irp ≢ null)
            × (status ≡ status_unsuccessful)
            × (w'.pending_irp ≡ w.pending_irp)
            × Completed status_unsuccessful 0 irp (w.irps irp) w w')
  unfolding dispatch_device_control queue_pop_locked
  get_event-waits n = elim (ℕ_discrete w.pending_irp null) [
    | yes z ↦ inl (z, ground arith, ground arith, ground arith, ground arith)
    | no z ↦ inr (z, ground arith, ground arith, (ground arith, ground arith))
  ]

-- Any other control code completes the caller's IRP with STATUS_INVALID_DEVICE_REQUEST and changes
-- nothing else: no other IRP, and nothing of the driver's state.
pub get_event-refuses :
    (k : Kernel) (irp j : Ptr) (w : World)
    → (w.irps irp).io_control_code ≢ ioctl_wedr_get_event
    → let (status, w') = dispatch_device_control k irp w in
      (status ≡ status_invalid_device_request)
      × (w' ≡ record w { irps = w'.irps; log = w'.log })
      × (w'.irps irp
          ≡ record (w.irps irp) { status = status_invalid_device_request; information = 0 })
      × ((j ≡ irp) ⊎ (w'.irps j ≡ w.irps j))
      × (completed irp w'.log ≡ completed irp w.log + 1)
unfolding dispatch_device_control
get_event-refuses k irp j w n = (
  ground arith,
  ground arith,
  ground arith,
  elim (ℕ_discrete j irp) [ yes e ↦ inl e | no d ↦ inr (ground arith) ],
  ground arith,
)

-- When no IRP is parked or another than the caller's, IRP_MJ_CLEANUP completes the parked one, if
-- there is one, with STATUS_CANCELLED, and the caller's with success; afterwards none is parked,
-- and the queue is as it was.
pub cleanup-cancels :
    (irp : Ptr) (w : World)
    → w.pending_irp ≢ irp
    → let (status, w') = dispatch_cleanup irp w in
      (status ≡ status_success)
      × (w'.pending_irp ≡ null)
      × (w'.queue ≡ w.queue)
      × ((w'.irps irp) ≡ record (w.irps irp) { status = status_success; information = 0 })
      × ((w.pending_irp ≡ null)
          ⊎ (w'.irps w.pending_irp
              ≡ record (w.irps w.pending_irp) { status = status_cancelled; information = 0 }))
unfolding dispatch_cleanup
cleanup-cancels irp w n = (
  ground arith,
  ground arith,
  ground arith,
  ground arith,
  elim (ℕ_discrete w.pending_irp null) [ yes z ↦ inl z | no z ↦ inr (ground arith) ],
)

-- On a valid ring `dispatch_device_control` goes one of five ways, and returns the status that it puts in
-- the caller's IRP, or STATUS_PENDING. Another control code is refused: the caller's IRP is completed, and
-- no other IRP and nothing of the driver's state changes. With an event queued that fits, the oldest is
-- taken off, its bytes go to the start of the caller's buffer, and the IRP is completed with success and
-- its size. With an event queued that does not fit, the oldest is taken off and lost, which is counted,
-- and the IRP is completed with STATUS_BUFFER_TOO_SMALL and the needed size. With nothing queued and
-- none parked, the caller's IRP is parked and marked, and not completed. With nothing queued and one
-- parked, the caller's IRP is completed with STATUS_UNSUCCESSFUL, and the parked one stays. Where the
-- caller's IRP is completed, IofCompleteRequest is called for it exactly once.
pub dispatch_device_control_lem :
    (k : Kernel) (irp j : Ptr) (w : World)
    → IsValid w.queue
    → let stack = w.irps irp in
      let (status, w') = dispatch_device_control k irp w in
      ((stack.io_control_code ≢ ioctl_wedr_get_event)
        × (status ≡ status_invalid_device_request)
        × (w' ≡ record w { irps = w'.irps; log = w'.log })
        × ((j ≡ irp) ⊎ (w'.irps j ≡ w.irps j))
        × Completed status_invalid_device_request 0 irp stack w w')
      ⊎ ((stack.io_control_code ≡ ioctl_wedr_get_event)
          × (((s : Slot) × (contents w.queue ≡ s ∷ contents w'.queue)
                × (w'.pending_irp ≡ w.pending_irp)
                × (((s.size ≤ stack.output_buffer_length)
                      × (status ≡ status_success)
                      × (w'.drop_count ≡ w.drop_count)
                      × Completed status_success s.size irp
                          (record stack {
                            system_buffer = copy_into (w.pool s.block) stack.system_buffer s.size;
                          })
                          w
                          w')
                    ⊎ ((stack.output_buffer_length < s.size)
                        × (status ≡ status_buffer_too_small)
                        × (w'.drop_count ≡ add_u32 w.drop_count 1)
                        × Completed status_buffer_too_small s.size irp stack w w')))
              ⊎ ((w.queue.len ≡ 0)
                  × (((w.pending_irp ≡ null)
                        × (status ≡ status_pending)
                        × (w'.pending_irp ≡ irp)
                        × (w'.irps irp
                            ≡ record stack { control = bit_or stack.control sl_pending_returned })
                        × (completed irp w'.log ≡ completed irp w.log))
                      ⊎ ((w.pending_irp ≢ null)
                          × (status ≡ status_unsuccessful)
                          × (w'.pending_irp ≡ w.pending_irp)
                          × Completed status_unsuccessful 0 irp stack w w')))))
dispatch_device_control_lem k irp j w v =
    elim (ℕ_discrete (w.irps irp).io_control_code ioctl_wedr_get_event) [
      | no c ↦ (let (st, q, i, o, f) = get_event-refuses k irp j w c in inl (c, st, q, o, (i, f)))
      | yes asks ↦ inr (
        asks,
        elim (ℕ_discrete w.queue.len 0) [
          | yes z ↦ inr (z, get_event-waits k irp w asks z)
          | no n ↦
              (let s : Slot = w.queue.buf w.queue.head in
                let first = contents-advance_head w.queue v n in
                inl (elim (dec_lt (w.irps irp).output_buffer_length s.size) [
                  | yes short ↦
                      (let (st, c, i, d, p, f) =
                          get_event-too_small k irp w asks v s _ first short in
                        (s, first ∙ ap (λ xs. s ∷ xs) (sym c), p, inr (short, st, d, (i, f))))
                  | no long ↦
                      (let fits : s.size ≤ (w.irps irp).output_buffer_length = omega arith in
                        let (st, c, i, d, p, f) =
                          get_event-hands_out k irp w asks v s _ first fits in
                        (s, first ∙ ap (λ xs. s ∷ xs) (sym c), p, inl (fits, st, d, (i, f))))
                ]))
        ],
      )
    ]
