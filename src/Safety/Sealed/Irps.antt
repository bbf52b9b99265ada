-- ===== src/Safety/Sealed/Irps.antt =====
-- What submitting an event and serving a request leave of an IRP's answer.
use wazabi_edr_driver.Base.{
  ℕ, ◌≡◌, ◌≢◌, ◌⊎◌, inl, inr, subst, arith, copy_into, ℕ_discrete, Bool-cases, leb, ltb, ◌==◌,
}
use wazabi_edr_driver.Wdk.{
  Ptr, null, Irp, Kernel, DispatchRoutine, create_close, cleanup, device_control, invalid,
  status_success,
}
use wazabi_edr_driver.State.{Slot, World}
use wazabi_edr_driver.Ring.{queue_push_locked, queue_pop_locked}
use wazabi_edr_driver.Submit.{submit_event}
use wazabi_edr_driver.Dispatch.{
  ioctl_wedr_get_event, dispatch_create_close, dispatch_invalid, dispatch_cleanup,
  dispatch_device_control,
}
use wazabi_edr_driver.System.{serve}
use wazabi_edr_driver.Safety.{completed}
use wazabi_edr_driver.Safety.Served.{handed}

-- What a request does to an IRP.
module _ (i : Ptr) (w w' : World) where
  abbrev now : Irp
  now = w'.irps i

  abbrev before : Irp
  before = w.irps i

  -- It is not completed, and keeps its answer.
  abbrev pub Untouched : Type 0
  Untouched =
      (completed i w'.log ≡ completed i w.log)
      × (now.status ≡ before.status)
      × (now.information ≡ before.information)
      × (now.system_buffer ≡ before.system_buffer)

  -- It is completed with a failure, or without any bytes.
  abbrev pub Empty : Type 0
  Empty = (now.status ≢ status_success) ⊎ (now.information ≡ 0)

  -- It is completed with the bytes of a block.
  abbrev pub Got : Slot → Type 0
  Got s =
      (now.information ≡ s.size)
      × (now.system_buffer ≡ copy_into (w.pool s.block) before.system_buffer s.size)

pub submit_event-irp :
    (k : Kernel) (b : Ptr) (size : ℕ) (w : World) (i : Ptr)
    → let w' = (submit_event k b size w).1 in
      Untouched i w w' ⊎ (Empty i w w' ⊎ Got i w w' (record { block = b; size = size }))
unfolding submit_event queue_push_locked
submit_event-irp k b size w i = elim (ℕ_discrete w.pending_irp null) [
  | yes none_ ↦ inl (ground arith, ground arith, ground arith, ground arith)
  | no some_ ↦ elim (ℕ_discrete w.pending_irp i) [
    | no other ↦ inl (ground arith, ground arith, ground arith, ground arith)
    | yes this ↦ elim (Bool-cases (leb size (w.irps w.pending_irp).output_buffer_length)) [
      | inl t ↦ inr (
          inr (
            ground arith,
            subst
                (λ x.
                  ((submit_event k b size w).1.irps x).system_buffer
                  ≡ copy_into (w.pool b) (w.irps x).system_buffer size)
                this (ground arith),
          ))
      | inr t ↦ inr (inl (inl (ground arith)))
    ]
  ]
]

-- What a dispatch routine does to an IRP.
abbrev Served : Ptr → World → World → Type 0
Served i w w' =
    Untouched i w w' ⊎ (Empty i w w' ⊎ ((w.queue.len ≢ 0) × Got i w w' (w.queue.buf w.queue.head)))

control-other :
    (k : Kernel) (irp : Ptr) (w : World) (i : Ptr)
    → irp ≢ i
    → Untouched i w (dispatch_device_control k irp (handed irp w)).1
unfolding dispatch_device_control queue_pop_locked
control-other k irp w i other = (ground arith, ground arith, ground arith, ground arith)

control-own :
    (k : Kernel) (irp : Ptr) (w : World)
    → Served irp w (dispatch_device_control k irp (handed irp w)).1
unfolding dispatch_device_control queue_pop_locked
control-own k irp w = elim (Bool-cases ((w.irps irp).io_control_code == ioctl_wedr_get_event)) [
  | inr f ↦ inr (inl (inl (ground arith)))
  | inl t ↦ elim (ℕ_discrete w.queue.len 0) [
    | yes empty ↦ elim (ℕ_discrete w.pending_irp null) [
      | yes idle ↦ inl (ground arith, ground arith, ground arith, ground arith)
      | no busy ↦ inr (inl (inl (ground arith)))
    ]
    | no some_ ↦
        elim (Bool-cases (ltb (w.irps irp).output_buffer_length (w.queue.buf w.queue.head).size)) [
          | inl short ↦ inr (inl (inl (ground arith)))
          | inr fits ↦ inr (inr (some_, (ground arith, ground arith)))
        ]
  ]
]

pub serve-irp :
    (k : Kernel) (routine : DispatchRoutine) (irp : Ptr) (w : World) (i : Ptr)
    → Served i w (serve k routine irp (handed irp w)).1
unfolding serve dispatch_cleanup dispatch_create_close dispatch_invalid
serve-irp k create_close irp w i = elim (ℕ_discrete irp i) [
  | yes this ↦ inr (inl (inr (ground arith)))
  | no other ↦ inl (ground arith, ground arith, ground arith, ground arith)
]
serve-irp k invalid irp w i = elim (ℕ_discrete irp i) [
  | yes this ↦ inr (inl (inr (ground arith)))
  | no other ↦ inl (ground arith, ground arith, ground arith, ground arith)
]
serve-irp k cleanup irp w i = elim (ℕ_discrete irp i) [
  | yes this ↦ inr (inl (inr (ground arith)))
  | no other ↦ elim (ℕ_discrete w.pending_irp null) [
    | yes none_ ↦ inl (ground arith, ground arith, ground arith, ground arith)
    | no some_ ↦ elim (ℕ_discrete w.pending_irp i) [
      | yes it ↦ inr (inl (inr (ground arith)))
      | no else_ ↦ inl (ground arith, ground arith, ground arith, ground arith)
    ]
  ]
]
serve-irp k device_control irp w i = elim (ℕ_discrete irp i) [
  | yes this ↦
      subst (λ x. Served x w (dispatch_device_control k irp (handed irp w)).1) this
        (control-own k irp w)
  | no other ↦ inl (control-other k irp w i other)
]
