-- ===== src/Safety/Sealed/Sessions.antt =====
-- The dispatch routines keep the queue's events whole, and so does every session.
use wazabi_edr_driver.Base.{
  ℕ, ◌+◌, ◌≡◌, ◌≢◌, ◌≤◌, ◌⊎◌, inl, inr, sym, ap, subst, ◌∙◌, arith, List, [], ◌∷◌, map, count,
  length,
}
use wazabi_edr_driver.Wdk.{
  Ptr, Irp, Kernel, DispatchRoutine, create_close, cleanup, device_control, invalid,
}
use wazabi_edr_driver.State.{Slot, World, loaded}
use wazabi_edr_driver.Events.Event.{Event, event_bytes, event_size}
use wazabi_edr_driver.Ring.{queue_pop_locked, advance_head}
use wazabi_edr_driver.Ring.Refine.{contents, contents-advance_head}
use wazabi_edr_driver.Callbacks.Kept.{WellFormed}
use wazabi_edr_driver.Entry.Kept.{EntryKept}
use wazabi_edr_driver.System.{serve}
use wazabi_edr_driver.Dispatch.{
  dispatch_create_close, dispatch_invalid, dispatch_cleanup, dispatch_device_control,
}
use wazabi_edr_driver.Safety.{blocks}
use wazabi_edr_driver.Safety.Blocks.{Owned}
use wazabi_edr_driver.Safety.Served.{handed, serve-Owned}
use wazabi_edr_driver.Safety.Entry.{Owned-EntryKept, loaded-Owned}
use wazabi_edr_driver.Safety.Sealed.{Holds, AllHold, Sealed}
use wazabi_edr_driver.Safety.Sealed.Steps.{reseal}
use wazabi_edr_driver.Base.{take, copy_into, take-copy_into, take-all}
use wazabi_edr_driver.Wdk.{status_success}
use wazabi_edr_driver.Events.Event.{length-event_bytes}
use wazabi_edr_driver.Callbacks.Delivered.{answer}
use wazabi_edr_driver.Dispatch.{ioctl_wedr_get_event}
use wazabi_edr_driver.Dispatch.Paths.{get_event-hands_out}
use wazabi_edr_driver.Events.Decode.{decode_event}
use wazabi_edr_driver.Safety.Sealed.Decodes.{WellFormed-decodes}
use wazabi_edr_driver.Base.{some}

-- A dispatch routine takes at most the oldest event off.
serve-frame :
    (k : Kernel) (routine : DispatchRoutine) (irp : Ptr) (w : World)
    → let w' = (serve k routine irp (handed irp w)).1 in
      (w'.pool ≡ w.pool)
      × ((w'.queue ≡ w.queue) ⊎ ((w.queue.len ≢ 0) × (w'.queue ≡ advance_head w.queue)))
unfolding serve dispatch_device_control dispatch_cleanup dispatch_create_close dispatch_invalid
    queue_pop_locked
serve-frame k create_close irp w = (ground arith, ground arith)
serve-frame k cleanup irp w = (ground arith, ground arith)
serve-frame k device_control irp w = (ground arith, ground arith)
serve-frame k invalid irp w = (ground arith, ground arith)

module _ (Good : Event → Type 0) where
  pub oldest-Holds :
      (w : World)
      → Sealed Good [] w
      → w.queue.len ≢ 0
      → Holds Good w.pool (w.queue.buf w.queue.head)
  oldest-Holds w s n =
      let oldest = contents-advance_head w.queue (s.owned 0).valid n in
      (subst (AllHold Good w.pool) oldest s.sealed).0

  pop-Sealed :
      (w w' : World)
      → ((x : Ptr) → Owned x [] w')
      → w.queue.len ≢ 0
      → w'.queue ≡ advance_head w.queue
      → w'.pool ≡ w.pool
      → Sealed Good [] w
      → Sealed Good [] w'
  unfolding blocks
  pop-Sealed w w' owned n q m s =
      let oldest = contents-advance_head w.queue (s.owned 0).valid n in
      let split : AllHold Good w.pool (w.queue.buf w.queue.head ∷ contents (advance_head w.queue)) =
        subst (AllHold Good w.pool) oldest s.sealed in
      record {
        owned = owned;
        once = λ x.
            subst (λ r. count x (blocks r) + 0 ≤ 1) (sym q)
              (let one = s.once x in
                let step = ap (λ ss. count x (map (λ y. y.block) ss)) oldest in
                omega (arith, one, step));
        sealed =
            subst (λ r. AllHold Good w'.pool (contents r)) (sym q)
              (subst (λ f. AllHold Good f (contents (advance_head w.queue))) (sym m) split.1);
      }

  pub serve-Sealed :
      (k : Kernel) (routine : DispatchRoutine) (irp : Ptr) (w : World)
      → Sealed Good [] w
      → Sealed Good [] (serve k routine irp (handed irp w)).1
  serve-Sealed k routine irp w s =
      let w' = (serve k routine irp (handed irp w)).1 in
      let owned : (x : Ptr) → Owned x [] w' = λ x. serve-Owned k routine irp w x (s.owned x) in
      let (m, q) = serve-frame k routine irp w in
      elim q [
        | inl same ↦ reseal Good [] [] w w' owned same m s.once s
        | inr (n, less) ↦ pop-Sealed w w' owned n less m s
      ]

  pub Sealed-EntryKept : EntryKept (Sealed Good [])
  Sealed-EntryKept = record {
    acts = λ a w e s. record {
      owned = λ x. (Owned-EntryKept x).acts a w e (s.owned x);
      once = s.once;
      sealed = s.sealed;
    };
    sets = λ w w' same s.
        reseal Good [] [] w w' (λ x. (Owned-EntryKept x).sets w w' same (s.owned x))
          (ap (λ c. c.0) same) (ap (λ c. c.4) same) s.once s;
  }

  pub loaded-Sealed :
      (buf : ℕ → Slot) (pool : Ptr → List ℕ) (irps : Ptr → Irp)
      → Sealed Good [] (loaded buf pool irps)
  unfolding blocks contents
  loaded-Sealed buf pool irps = record {
    owned = loaded-Owned buf pool irps;
    once = λ p. omega arith;
    sealed = tt;
  }

-- The first bytes of a buffer that a whole event was copied to.
pub whole :
    (pool old : List ℕ) (n : ℕ) (e : Event)
    → WellFormed e
    → n ≡ event_size e
    → pool ≡ event_bytes e
    → take n (copy_into pool old n) ≡ event_bytes e
whole pool old n e wf size bytes =
    let len : length pool ≡ n = ap length bytes ∙ length-event_bytes e wf.arrays ∙ sym size in
    take-copy_into pool old n (omega (arith, len))
    ∙ ap (λ x. take x pool) (sym len)
    ∙ take-all pool
    ∙ bytes

-- In a state where every queued block holds one well-formed event of a kind, when the oldest one fits the buffer of
-- an IRP that asks for an event, IOCTL_WEDR_GET_EVENT completes that IRP with success, and its answer is
-- exactly the bytes of one well-formed event of the kind, of the size that was queued with it, and a reader of the
-- wire format gets a well-formed event with these bytes back.
pub get_event-answers :
    (Good : Event → Type 0) (k : Kernel) (w : World) (irp : Ptr) (s : Slot) (rest : List Slot)
    → Sealed (λ e. WellFormed e × Good e) [] w
    → (w.irps irp).io_control_code ≡ ioctl_wedr_get_event
    → contents w.queue ≡ s ∷ rest
    → s.size ≤ (w.irps irp).output_buffer_length
    → let got = (dispatch_device_control k irp w).1.irps irp in
      (got.status ≡ status_success)
      × ((e : Event) × WellFormed e
          × Good e
          × (s.size ≡ event_size e)
          × (answer got ≡ event_bytes e)
          × ((d : Event) × WellFormed d
              × (event_bytes d ≡ event_bytes e)
              × (decode_event (answer got) ≡ some d)))
get_event-answers Good k w irp s rest all asks first fits =
    let Both : Event → Type 0 = λ e. WellFormed e × Good e in
    let holds : AllHold Both w.pool (s ∷ rest) = subst (AllHold Both w.pool) first all.sealed in
    let (e, (wf, good), size, bytes) = holds.0 in
    let (status, left, got, drops, parked, finished) =
      get_event-hands_out k irp w asks (all.owned 0).valid s rest first fits in
    let answered =
      ap answer got ∙ whole (w.pool s.block) (w.irps irp).system_buffer s.size e wf size bytes in
    let (d, formed, size_d, bytes_d, decodes) = WellFormed-decodes e wf in
    (
      ap (λ i. i.status) got,
      (e, wf, good, size, answered, (d, formed, bytes_d, ap decode_event answered ∙ decodes)),
    )
