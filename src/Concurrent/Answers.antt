-- ===== src/Concurrent/Answers.antt =====
-- From DriverEntry on, every answer that a processor copies to an IRP is one whole event.
use wazabi_edr_driver.Base.{
  ℕ, ◌+◌, ◌≡◌, inl, inr, sym, subst, ◌∙◌, ap, arith, List, [], ◌∷◌, ◌++◌, take, none, some, Option,
  copy_into,
}
use wazabi_edr_driver.Submit.{alloc_event}
use wazabi_edr_driver.Base.{◌≤◌, ℕ_discrete}
use wazabi_edr_driver.Wdk.{
  Ptr, null, Irp, Kernel, DispatchRoutine, create_close, cleanup, device_control, invalid,
}
use wazabi_edr_driver.State.{Slot, World}
use wazabi_edr_driver.Events.Event.{Event, event_bytes, event_size}
use wazabi_edr_driver.Events.Decode.{decode_event}
use wazabi_edr_driver.Callbacks.Kept.{WellFormed}
use wazabi_edr_driver.Entry.Kept.{driver_entry-Kept}
use wazabi_edr_driver.Safety.{allocated, freed}
use wazabi_edr_driver.Safety.Sealed.{Holds, Fresh}
use wazabi_edr_driver.Safety.Sealed.Decodes.{WellFormed-decodes}
use wazabi_edr_driver.Safety.Sealed.Sessions.{Sealed-EntryKept, loaded-Sealed, whole}
use wazabi_edr_driver.Concurrent.{
  Pc, deliver_copy, hand_copy, action, building, called, report, take_drops, take_truncs, cut,
  look_up, Machine, move, Step, step, request, notify, Reach, start, later,
}
use wazabi_edr_driver.Concurrent.Invariant.{Sound, Reach-Sound}
use wazabi_edr_driver.Concurrent.Safe.{started, started-Sound}
use wazabi_edr_driver.Concurrent.Notified.{report-frame, report-ways}
use wazabi_edr_driver.Concurrent.Charges.{
  slot_of, charge_of, whole_event, HoldsIf, Carries, AllCarry, AllCarry-middle, AllCarry-insert,
}
use wazabi_edr_driver.Concurrent.Whole.{Whole, move-Whole}

-- The callbacks report events of a kind.
module _ (Good : Event → Type 0) where
  -- The event that a callback with a block is to report.
  abbrev pub Promises : Pc → Type 0
  Promises (building block ws e) = Good e
  Promises _ = Unit

  abbrev pub StepReports : {k : Kernel} {s t : Machine} → Step k s t → Type 0
  StepReports {k} (notify before after size ws e w) = Promises (report k size ws e w).0
  StepReports _ = Unit

  abbrev pub Reports : {k : Kernel} {w : World} {s : Machine} → Reach k w s → Type 0
  Reports start = Unit
  Reports (later r st) = Reports r × StepReports st

-- A pool that hands out no block in use keeps every block out once at most.
report-single :
    (k : Kernel) (fresh : Fresh k) (size : ℕ) (ws : List (List ℕ)) (e : Event) (w : World) (p : Ptr)
    → allocated p w.log ≤ freed p w.log + 1
    → let w' = (report k size ws e w).1 in allocated p w'.log ≤ freed p w'.log + 1
unfolding report alloc_event
report-single k fresh size ws e w p h = elim (ℕ_discrete (k.ex_allocate_pool2 w.log size) null) [
  | yes z ↦ ground arith
  | no n ↦
      (let unused = fresh.unused w.log size n in
        elim (ℕ_discrete (k.ex_allocate_pool2 w.log size) p) [
          | yes same ↦
              (let back = subst (λ x. allocated x w.log ≤ freed x w.log) same unused in
                ground arith)
          | no other ↦ ground arith
        ])
]

module _ (Good : Event → Type 0) where
  notify-Whole :
      (k : Kernel) (fresh : Fresh k) (before after : List Pc) (size : ℕ) (ws : List (List ℕ))
      (e : Event) (w : World)
      → Promises Good (report k size ws e w).0
      → Whole Good (record { world = w; threads = before ++ after })
      → Whole Good (record {
        world = (report k size ws e w).1;
        threads = before ++ (report k size ws e w).0 ∷ after;
      })
  notify-Whole k fresh before after size ws e w good h =
      let pc = (report k size ws e w).0 in
      let (l, q, p, out, m) = report-frame k size ws e w in
      let own : Carries Good w.pool pc = elim (report-ways k size ws e w) [
        | inl (z, is) ↦ subst (Carries Good w.pool) (sym is) tt
        | inr (n, is) ↦ subst (Carries Good w.pool) (sym is) (subst (Promises Good) is good)
      ] in
      record {
        queued = rw (m, q) h.queued;
        carried =
            subst (λ f. AllCarry Good f (before ++ pc ∷ after)) (sym m)
              (AllCarry-insert Good w.pool before after pc own h.carried);
        single = λ p. report-single k fresh size ws e w p (h.single p);
      }

  called-Carries :
      (routine : DispatchRoutine) (irp : Ptr) (pool : Ptr → List ℕ)
      → Carries Good pool (called routine irp)
  called-Carries create_close irp pool = tt
  called-Carries cleanup irp pool = tt
  called-Carries device_control irp pool = tt
  called-Carries invalid irp pool = tt

  step-Whole :
      {k : Kernel} {s t : Machine}
      → Fresh k
      → (st : Step k s t) → StepReports Good st
      → Sound s
      → Whole Good s
      → Whole Good t
  step-Whole {k} fresh (step (move before after pc w r)) wf s h =
      move-Whole Good k before after pc w s h
  step-Whole fresh (request routine irp w ts real) wf s h = record {
    queued = h.queued;
    carried = (called-Carries routine irp w.pool, h.carried);
    single = h.single;
  }
  step-Whole {k} fresh (notify before after size ws e w) wf s h =
      notify-Whole k fresh before after size ws e w wf h
  step-Whole fresh (take_drops w ts) wf s h = record {
    queued = h.queued;
    carried = h.carried;
    single = h.single;
  }
  step-Whole fresh (take_truncs w ts) wf s h = record {
    queued = h.queued;
    carried = h.carried;
    single = h.single;
  }
  step-Whole fresh (cut w ts) wf s h = record {
    queued = h.queued;
    carried = h.carried;
    single = h.single;
  }
  step-Whole fresh (look_up object w ts) wf s h = record {
    queued = h.queued;
    carried = h.carried;
    single = h.single;
  }

  started-Whole :
      (k : Kernel) (buf : ℕ → Slot) (pool : Ptr → List ℕ) (irps : Ptr → Irp)
      → Whole Good (record { world = started k buf pool irps; threads = [] })
  started-Whole k buf pool irps = record {
    queued =
        (driver_entry-Kept (Sealed-EntryKept Good) k _ (loaded-Sealed Good buf pool irps)).sealed;
    carried = tt;
    single = λ p.
        (let b =
            (driver_entry-Kept (Sealed-EntryKept Good) k _ (loaded-Sealed Good buf pool irps)) in
          let o = (b.owned p).balance in let one = b.once p in omega (arith, o, one));
  }

  Reach-Whole :
      {k : Kernel} {w : World} {s : Machine}
      → Fresh k
      → Sound (record { world = w; threads = [] })
      → Whole Good (record { world = w; threads = [] })
      → (r : Reach k w s) → Reports Good r
      → Whole Good s
  Reach-Whole fresh sound h start wf = h
  Reach-Whole fresh sound h (later r st) (wfs, wf) =
      step-Whole fresh st wf (Reach-Sound sound r) (Reach-Whole fresh sound h r wfs)

-- The IRP that the processor's next step copies an event to, and the bytes of it.
abbrev pub copies : Pc → Option (Ptr × Slot)
copies (deliver_copy guard pending block size) = some (pending, slot_of block size)
copies (hand_copy irp slot) = some (irp, slot)
copies _ = none

copies-slot :
    (pc : Pc) (irp : Ptr) (s : Slot) → copies pc ≡ some (irp, s) → charge_of pc ≡ whole_event s
copies-slot pc irp s e = ground arith

copies-buffer :
    (k : Kernel) (pc : Pc) (w : World) (irp : Ptr) (s : Slot)
    → copies pc ≡ some (irp, s)
    → ((action k pc w).1.irps irp).system_buffer
      ≡ copy_into (w.pool s.block) (w.irps irp).system_buffer s.size
unfolding action
copies-buffer k pc w irp s e = ground arith

-- However the processors interleave after DriverEntry, when the callbacks report well-formed events of a kind
-- and the pool hands out no block in use, the step of submit_event or dispatch_device_control that copies
-- an event to an IRP fills the IRP's buffer with the bytes of one whole well-formed event of the kind, of
-- the size that is noted with its block, and a reader of the wire format gets a well-formed event with
-- these bytes back.
pub Reach-answers :
    (Good : Event → Type 0) (k : Kernel) (fresh : Fresh k) (buf : ℕ → Slot) (pool : Ptr → List ℕ)
    (irps : Ptr → Irp) (before after : List Pc) (pc : Pc) (w : World)
    (r : Reach k (started k buf pool irps) (record { world = w; threads = before ++ pc ∷ after }))
    → Reports (λ e. WellFormed e × Good e) r
    → (irp : Ptr) (s : Slot) → copies pc ≡ some (irp, s)
    → let got = take s.size ((action k pc w).1.irps irp).system_buffer in
      (e : Event) × WellFormed e
      × Good e
      × (s.size ≡ event_size e)
      × (got ≡ event_bytes e)
      × ((d : Event) × WellFormed d × (event_bytes d ≡ event_bytes e) × (decode_event got ≡ some d))
Reach-answers Good k fresh buf pool irps before after pc w r reports irp s c =
    let Both : Event → Type 0 = λ e. WellFormed e × Good e in
    let h =
      Reach-Whole Both fresh (started-Sound k buf pool irps) (started-Whole Both k buf pool irps) r
        reports in
    let own = (AllCarry-middle Both w.pool before after pc h.carried).0 in
    let held : Holds Both w.pool s = subst (HoldsIf Both w.pool) (copies-slot pc irp s c) own in
    let (e, (wf, good), size, bytes) = held in
    let copied =
      ap (take s.size) (copies-buffer k pc w irp s c)
      ∙ whole (w.pool s.block) (w.irps irp).system_buffer s.size e wf size bytes in
    let (d, formed, size_d, bytes_d, decodes) = WellFormed-decodes e wf in
    (e, wf, good, size, copied, (d, formed, bytes_d, ap decode_event copied ∙ decodes))
