-- ===== src/Concurrent/Race.antt =====
-- The window of dispatch_device_control between parking its IRP and marking it.
use wazabi_edr_driver.Base.{
  ℕ, zero, suc, ◌≡◌, ◌≢◌, refl, sym, subst, ap, ◌∙◌, arith, List, [], ◌∷◌, ◌++◌, true, false, none,
  some, Option, Bool-cases, inl, inr,
}
use wazabi_edr_driver.Wdk.{
  Ptr, null, Irp, Log, Kernel, NtStatus, device_control, receive, acquire, release, access_irp,
}
use wazabi_edr_driver.State.{Slot, World, loaded}
use wazabi_edr_driver.Ring.{queue_push_locked, queue_pop_locked}
use wazabi_edr_driver.Events.Event.{Event, event_size}
use wazabi_edr_driver.Callbacks.Header.{write_block}
use wazabi_edr_driver.Submit.{submit_event, alloc_event}
use wazabi_edr_driver.Dispatch.{ioctl_wedr_get_event}
use wazabi_edr_driver.Entry.Kept.{EntryKept, driver_entry-Kept}
use wazabi_edr_driver.Safety.Entry.{Unlocked-EntryKept, loaded-Unlocked}
use wazabi_edr_driver.Safety.{lock_state, received, completed, IrpSafe}
use wazabi_edr_driver.Concurrent.{
  Pc, finished, submit_enter, control_mark, control_read, control_enter, action, report, building,
  Runnable, move, step, request, notify, Reach, start, later,
}
use wazabi_edr_driver.Concurrent.Alone.{waits, alone, alone-submit_event}
use wazabi_edr_driver.Concurrent.Safe.{started, Reach-IrpOwned}

-- `n` steps of one processor; `none` when it would have to wait, or has returned.
advance : ℕ → Kernel → Pc → World → Option (Pc × World)
advance zero k pc w = some (pc, w)
advance (suc n) k (finished status) w = none
advance (suc n) k pc w = elim (waits pc w) [
  | true ↦ none
  | false ↦ advance n k (action k pc w).0 (action k pc w).1
]

-- A run of one processor is one of the machine.
module _ (k : Kernel) (start_ : World) (before after : List Pc) where
  abbrev Up : Pc → World → Type 0
  Up pc w = Reach k start_ (record { world = w; threads = before ++ pc ∷ after })

  one_move :
      (pc : Pc) (w : World) → Runnable pc w → Up pc w → Up (action k pc w).0 (action k pc w).1
  one_move pc w r u = later u (step (move before after pc w r))

  alone-Reach :
      (fuel : ℕ) (pc : Pc) (w : World) (status : Option NtStatus) (w' : World)
      → alone fuel k pc w ≡ some (status, w')
      → Up pc w
      → Up (finished status) w'
  unfolding alone
  alone-Reach fuel (finished s) w status w' e u =
      subst (λ (r : Option NtStatus × World). Up (finished r.0) r.1) (ground arith) u
  alone-Reach zero pc w status w' e u = absurd (ground arith)
  alone-Reach (suc fuel) pc w status w' e u = elim (Bool-cases (waits pc w)) [
    | inl t ↦ absurd (ground arith)
    | inr f ↦
        (let r : Runnable pc w = ground arith in
          alone-Reach fuel (action k pc w).0 (action k pc w).1 status w' (ground arith)
            (one_move pc w r u))
  ]

  advance-Reach :
      (n : ℕ) (pc : Pc) (w : World) (pc' : Pc) (w' : World)
      → advance n k pc w ≡ some (pc', w')
      → Up pc w
      → Up pc' w'
  unfolding advance
  advance-Reach zero pc w pc' w' e u = subst (λ (r : Pc × World). Up r.0 r.1) (ground arith) u
  advance-Reach (suc n) (finished s) w pc' w' e u = absurd (ground arith)
  advance-Reach (suc n) pc w pc' w' e u = elim (Bool-cases (waits pc w)) [
    | inl t ↦ absurd (ground arith)
    | inr f ↦
        (let r : Runnable pc w = ground arith in
          advance-Reach n (action k pc w).0 (action k pc w).1 pc' w' (ground arith)
            (one_move pc w r u))
  ]

-- The state when the routine has parked its IRP and dropped the lock, after it was handed over.
abbrev received_world : Ptr → World → World
received_world irp w = record w { log = receive irp ∷ w.log }

abbrev parked_world : Kernel → Ptr → World → World
parked_world k irp w =
    let l = access_irp irp ∷ receive irp ∷ w.log in
    let irql = k.ke_acquire_spin_lock l in
    record w { pending_irp = irp; log = release irql ∷ acquire irql ∷ l }

control-asks :
    (k : Kernel) (irp : Ptr) (w : World)
    → (w.irps irp).io_control_code ≡ ioctl_wedr_get_event
    → action k (control_read irp) (received_world irp w) ≡ (
      control_enter irp (w.irps irp).output_buffer_length,
      record w { log = access_irp irp ∷ receive irp ∷ w.log },
    )
unfolding action
control-asks k irp w asks = ground arith

control-enters :
    (k : Kernel) (irp : Ptr) (outlen : ℕ) (w : World)
    → lock_state w.log ≡ none
    → w.pending_irp ≡ null
    → w.queue.len ≡ 0
    → let irql = k.ke_acquire_spin_lock w.log in
      advance 4 k (control_enter irp outlen) w
      ≡ some (
        control_mark irp,
        record w { pending_irp = irp; log = release irql ∷ acquire irql ∷ w.log },
      )
unfolding advance action queue_pop_locked
control-enters k irp outlen w free idle empty = ground arith

control-parks :
    (k : Kernel) (irp : Ptr) (w : World)
    → lock_state w.log ≡ none
    → w.pending_irp ≡ null
    → w.queue.len ≡ 0
    → (w.irps irp).io_control_code ≡ ioctl_wedr_get_event
    → advance 5 k (control_read irp) (received_world irp w)
      ≡ some (control_mark irp, parked_world k irp w)
unfolding advance
control-parks k irp w free idle empty asks =
    ap (λ (r : Pc × World). advance 4 k r.0 r.1) (control-asks k irp w asks)
    ∙ control-enters k irp _ _ free idle empty

-- A callback for which the pool has a block, after its allocation and its write.
report-builds :
    (k : Kernel) (size : ℕ) (e : Event) (w : World)
    → let block = k.ex_allocate_pool2 w.log size in
      block ≢ null
      → let (pc, w') = report k size [] e w in
        (pc ≡ building block [] e)
        × (lock_state w'.log ≡ lock_state w.log)
        × (w'.pending_irp ≡ w.pending_irp)
        × (w'.irps ≡ w.irps)
unfolding report alloc_event
report-builds k size e w n = (ground arith, ground arith, ground arith, ground arith)

building-submits :
    (k : Kernel) (block : Ptr) (e : Event) (w : World)
    → let (pc, w') = action k (building block [] e) w in
      (pc ≡ submit_enter block (event_size e))
      × (lock_state w'.log ≡ lock_state w.log)
      × (w'.pending_irp ≡ w.pending_irp)
      × (w'.irps ≡ w.irps)
unfolding action write_block
building-submits k block e w = (refl, ground arith, refl, refl)

submit-takes :
    (k : Kernel) (block : Ptr) (size : ℕ) (w : World)
    → w.pending_irp ≢ null
    → (submit_event k block size w).1.pending_irp ≡ null
unfolding submit_event queue_push_locked
submit-takes k block size w n = ground arith

-- DriverEntry parks and queues nothing, and leaves the IRPs alone.
abbrev Untouched : (Ptr → Irp) → World → Type 0
Untouched irps w = (w.pending_irp ≡ null) × (w.queue.len ≡ 0) × (w.irps ≡ irps)

Untouched-EntryKept : (irps : Ptr → Irp) → EntryKept (Untouched irps)
Untouched-EntryKept irps = record {
  acts = λ a w e u. u;
  sets = λ w w' same u.
      (ap (λ c. c.1) same ∙ u.0, ap (λ c. c.0.len) same ∙ u.1, ap (λ c. c.2) same ∙ u.2);
}

started-idle :
    (k : Kernel) (buf : ℕ → Slot) (pool : Ptr → List ℕ) (irps : Ptr → Irp)
    → let w = started k buf pool irps in
      (lock_state w.log ≡ none) × (w.pending_irp ≡ null) × (w.queue.len ≡ 0) × (w.irps ≡ irps)
started-idle k buf pool irps =
    let free = driver_entry-Kept Unlocked-EntryKept k _ (loaded-Unlocked buf pool irps) in
    let rest =
      driver_entry-Kept (Untouched-EntryKept irps) k (loaded buf pool irps) (refl, refl, refl) in
    (free.free_lock, rest.0, rest.1, rest.2)

-- After DriverEntry, for every IRP that asks for an event and every event for which the pool has a block, an
-- interleaving of two processors brings the machine to a state where a callback has returned, the IRP has
-- been completed as often as it was handed over, and dispatch_device_control is about to mark it; that step
-- touches the completed IRP.
pub control_mark-races :
    (k : Kernel) (buf : ℕ → Slot) (pool : Ptr → List ℕ) (irps : Ptr → Irp) (irp : Ptr) (size : ℕ)
    (e : Event)
    → irp ≢ null
    → (irps irp).io_control_code ≡ ioctl_wedr_get_event
    → ((l : Log) → k.ex_allocate_pool2 l size ≢ null)
    → (w : World) × Reach k
        (started k buf pool irps)
        (record { world = w; threads = finished none ∷ control_mark irp ∷ [] })
      × (received irp w.log ≡ completed irp w.log)
      × ¬ IrpSafe irp (action k (control_mark irp) w).1.log
unfolding action
control_mark-races k buf pool irps irp size e real asks allocates =
    let w0 = started k buf pool irps in
    let (free, idle, empty, same) = started-idle k buf pool irps in
    let w1 = parked_world k irp w0 in
    let rest = control_mark irp ∷ [] in
    let asked : (w0.irps irp).io_control_code ≡ ioctl_wedr_get_event =
      ap (λ f. (f irp).io_control_code) same ∙ asks in
    let handed = later start (request device_control irp w0 [] real) in
    let parked =
      advance-Reach k w0 [] [] 5 (control_read irp) (received_world irp w0) (control_mark irp) w1
        (control-parks k irp w0 free idle empty asked) handed in
    let block = k.ex_allocate_pool2 w1.log size in
    let w2 = (report k size [] e w1).1 in
    let (at, open_, waits_, all) = report-builds k size e w1 (allocates w1.log) in
    let built =
      subst (λ pc. Reach k w0 (record { world = w2; threads = pc ∷ rest })) at
        (later parked (notify [] rest size [] e w1)) in
    let w3 = (action k (building block [] e) w2).1 in
    let (to, still, keeps, same') = building-submits k block e w2 in
    let entered = one_move k w0 [] rest (building block [] e) w2 tt built in
    let w4 = (submit_event k block (event_size e) w3).1 in
    let done =
      alone-Reach k w0 [] rest 7 (submit_enter block (event_size e)) w3 none w4
        (alone-submit_event k block (event_size e) w3 (still ∙ open_)) entered in
    let gone : received irp w4.log ≡ completed irp w4.log =
      (let owned = Reach-IrpOwned k buf pool irps done irp real in
        let taken = submit-takes k block (event_size e) w3 (λ z. real (sym (keeps ∙ waits_) ∙ z)) in
        ground arith) in
    (w4, done, gone, λ safe. ground arith)
