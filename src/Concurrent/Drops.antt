-- ===== src/Concurrent/Drops.antt =====
-- DROP_COUNT: every event that is lost is counted once, on every interleaving.
use wazabi_edr_driver.Base.{ℕ, ◌+◌, ◌%◌, ◌^◌, ◌≡◌, refl, sym, subst, ap, arith, List, [], ◌∷◌, ◌++◌}
use wazabi_edr_driver.Wdk.{
  Ptr, Irp, Log, Action, Kernel, DispatchRoutine, allocate_failed, free, write_user,
}
use wazabi_edr_driver.State.{Slot, Ring, World, loaded}
use wazabi_edr_driver.Ring.{queue_push_locked, queue_pop_locked}
use wazabi_edr_driver.Submit.{alloc_event}
use wazabi_edr_driver.Events.Event.{Event}
use wazabi_edr_driver.Entry.Kept.{EntryAction, printing, EntryKept, driver_entry-Kept}
use wazabi_edr_driver.Concurrent.{
  Pc, deliver_unlock, deliver_free, reject_count, short_count, hand_free, action, called, report,
  take_drops, take_truncs, cut, look_up, Machine, move, Step, step, request, notify, Reach, start,
  later,
}
use wazabi_edr_driver.Concurrent.Invariant.{total, total-middle, total-append}
use wazabi_edr_driver.Concurrent.Safe.{started}

-- How many allocations failed, blocks were freed, and events were copied to an IRP.
abbrev pub failures : Log → ℕ
failures [] = 0
failures (allocate_failed size ∷ l) = 1 + failures l
failures (_ ∷ l) = failures l

abbrev pub frees : Log → ℕ
frees [] = 0
frees (free b ∷ l) = 1 + frees l
frees (_ ∷ l) = frees l

abbrev pub copied : Log → ℕ
copied [] = 0
copied (write_user irp n ∷ l) = 1 + copied l
copied (_ ∷ l) = copied l

-- 1 where a processor has freed an event that it has still to count.
abbrev pub uncounted : Pc → ℕ
uncounted (reject_count pending size) = 1
uncounted (short_count irp size) = 1
uncounted _ = 0

-- 1 where a processor has copied an event that it has still to free.
abbrev pub unfreed : Pc → ℕ
unfreed (deliver_unlock guard pending block size) = 1
unfreed (deliver_free pending block size) = 1
unfreed (hand_free irp slot) = 1
unfreed _ = 0

-- `reported` drops went into headers; `u` are still to count, and `n` copied events to free.
abbrev pub Counted : ℕ → ℕ → ℕ → World → Type 0
Counted reported u n w =
    (reported + w.drop_count + u + copied w.log) % 2 ^ 32
    ≡ (failures w.log + frees w.log + n) % 2 ^ 32

action-Counted :
    (k : Kernel) (reported u n : ℕ) (pc : Pc) (w : World)
    → Counted reported (uncounted pc + u) (unfreed pc + n) w
    → Counted reported
        (uncounted (action k pc w).0 + u)
        (unfreed (action k pc w).0 + n)
        (action k pc w).1
unfolding action queue_push_locked queue_pop_locked
action-Counted k reported u n pc w c = ground arith

report-Counted :
    (k : Kernel) (size : ℕ) (ws : List (List ℕ)) (e : Event) (d u n : ℕ) (w : World)
    → Counted d u n w
    → let (pc, w') = report k size ws e w in Counted d (uncounted pc + u) (unfreed pc + n) w'
unfolding report alloc_event
report-Counted k size ws e d u n w c = ground arith

-- How many drops the headers reported on the way to a machine.
abbrev pub step_reported : {k : Kernel} {s t : Machine} → Step k s t → ℕ
step_reported (take_drops w ts) = w.drop_count
step_reported _ = 0

abbrev pub reported : {k : Kernel} {w : World} {s : Machine} → Reach k w s → ℕ
reported start = 0
reported (later r st) = reported r + step_reported st

abbrev AllCounted : ℕ → Machine → Type 0
AllCounted d s = Counted d (total uncounted s.threads) (total unfreed s.threads) s.world

called-quiet :
    (routine : DispatchRoutine) (irp : Ptr)
    → (uncounted (called routine irp) ≡ 0) × (unfreed (called routine irp) ≡ 0)
called-quiet routine irp = ground arith

move-Counted :
    (k : Kernel) (before after : List Pc) (pc : Pc) (w : World) (d : ℕ)
    → AllCounted d (record { world = w; threads = before ++ pc ∷ after })
    → AllCounted d
        (record { world = (action k pc w).1; threads = before ++ (action k pc w).0 ∷ after })
move-Counted k before after pc w d c =
    let u = total uncounted before + total uncounted after in
    let n = total unfreed before + total unfreed after in
    let at_ : Counted d (uncounted pc + u) (unfreed pc + n) w =
      omega
        (arith, c, total-middle uncounted before after pc, total-middle unfreed before after pc) in
    omega (
      arith,
      action-Counted k d u n pc w at_,
      total-middle uncounted before after (action k pc w).0,
      total-middle unfreed before after (action k pc w).0,
    )

step-Counted :
    {k : Kernel} {s t : Machine} (st : Step k s t) (d : ℕ)
    → AllCounted d s
    → AllCounted (d + step_reported st) t
step-Counted {k} (step (move before after pc w r)) d c =
    omega (arith, move-Counted k before after pc w d c)
step-Counted (request routine irp w ts real) d c = omega (arith, c, called-quiet routine irp)
step-Counted {k} (notify before after size ws e w) d c =
    let pc = (report k size ws e w).0 in
    let c' : Counted d (total uncounted (before ++ after)) (total unfreed (before ++ after)) w =
      c in
    omega (
      arith,
      report-Counted k size ws e d (total uncounted (before ++ after))
          (total unfreed (before ++ after)) w c',
      total-append uncounted before after,
      total-append unfreed before after,
      total-middle uncounted before after pc,
      total-middle unfreed before after pc,
    )
step-Counted (take_drops w ts) d c = omega (arith, c)
step-Counted (take_truncs w ts) d c = omega (arith, c)
step-Counted (cut w ts) d c = omega (arith, c)
step-Counted (look_up object w ts) d c = omega (arith, c)

-- DriverEntry neither drops nor frees anything.
Counted-EntryKept : EntryKept (Counted 0 0 0)
Counted-EntryKept = record {
  acts = Counted-acts;
  sets = λ w w' same c.
      (subst
        (λ (x : ℕ × Log).
          (0 + x.0 + 0 + copied x.1) % 2 ^ 32 ≡ (failures x.1 + frees x.1 + 0) % 2 ^ 32)
        (sym (ap (λ (c : Ring × Ptr × (Ptr → Irp) × Log × (Ptr → List ℕ) × ℕ). (c.5, c.3)) same))
        c);
}
  where
    Counted-acts :
        (a : Action) (w : World)
        → EntryAction a
        → Counted 0 0 0 w
        → Counted 0 0 0 (record w { log = a ∷ w.log })
    Counted-acts a w (printing m) c = c
    Counted-acts a w _ c = c

Reach-Counted :
    {k : Kernel} {w : World} {s : Machine}
    → Counted 0 0 0 w
    → (r : Reach k w s) → AllCounted (reported r) s
Reach-Counted c start = c
Reach-Counted c (later r st) = step-Counted st (reported r) (Reach-Counted c r)

-- However the processors interleave after DriverEntry, every lost event is counted in DROP_COUNT exactly once:
-- the failed allocations and the freed blocks are, modulo 2^32, as many as the drops that headers have
-- reported, the drops that DROP_COUNT still holds, and the events that were copied to an IRP; but for the
-- freed events that a processor has still to count, and the copied ones that it has still to free.
pub Reach-drops :
    (k : Kernel) (buf : ℕ → Slot) (pool : Ptr → List ℕ) (irps : Ptr → Irp) {s : Machine}
    (r : Reach k (started k buf pool irps) s)
    → (reported r + s.world.drop_count + total uncounted s.threads + copied s.world.log) % 2 ^ 32
      ≡ (failures s.world.log + frees s.world.log + total unfreed s.threads) % 2 ^ 32
Reach-drops k buf pool irps r =
    Reach-Counted (driver_entry-Kept Counted-EntryKept k (loaded buf pool irps) refl) r
