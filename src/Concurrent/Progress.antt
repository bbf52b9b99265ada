-- ===== src/Concurrent/Progress.antt =====
-- The machine cannot deadlock, and comes to rest when no more requests and notifications come.
use wazabi_edr_driver.Base.{
  ℕ, zero, suc, ◌+◌, ◌*◌, ◌≡◌, ◌≢◌, ◌≤◌, ◌⊎◌, inl, inr, refl, sym, subst, ap, arith, List, [], ◌∷◌,
  ◌++◌, none, Option-cases, length, count, ℕ_discrete,
}
use wazabi_edr_driver.Wdk.{Ptr, null, Irp, Kernel}
use wazabi_edr_driver.State.{Slot, World}
use wazabi_edr_driver.Ring.{queue_push_locked, queue_pop_locked}
use wazabi_edr_driver.Safety.{lock_state, allocated, freed, received, completed, blocks}
use wazabi_edr_driver.Safety.Irps.{parked}
use wazabi_edr_driver.Concurrent.Owners.{block_at, irp_at}
use wazabi_edr_driver.Concurrent.{
  Pc, finished, building, submit_enter, submit_swap, submit_compare, deliver_copy, deliver_unlock,
  deliver_free, deliver_complete, reject_unlock, reject_free, reject_count, reject_complete,
  submit_push, submit_unlock, control_read, control_enter, control_pop, control_popped, short_free,
  short_count, hand_copy, hand_free, control_park, control_unlock, control_mark, cleanup_swap,
  cleanup_cancel, answer, action, Runnable, Machine, Move, move, Reach, later, step,
}
use wazabi_edr_driver.Concurrent.Section.{inside}
use wazabi_edr_driver.Concurrent.Invariant.{total, total-middle}
use wazabi_edr_driver.Concurrent.Safe.{started, Reach-exclusion, Reach-BlockOwned, Reach-IrpOwned}

-- How many steps a processor has left at most.
abbrev pub left : Pc → ℕ
left (finished status) = 0
left (building block ws e) = length ws + 8
left (answer irp status info) = 1
left (deliver_complete pending size) = 1
left (reject_complete pending size) = 1
left (submit_unlock guard) = 1
left (control_mark irp) = 1
left (deliver_free pending block size) = 2
left (reject_count pending size) = 2
left (submit_push guard block size) = 2
left (control_unlock guard irp stored) = 2
left (short_count irp size) = 2
left (hand_free irp slot) = 2
left (cleanup_cancel irp pending) = 2
left (deliver_unlock guard pending block size) = 3
left (reject_free pending block size) = 3
left (short_free irp slot) = 3
left (hand_copy irp slot) = 3
left (control_park guard irp) = 3
left (cleanup_swap irp) = 3
left (deliver_copy guard pending block size) = 4
left (reject_unlock guard pending block size) = 4
left (control_popped guard irp outlen slot) = 4
left (submit_compare guard pending block size) = 5
left (control_pop guard irp outlen) = 5
left (submit_swap guard block size) = 6
left (control_enter irp outlen) = 6
left (submit_enter block size) = 7
left (control_read irp) = 7

action-left :
    (k : Kernel) (pc : Pc) (w : World) → Runnable pc w → left (action k pc w).0 + 1 ≤ left pc
unfolding action queue_push_locked queue_pop_locked
action-left k pc w r = ground arith

abbrev pub steps_left : Machine → ℕ
steps_left s = total left s.threads

Move-steps_left : {k : Kernel} {s t : Machine} → Move k s t → steps_left t + 1 ≤ steps_left s
Move-steps_left {k} (move before after pc w r) = omega (
  arith,
  total-middle left before after pc,
  total-middle left before after (action k pc w).0,
  action-left k pc w r,
)

-- `n` moves, one after the other.
pub data Moves (k : Kernel) : ℕ → Machine → Machine → Type 0 where
  rest : {s : Machine} → Moves k 0 s s
  first : {n : ℕ} {s t u : Machine} → Move k s t → Moves k n t u → Moves k (suc n) s u

Moves-le-left :
    {k : Kernel} {n : ℕ} {s t : Machine} → Moves k n s t → n + steps_left t ≤ steps_left s
Moves-le-left rest = omega arith
Moves-le-left (first m ms) = omega (arith, Move-steps_left m, Moves-le-left ms)

-- How many bytes strings a callback has still to write before its event.
abbrev pub pending_writes : Pc → ℕ
pending_writes (building block ws e) = length ws
pending_writes _ = 0

left-le : (pc : Pc) → left pc ≤ 8 + pending_writes pc
left-le pc = ground arith

total-left-le : (ts : List Pc) → total left ts ≤ 8 * length ts + total pending_writes ts
total-left-le [] = omega arith
total-left-le (pc ∷ ts) = omega (arith, left-le pc, total-left-le ts)

Moves-le :
    {k : Kernel} {n : ℕ} {s t : Machine}
    → Moves k n s t
    → n + steps_left t ≤ 8 * length s.threads + total pending_writes s.threads
Moves-le {s} ms = omega (arith, Moves-le-left ms, total-left-le s.threads)

-- A processor of a given kind, with those before and after it.
split :
    (f : Pc → ℕ) (ts : List Pc)
    → total f ts ≢ 0
    → (before : List Pc) × (pc : Pc) × (after : List Pc) × (ts ≡ before ++ pc ∷ after) × (f pc ≢ 0)
split f [] n = absurd (n refl)
split f (x ∷ ts) n = elim (ℕ_discrete (f x) 0) [
  | yes z ↦
      (let (before, pc, after, e, p) = split f ts (λ q. n (omega arith)) in
        (x ∷ before, pc, after, ap (λ xs. x ∷ xs) e, p))
  | no p ↦ ([], x, ts, refl, p)
]

free-Runnable : (pc : Pc) (w : World) → lock_state w.log ≡ none → left pc ≢ 0 → Runnable pc w
free-Runnable pc w e n = ground arith

inside-Runnable : (pc : Pc) (w : World) → inside pc ≢ 0 → Runnable pc w
inside-Runnable pc w n = ground arith

-- A machine with the given processors, one of which may step.
Runnable-Move :
    (k : Kernel) (w : World) (ts before after : List Pc) (pc : Pc)
    → ts ≡ before ++ pc ∷ after
    → Runnable pc w
    → (t : Machine) × Move k (record { world = w; threads = ts }) t
Runnable-Move k w ts before after pc e r =
    subst (λ xs. (t : Machine) × Move k (record { world = w; threads = xs }) t) (sym e)
      (_, move before after pc w r)

-- However the processors interleaved after DriverEntry, they have all returned, or one of them can move:
-- there is no deadlock.
pub Reach-moves :
    (k : Kernel) (buf : ℕ → Slot) (pool : Ptr → List ℕ) (irps : Ptr → Irp) (s : Machine)
    → Reach k (started k buf pool irps) s
    → (steps_left s ≡ 0) ⊎ ((t : Machine) × Move k s t)
Reach-moves k buf pool irps s r =
    let (one, exact, used, apart) = Reach-exclusion k buf pool irps r in
    elim (ℕ_discrete (steps_left s) 0) [
      | yes z ↦ inl z
      | no n ↦ inr (elim (Option-cases (lock_state s.world.log)) [
        | inl free ↦
            (let (before, pc, after, e, p) = split left s.threads n in
              Runnable-Move k s.world s.threads before after pc e (free-Runnable pc s.world free p))
        | inr (irql, taken) ↦
            (let (before, pc, after, e, p) = split inside s.threads (ground arith) in
              Runnable-Move k s.world s.threads before after pc e (inside-Runnable pc s.world p))
      ])
    ]

-- What holds at rest, with all processors returned.
abbrev pub AtRest : Machine → Type 0
AtRest s =
    (steps_left s ≡ 0)
    × (lock_state s.world.log ≡ none)
    × ((p : Ptr) → allocated p s.world.log ≡ freed p s.world.log + count p (blocks s.world.queue))
    × ((i : Ptr) → i ≢ null → received i s.world.log ≡ completed i s.world.log + parked i s.world)

returned-nothing :
    (pc : Pc) (p : Ptr) → left pc ≡ 0 → (block_at p pc ≡ 0) × (irp_at p pc ≡ 0) × (inside pc ≡ 0)
returned-nothing pc p e = ground arith

all_returned :
    (ts : List Pc) (p : Ptr)
    → total left ts ≡ 0
    → (total (block_at p) ts ≡ 0) × (total (irp_at p) ts ≡ 0) × (total inside ts ≡ 0)
all_returned [] p e = (refl, refl, refl)
all_returned (pc ∷ ts) p e =
    let (a, b, c) = returned-nothing pc p (omega arith) in
    let (x, y, z) = all_returned ts p (omega arith) in (omega arith, omega arith, omega arith)

module _ (k : Kernel) (buf : ℕ → Slot) (pool : Ptr → List ℕ) (irps : Ptr → Irp) where
  rest-AtRest : (s : Machine) → Reach k (started k buf pool irps) s → steps_left s ≡ 0 → AtRest s
  rest-AtRest s r e =
      let (one, exact, used, apart) = Reach-exclusion k buf pool irps r in
      let z = (all_returned s.threads 0 e).2 in
      (
        e,
        ground arith,
        λ p.
            (let o = (Reach-BlockOwned k buf pool irps r p).balance in
              let x = (all_returned s.threads p e).0 in omega arith),
        λ i real.
            (let o = Reach-IrpOwned k buf pool irps r i real in
              let y = (all_returned s.threads i e).1 in omega arith),
      )

  come_to_rest :
      (fuel : ℕ) (s : Machine)
      → steps_left s ≤ fuel
      → Reach k (started k buf pool irps) s
      → (n : ℕ) × (t : Machine) × Moves k n s t × AtRest t
  come_to_rest zero s le r = (0, s, Moves.rest, rest-AtRest s r (omega arith))
  come_to_rest (suc g) s le r = elim (Reach-moves k buf pool irps s r) [
    | inl e ↦ (0, s, Moves.rest, rest-AtRest s r e)
    | inr (t, m) ↦
        (let (n, u, ms, q) =
            come_to_rest g t (omega (arith, Move-steps_left m)) (later r (step m)) in
          (suc n, u, Moves.first m ms, q))
  ]

  Reach-Moves :
      {n : ℕ} {s t : Machine}
      → Reach k (started k buf pool irps) s
      → Moves k n s t
      → Reach k (started k buf pool irps) t
  Reach-Moves r rest = r
  Reach-Moves r (first m ms) = Reach-Moves (later r (step m)) ms

  -- From every machine that comes up after DriverEntry, whatever the schedule, when no more requests and
  -- notifications come: the processors make at most eight moves each, and one more for each write that
  -- a callback has to do to its block before its event; and after any moves either one of them can
  -- make another, or all have returned, the lock is free, every pool block that was allocated has been
  -- freed or stands in the queue, and every IRP has been completed or is parked. So no schedule
  -- deadlocks, and every one comes to rest.
  pub Moves-rest :
      (n : ℕ) (s t : Machine)
      → Reach k (started k buf pool irps) s
      → Moves k n s t
      → (n + steps_left t ≤ 8 * length s.threads + total pending_writes s.threads)
        × (AtRest t ⊎ ((u : Machine) × Move k t u))
  Moves-rest n s t r ms =
      let there = Reach-Moves r ms in
      (
        Moves-le ms,
        elim (Reach-moves k buf pool irps t there) [
          | inl e ↦ inl (rest-AtRest t there e)
          | inr m ↦ inr m
        ],
      )

  -- From every machine that comes up after DriverEntry, the processors can run until all have returned; then
  -- the lock is free, every pool block that was allocated has been freed or stands in the queue, and
  -- every IRP has been completed or is parked.
  pub Reach-AtRest :
      (s : Machine)
      → Reach k (started k buf pool irps) s
      → (n : ℕ) × (t : Machine) × Moves k n s t × AtRest t
  Reach-AtRest s r = come_to_rest (steps_left s) s (omega arith) r
