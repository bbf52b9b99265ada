-- ===== src/Concurrent/Invariant.antt =====
-- The invariants of the machine, under any interleaving.
use wazabi_edr_driver.Base.{
  ℕ, ◌+◌, ◌≡◌, ◌≢◌, ◌≤◌, inl, inr, refl, sym, subst, ◌∙◌, ap, arith, List, [], ◌∷◌, ◌++◌,
  ℕ_discrete, none, some,
}
use wazabi_edr_driver.Wdk.{Ptr, null, Kernel, DispatchRoutine, receive}
use wazabi_edr_driver.State.{World}
use wazabi_edr_driver.Events.Event.{Event}
use wazabi_edr_driver.Safety.{lock_state, one_if}
use wazabi_edr_driver.Concurrent.{
  Pc, action, called, report, take_drops, take_truncs, cut, look_up, Runnable, Machine, move, Step,
  step, request, notify, Reach, start, later,
}
use wazabi_edr_driver.Concurrent.Owners.{
  block_at, irp_at, BlockOwned, IrpOwned, action-BlockOwned, action-IrpOwned,
}
use wazabi_edr_driver.Concurrent.Notified.{
  report-frame, report-BlockOwned, report-IrpOwned, report-LockUsed,
}
use wazabi_edr_driver.Concurrent.Section.{
  inside, held, Relies, LockUsed, Exclusive, action-Relies, action-held, action-LockUsed,
  action-Exclusive, outside-frame, frame-Relies, outside-Relies,
}

-- A count over all processors.
abbrev pub total : (Pc → ℕ) → List Pc → ℕ
total f [] = 0
total f (pc ∷ ts) = f pc + total f ts

pub total-middle :
    (f : Pc → ℕ) (before after : List Pc) (pc : Pc)
    → total f (before ++ pc ∷ after) ≡ f pc + (total f before + total f after)
total-middle f [] after pc = omega arith
total-middle f (x ∷ before) after pc = omega (arith, total-middle f before after pc)

abbrev pub AllRely : List Pc → World → Type 0
AllRely [] w = Unit
AllRely (pc ∷ ts) w = Relies pc w × AllRely ts w

pub AllRely-split :
    (before after : List Pc) (pc : Pc) (w : World)
    → AllRely (before ++ pc ∷ after) w
    → Relies pc w × AllRely before w × AllRely after w
AllRely-split [] after pc w (h, hs) = (h, tt, hs)
AllRely-split (x ∷ before) after pc w (h, hs) =
    let (one, left, right) = AllRely-split before after pc w hs in (one, (h, left), right)

AllRely-join :
    (before after : List Pc) (pc : Pc) (w : World)
    → Relies pc w
    → AllRely before w
    → AllRely after w
    → AllRely (before ++ pc ∷ after) w
AllRely-join [] after pc w h left right = (h, right)
AllRely-join (x ∷ before) after pc w h (one, left) right =
    (one, AllRely-join before after pc w h left right)

pub record Sound (s : Machine) : Type 0 where
  pub blocks_owned : (p : Ptr) → BlockOwned p (total (block_at p) s.threads) s.world
  pub irps_owned : (i : Ptr) → i ≢ null → IrpOwned i (total (irp_at i) s.threads) s.world
  pub lock : total inside s.threads ≡ held s.world
  pub rely : AllRely s.threads s.world
  pub used : LockUsed s.world.log
  pub exclusive : Exclusive s.world

pub total-append :
    (f : Pc → ℕ) (before after : List Pc)
    → total f (before ++ after) ≡ total f before + total f after
total-append f [] after = omega arith
total-append f (x ∷ before) after = omega (arith, total-append f before after)

AllRely-insert :
    (before after : List Pc) (pc : Pc) (w : World)
    → Relies pc w
    → AllRely (before ++ after) w
    → AllRely (before ++ pc ∷ after) w
AllRely-insert [] after pc w h hs = (h, hs)
AllRely-insert (x ∷ before) after pc w h (one, hs) = (one, AllRely-insert before after pc w h hs)

AllRely-frame :
    (ts : List Pc) (w w' : World)
    → lock_state w'.log ≡ lock_state w.log
    → w'.queue ≡ w.queue
    → w'.pending_irp ≡ w.pending_irp
    → AllRely ts w
    → AllRely ts w'
AllRely-frame [] w w' l q p h = tt
AllRely-frame (x ∷ ts) w w' l q p (h, hs) =
    (frame-Relies x w w' l q (inl p) h, AllRely-frame ts w w' l q p hs)

-- One processor's step, seen by the others.
others-Rely :
    (k : Kernel) (pc : Pc) (w : World) (ts : List Pc)
    → Runnable pc w
    → inside pc + total inside ts ≤ held w
    → AllRely ts w
    → AllRely ts (action k pc w).1
others-Rely k pc w [] r n h = tt
others-Rely k pc w (x ∷ ts) r n (h, hs) = (
  elim (ℕ_discrete (inside x) 0) [
    | yes e ↦ outside-Relies x _ e
    | no d ↦
        (let one = held-≤ w in
          let (l, q, p) = outside-frame k pc w (omega arith) r (omega arith) in
          frame-Relies x w _ l q p h)
  ],
  others-Rely k pc w ts r (omega arith) hs,
)
  where
    held-≤ : (v : World) → held v ≤ 1
    held-≤ v = ground arith

-- `Sound` in terms of one processor and the rest.
module _ (k : Kernel) (before after : List Pc) (pc : Pc) (w : World) (r : Runnable pc w)
    (s : Sound (record { world = w; threads = before ++ pc ∷ after })) where
  move-blocks :
      (p : Ptr)
      → BlockOwned p (total (block_at p) (before ++ (action k pc w).0 ∷ after)) (action k pc w).1
  move-blocks p =
      let f = block_at p in
      subst (λ n. BlockOwned p n (action k pc w).1)
        (sym (total-middle f before after (action k pc w).0))
        (action-BlockOwned k p (total f before + total f after) pc w
          (subst (λ n. BlockOwned p n w) (total-middle f before after pc) (s.blocks_owned p)))

  move-irps :
      (i : Ptr)
      → i ≢ null
      → IrpOwned i (total (irp_at i) (before ++ (action k pc w).0 ∷ after)) (action k pc w).1
  move-irps i real =
      let f = irp_at i in
      subst (λ n. IrpOwned i n (action k pc w).1)
        (sym (total-middle f before after (action k pc w).0))
        (action-IrpOwned k i (total f before + total f after) pc w real
          (subst (λ n. IrpOwned i n w) (total-middle f before after pc) (s.irps_owned i real)))

  move-Sound :
      Sound (record { world = (action k pc w).1; threads = before ++ (action k pc w).0 ∷ after })
  move-Sound =
      let (own, left, right) = AllRely-split before after pc w s.rely in
      let counted : inside pc + (total inside before + total inside after) ≡ held w =
        sym (total-middle inside before after pc) ∙ s.lock in
      record {
        blocks_owned = move-blocks;
        irps_owned = move-irps;
        lock =
            total-middle inside before after (action k pc w).0
            ∙ action-held k (total inside before + total inside after) pc w r own counted;
        rely =
            AllRely-join before after (action k pc w).0 (action k pc w).1
              (action-Relies k pc w r own) (others-Rely k pc w before r (omega arith) left)
              (others-Rely k pc w after r (omega arith) right);
        used = action-LockUsed k pc w r own s.used;
        exclusive = action-Exclusive k pc w own s.exclusive;
      }

called-outside : (routine : DispatchRoutine) (irp : Ptr) → inside (called routine irp) ≡ 0
called-outside routine irp = ground arith

called-block_at : (routine : DispatchRoutine) (irp p : Ptr) → block_at p (called routine irp) ≡ 0
called-block_at routine irp p = ground arith

called-irp_at :
    (routine : DispatchRoutine) (irp i : Ptr) → irp_at i (called routine irp) ≡ one_if irp i
called-irp_at routine irp i = ground arith

request-Sound :
    (routine : DispatchRoutine) (irp : Ptr) (w : World) (ts : List Pc)
    → Sound (record { world = w; threads = ts })
    → Sound (record {
      world = record w { log = receive irp ∷ w.log };
      threads = called routine irp ∷ ts;
    })
request-Sound routine irp w ts s = record {
  blocks_owned = λ p.
      (let o = s.blocks_owned p in
        let e = called-block_at routine irp p in
        record { valid = o.valid; balance = omega (arith, e, o.balance); safe = o.safe });
  irps_owned = λ i real. omega (arith, s.irps_owned i real, called-irp_at routine irp i);
  lock = omega (arith, s.lock, called-outside routine irp);
  rely = (
    outside-Relies (called routine irp) _ (called-outside routine irp),
    AllRely-frame ts w _ refl refl refl s.rely,
  );
  used = s.used;
  exclusive = s.exclusive;
}

notify-Sound :
    (k : Kernel) (before after : List Pc) (size : ℕ) (ws : List (List ℕ)) (e : Event) (w : World)
    → Sound (record { world = w; threads = before ++ after })
    → Sound (record {
      world = (report k size ws e w).1;
      threads = before ++ (report k size ws e w).0 ∷ after;
    })
notify-Sound k before after size ws e w s =
    let pc = (report k size ws e w).0 in
    let (l, q, p, out, m) = report-frame k size ws e w in
    let same : held (report k size ws e w).1 ≡ held w =
      ap (λ o. elim o [ none ↦ 0 | some irql ↦ 1 ]) l in
    let counts : (f : Pc → ℕ) → f pc + total f (before ++ after) ≡ total f (before ++ pc ∷ after) =
      λ f.
        (let x = total-append f before after in
          let y = total-middle f before after pc in omega (arith, x, y)) in
    record {
      blocks_owned = λ x.
          subst (λ n. BlockOwned x n (report k size ws e w).1) (counts (block_at x))
            (report-BlockOwned k size ws e w x _ (s.blocks_owned x));
      irps_owned = λ i real.
          subst (λ n. IrpOwned i n (report k size ws e w).1) (counts (irp_at i))
            (report-IrpOwned k size ws e w i _ (s.irps_owned i real));
      lock = (let c = counts inside in let h = s.lock in omega (arith, c, h, out, same));
      rely =
          AllRely-insert before after pc _ (outside-Relies _ _ out)
            (AllRely-frame (before ++ after) w _ l q p s.rely);
      used = report-LockUsed k size ws e w s.used;
      exclusive = elim s.exclusive [ inl n ↦ inl (p ∙ n) | inr n ↦ inr (ap (λ r. r.len) q ∙ n) ];
    }

-- A step on a counter, or on the log of names, that the invariants do not read.
quiet-Sound :
    (w w' : World) (ts : List Pc)
    → ((p : Ptr) (n : ℕ) → BlockOwned p n w → BlockOwned p n w')
    → ((i : Ptr) (n : ℕ) → IrpOwned i n w → IrpOwned i n w')
    → lock_state w'.log ≡ lock_state w.log
    → w'.queue ≡ w.queue
    → w'.pending_irp ≡ w.pending_irp
    → (LockUsed w.log → LockUsed w'.log)
    → Sound (record { world = w; threads = ts })
    → Sound (record { world = w'; threads = ts })
quiet-Sound w w' ts blocks_ irps_ l q p u s = record {
  blocks_owned = λ x. blocks_ x _ (s.blocks_owned x);
  irps_owned = λ i real. irps_ i _ (s.irps_owned i real);
  lock = s.lock ∙ sym (ap (λ o. elim o [ none ↦ 0 | some irql ↦ 1 ]) l);
  rely = AllRely-frame ts w w' l q p s.rely;
  used = u s.used;
  exclusive = elim s.exclusive [ inl n ↦ inl (p ∙ n) | inr n ↦ inr (ap (λ r. r.len) q ∙ n) ];
}

step-Sound : {k : Kernel} {s t : Machine} → Step k s t → Sound s → Sound t
step-Sound {k} (step (move before after pc w r)) s = move-Sound k before after pc w r s
step-Sound (request routine irp w ts real) s = request-Sound routine irp w ts s
step-Sound {k} (notify before after size ws e w) s = notify-Sound k before after size ws e w s
step-Sound (take_drops w ts) s =
    quiet-Sound w _ ts (λ p n o. record { valid = o.valid; balance = o.balance; safe = o.safe })
      (λ i n o. o) refl refl refl (λ u. u) s
step-Sound (take_truncs w ts) s =
    quiet-Sound w _ ts (λ p n o. record { valid = o.valid; balance = o.balance; safe = o.safe })
      (λ i n o. o) refl refl refl (λ u. u) s
step-Sound (cut w ts) s =
    quiet-Sound w _ ts (λ p n o. record { valid = o.valid; balance = o.balance; safe = o.safe })
      (λ i n o. o) refl refl refl (λ u. u) s
step-Sound (look_up object w ts) s =
    quiet-Sound w _ ts (λ p n o. record { valid = o.valid; balance = o.balance; safe = o.safe })
      (λ i n o. o) refl refl refl (λ u. u) s

-- In every machine that comes up from a sound world, however the processors interleave, all of this
-- holds.
pub Reach-Sound :
    {k : Kernel} {w : World} {s : Machine}
    → Sound (record { world = w; threads = [] })
    → Reach k w s
    → Sound s
Reach-Sound h start = h
Reach-Sound h (later r st) = step-Sound st (Reach-Sound h r)
