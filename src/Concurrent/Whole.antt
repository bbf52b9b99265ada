-- ===== src/Concurrent/Whole.antt =====
-- Events stay whole under any interleaving: what a processor copies to an IRP is one event.
use wazabi_edr_driver.Base.{
  ℕ, ◌≡◌, ◌≢◌, sym, subst, ap, arith, List, [], ◌∷◌, ◌++◌, none, some, ℕ_discrete, ==_true,
  ==_false,
}
use wazabi_edr_driver.Wdk.{Ptr, Kernel}
use wazabi_edr_driver.State.{World}
use wazabi_edr_driver.Ring.{queue_push_locked, queue_pop_locked, advance_head}
use wazabi_edr_driver.Ring.Inv.{IsValid}
use wazabi_edr_driver.Ring.Refine.{
  contents, queue_push_locked_lem, contents-pushed, contents-advance_head,
}
use wazabi_edr_driver.Safety.Sealed.{Holds, AllHold, AllHold-update, AllHold-fifo_push}
use wazabi_edr_driver.Concurrent.{Pc, building, submit_push, control_pop, action, Machine}
use wazabi_edr_driver.Concurrent.Owners.{block_at}
use wazabi_edr_driver.Concurrent.Invariant.{total, total-middle, total-append, Sound}
use wazabi_edr_driver.Safety.{allocated, freed, blocks}
use wazabi_edr_driver.State.{update}
use wazabi_edr_driver.Events.Event.{Event}
use wazabi_edr_driver.Base.{◌+◌, ◌≤◌, refl, count, Option-cases, inl, inr}
use wazabi_edr_driver.Concurrent.Charges.{
  slot_of, writes, Carries, AllCarry, AllCarry-update, AllCarry-middle, AllCarry-insert,
}

-- No other step writes to a block.
action-pool :
    (k : Kernel) (pc : Pc) (w : World) → writes pc ≡ none → (action k pc w).1.pool ≡ w.pool
unfolding action queue_push_locked queue_pop_locked
action-pool k pc w n = ground arith

action-single :
    (k : Kernel) (pc : Pc) (w : World) (p : Ptr)
    → allocated p w.log ≤ freed p w.log + 1
    → allocated p (action k pc w).1.log ≤ freed p (action k pc w).1.log + 1
unfolding action queue_push_locked queue_pop_locked
action-single k pc w p h = ground arith

module _ (Good : Event → Type 0) where
  abbrev Kept : Kernel → Pc → World → Type 0
  Kept k pc w =
      Carries Good w.pool (action k pc w).0 × AllHold Good w.pool (contents (action k pc w).1.queue)

  push-AllHold :
      (block : Ptr) (size : ℕ) (w : World)
      → IsValid w.queue
      → Holds Good w.pool (slot_of block size)
      → AllHold Good w.pool (contents w.queue)
      → AllHold Good w.pool (contents (queue_push_locked block size w).1.queue)
  push-AllHold block size w v h a =
      let slot = slot_of block size in
      subst (λ q. AllHold Good w.pool (contents q))
        (sym (ap (λ r. r.1.queue) (queue_push_locked_lem block size w)))
        (subst (AllHold Good w.pool) (sym (contents-pushed slot w.queue v))
          (AllHold-fifo_push Good w.pool slot (contents w.queue) a h))

  pop-AllHold :
      (w : World)
      → IsValid w.queue
      → w.queue.len ≢ 0
      → AllHold Good w.pool (contents w.queue)
      → Holds Good w.pool (w.queue.buf w.queue.head)
        × AllHold Good w.pool (contents (advance_head w.queue))
  pop-AllHold w v n a = subst (AllHold Good w.pool) (contents-advance_head w.queue v n) a

  action-Kept :
      (k : Kernel) (pc : Pc) (w : World)
      → writes pc ≡ none
      → IsValid w.queue
      → Carries Good w.pool pc
      → AllHold Good w.pool (contents w.queue)
      → Kept k pc w
  unfolding action queue_pop_locked
  action-Kept k (submit_push guard block size) w n v h a = (tt, push-AllHold block size w v h a)
  action-Kept k (control_pop guard irp outlen) w u v h a = elim (ℕ_discrete w.queue.len 0) [
    | yes e ↦ rw (==_true w.queue.len 0 e) (tt, a)
    | no n ↦ rw (==_false w.queue.len 0 n) (pop-AllHold w v n a)
  ]
  action-Kept k pc w n v h a = ground arith

  -- A write to the processor's own block.
  written-Carries :
      (k : Kernel) (pc : Pc) (w : World) (b : Ptr) (bytes : List ℕ)
      → writes pc ≡ some (b, bytes)
      → Carries Good w.pool pc
      → ((action k pc w).1.pool ≡ update w.pool b bytes)
        × ((action k pc w).1.queue ≡ w.queue)
        × (block_at b pc ≡ 1)
        × Carries Good (update w.pool b bytes) (action k pc w).0
  unfolding action
  written-Carries k (building block [] e) w b bytes x wf =
      (ground arith, refl, ground arith, (e, wf, refl, ground arith))
  written-Carries k (building block (y ∷ ws) e) w b bytes x wf =
      (ground arith, refl, ground arith, wf)
  written-Carries k pc w b bytes x h = absurd (ground arith)

  -- Every queued block, and every block that a processor owns, holds one whole event, but for those whose
  -- event is still to come; and no block is out more than once.
  pub record Whole (s : Machine) : Type 0 where
    pub queued : AllHold Good s.world.pool (contents s.world.queue)
    pub carried : AllCarry Good s.world.pool s.threads
    pub single : (p : Ptr) → allocated p s.world.log ≤ freed p s.world.log + 1

  module _ (k : Kernel) (before after : List Pc) (pc : Pc) (w : World)
      (s : Sound (record { world = w; threads = before ++ pc ∷ after }))
      (h : Whole (record { world = w; threads = before ++ pc ∷ after })) where
    abbrev Moved : Type 0
    Moved =
        Whole (record { world = (action k pc w).1; threads = before ++ (action k pc w).0 ∷ after })

    quiet-Whole : writes pc ≡ none → Moved
    quiet-Whole none_ =
        let same = sym (action-pool k pc w none_) in
        let (own, others) = AllCarry-middle Good w.pool before after pc h.carried in
        let (own', queued) = action-Kept k pc w none_ (s.blocks_owned 0).valid own h.queued in
        record {
          queued = subst (λ f. AllHold Good f (contents (action k pc w).1.queue)) same queued;
          carried =
              subst (λ f. AllCarry Good f (before ++ (action k pc w).0 ∷ after)) same
                (AllCarry-insert Good w.pool before after (action k pc w).0 own' others);
          single = λ p. action-single k pc w p (h.single p);
        }

    writing-Whole : (b : Ptr) (bytes : List ℕ) → writes pc ≡ some (b, bytes) → Moved
    unfolding blocks
    writing-Whole b bytes x =
        let (own, others) = AllCarry-middle Good w.pool before after pc h.carried in
        let (m, q, one, own') = written-Carries k pc w b bytes x own in
        let unused : count b (blocks w.queue) + total (block_at b) (before ++ after) ≡ 0 = omega (
          arith,
          (s.blocks_owned b).balance,
          h.single b,
          one,
          total-middle (block_at b) before after pc,
          total-append (block_at b) before after,
        ) in
        record {
          queued =
              rw (m, q)
                (AllHold-update Good w.pool b bytes (contents w.queue) (omega (arith, unused))
                  h.queued);
          carried =
              subst (λ f. AllCarry Good f (before ++ (action k pc w).0 ∷ after)) (sym m)
                (AllCarry-insert Good (update w.pool b bytes) before after (action k pc w).0 own' (
                  AllCarry-update Good w.pool b bytes (before ++ after) (omega (arith, unused))
                    others));
          single = λ p. action-single k pc w p (h.single p);
        }

    pub move-Whole : Moved
    move-Whole = elim (Option-cases (writes pc)) [
      | inl n ↦ quiet-Whole n
      | inr ((b, bytes), x) ↦ writing-Whole b bytes x
    ]
