-- ===== src/Safety/Callbacks.antt =====
-- Each safety invariant is one that the callbacks keep.
use wazabi_edr_driver.Base.{ℕ, inl, inr, ℕ_discrete, arith, List, [], ◌∷◌}
use wazabi_edr_driver.Wdk.{Ptr, null, Kernel, get_key_name, release_key_name}
use wazabi_edr_driver.State.{World}
use wazabi_edr_driver.Events.Event.{Event, event_size}
use wazabi_edr_driver.Submit.{alloc_event, submit_event}
use wazabi_edr_driver.Callbacks.Header.{write_block, submit}
use wazabi_edr_driver.Callbacks.Kept.{Kept, WellFormed}
use wazabi_edr_driver.Safety.Blocks.{Owned, alloc_event-Owned, submit_event-Owned}
use wazabi_edr_driver.Safety.Irps.{Answered, alloc_event-Answered, submit_event-Answered}
use wazabi_edr_driver.Safety.Lock.{Unlocked, alloc_event-Unlocked, submit_event-Unlocked}
use wazabi_edr_driver.Safety.Waiting.{
  NoLostEvent, alloc_event-NoLostEvent, submit_event-NoLostEvent,
}
use wazabi_edr_driver.Safety.Bounds.{InBounds, alloc_event-InBounds, submit_event-InBounds}

write_block-Owned :
    (q : Ptr) (held : List Ptr) (p : Ptr) (bytes : List ℕ) (w : World)
    → Owned q (p ∷ held) w
    → Owned q (p ∷ held) (write_block p bytes w).1
unfolding write_block
write_block-Owned q held p bytes w o = ground arith

pub Owned-Kept : (k : Kernel) (Good : Event → Type 0) (q : Ptr) → Kept k Good (Owned q)
unfolding submit
Owned-Kept k Good q = record {
  allocs = λ held size w o. alloc_event-Owned k q held size w o;
  writes = λ held p bytes w o. write_block-Owned q held p bytes w o;
  takes = λ held w o. record { valid = o.valid; balance = o.balance; safe = o.safe };
  cuts = λ held w o. record { valid = o.valid; balance = o.balance; safe = o.safe };
  names = λ held o' w o. record { valid = o.valid; balance = o.balance; safe = o.safe };
  submits = λ held p e w wf o.
      submit_event-Owned k q held p (event_size e) _ (write_block-Owned q held p _ w o);
}

-- The others do not depend on who holds a block.
module _ (k : Kernel) (P : World → Type 0)
    (on_alloc : (size : ℕ) (w : World) → P w → P (alloc_event k size w).1)
    (on_write : (p : Ptr) (bytes : List ℕ) (w : World) → P w → P (write_block p bytes w).1)
    (on_counters : (d t : ℕ) (w : World) → P w → P (record w { drop_count = d; trunc_count = t }))
    (on_names : (o : Ptr) (w : World)
      → P w
      → P (record w { log = release_key_name o ∷ get_key_name o ∷ w.log }))
    (on_submit : (p : Ptr) (size : ℕ) (w : World) → P w → P (submit_event k p size w).1) where
  pub ownerless-Kept : Kept k WellFormed (λ held. P)
  unfolding submit
  ownerless-Kept = record {
    allocs = λ held size w q. elim (ℕ_discrete (alloc_event k size w).0 null) [
      | yes e ↦ inl (e, on_alloc size w q)
      | no ne ↦ inr (ne, on_alloc size w q)
    ];
    writes = λ held p bytes w q. on_write p bytes w q;
    takes = λ held w q. on_counters 0 0 w q;
    cuts = λ held w q. on_counters w.drop_count _ w q;
    names = λ held o w q. on_names o w q;
    submits = λ held p e w wf q. on_submit p (event_size e) _ (on_write p _ w q);
  }

pub NoLostEvent-Kept : (k : Kernel) → Kept k WellFormed (λ held. NoLostEvent)
unfolding write_block
NoLostEvent-Kept k =
    ownerless-Kept k NoLostEvent (λ size w q. alloc_event-NoLostEvent k w q size)
      (λ p bytes w q. record { valid = q.valid; exclusive = q.exclusive })
      (λ d t w q. record { valid = q.valid; exclusive = q.exclusive })
      (λ o w q. record { valid = q.valid; exclusive = q.exclusive })
      (λ p size w q. submit_event-NoLostEvent k w q p size)

pub Unlocked-Kept : (k : Kernel) → Kept k WellFormed (λ held. Unlocked)
unfolding write_block
Unlocked-Kept k =
    ownerless-Kept k Unlocked (λ size w q. alloc_event-Unlocked k w q size)
      (λ p bytes w q. record { free_lock = q.free_lock; safe = q.safe })
      (λ d t w q. record { free_lock = q.free_lock; safe = q.safe })
      (λ o w q. record { free_lock = q.free_lock; safe = q.safe })
      (λ p size w q. submit_event-Unlocked k w q p size)

pub Answered-Kept : (k : Kernel) (i : Ptr) → Kept k WellFormed (λ held. Answered i [])
unfolding write_block
Answered-Kept k i =
    ownerless-Kept k (Answered i []) (λ size w q. alloc_event-Answered k i w size q)
      (λ p bytes w q. record { balance = q.balance; safe = q.safe })
      (λ d t w q. record { balance = q.balance; safe = q.safe })
      (λ o w q. record { balance = q.balance; safe = q.safe })
      (λ p size w q. submit_event-Answered k i w p size q)

pub InBounds-Kept : (k : Kernel) (outlen : Ptr → ℕ) → Kept k WellFormed (λ held. InBounds outlen)
unfolding write_block
InBounds-Kept k outlen =
    ownerless-Kept k (InBounds outlen) (λ size w q. alloc_event-InBounds k outlen w q size)
      (λ p bytes w q. record { lengths = q.lengths; safe = q.safe })
      (λ d t w q. record { lengths = q.lengths; safe = q.safe })
      (λ o w q. record { lengths = q.lengths; safe = q.safe })
      (λ p size w q. submit_event-InBounds k outlen w q p size)
