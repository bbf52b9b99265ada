-- ===== src/Safety/Entry.antt =====
-- Each safety invariant holds when the driver is loaded, and DriverEntry and the first step of
-- DriverUnload keep it.
use wazabi_edr_driver.Base.{ℕ, ◌∙◌, refl, ap, inl, arith, List, [], ◌∷◌}
use wazabi_edr_driver.Wdk.{Ptr, Irp, Action}
use wazabi_edr_driver.State.{Slot, World, loaded}
use wazabi_edr_driver.Ring.Refine.{contents}
use wazabi_edr_driver.Entry.Kept.{EntryAction, printing, SameCore, EntryKept}
use wazabi_edr_driver.Safety.{blocks}
use wazabi_edr_driver.Safety.Blocks.{Owned}
use wazabi_edr_driver.Safety.Irps.{Answered}
use wazabi_edr_driver.Safety.Lock.{Unlocked}
use wazabi_edr_driver.Safety.Waiting.{NoLostEvent}
use wazabi_edr_driver.Safety.Bounds.{InBounds}

module _ (p : Ptr) where
  Owned-acts :
      (a : Action) (w : World)
      → EntryAction a
      → Owned p [] w
      → Owned p [] (record w { log = a ∷ w.log })
  Owned-acts a w (printing m) o = record { valid = o.valid; balance = o.balance; safe = o.safe }
  Owned-acts a w _ o = record { valid = o.valid; balance = o.balance; safe = o.safe }

  Owned-sets : (w w' : World) → SameCore w w' → Owned p [] w → Owned p [] w'
  Owned-sets w w' e o = ground arith

  pub Owned-EntryKept : EntryKept (Owned p [])
  Owned-EntryKept = record { acts = Owned-acts; sets = Owned-sets }

  Answered-acts :
      (a : Action) (w : World)
      → EntryAction a
      → Answered p [] w
      → Answered p [] (record w { log = a ∷ w.log })
  Answered-acts a w (printing m) o = record { balance = o.balance; safe = o.safe }
  Answered-acts a w _ o = record { balance = o.balance; safe = o.safe }

  Answered-sets : (w w' : World) → SameCore w w' → Answered p [] w → Answered p [] w'
  Answered-sets w w' e o = ground arith

  pub Answered-EntryKept : EntryKept (Answered p [])
  Answered-EntryKept = record { acts = Answered-acts; sets = Answered-sets }

Unlocked-acts :
    (a : Action) (w : World) → EntryAction a → Unlocked w → Unlocked (record w { log = a ∷ w.log })
Unlocked-acts a w (printing m) o = record { free_lock = o.free_lock; safe = o.safe }
Unlocked-acts a w _ o = record { free_lock = o.free_lock; safe = o.safe }

Unlocked-sets : (w w' : World) → SameCore w w' → Unlocked w → Unlocked w'
Unlocked-sets w w' e o = ground arith

pub Unlocked-EntryKept : EntryKept Unlocked
Unlocked-EntryKept = record { acts = Unlocked-acts; sets = Unlocked-sets }

NoLostEvent-acts :
    (a : Action) (w : World)
    → EntryAction a
    → NoLostEvent w
    → NoLostEvent (record w { log = a ∷ w.log })
NoLostEvent-acts a w x o = record { valid = o.valid; exclusive = o.exclusive }

NoLostEvent-sets : (w w' : World) → SameCore w w' → NoLostEvent w → NoLostEvent w'
NoLostEvent-sets w w' e o = ground arith

pub NoLostEvent-EntryKept : EntryKept NoLostEvent
NoLostEvent-EntryKept = record { acts = NoLostEvent-acts; sets = NoLostEvent-sets }

module _ (outlen : Ptr → ℕ) where
  InBounds-acts :
      (a : Action) (w : World)
      → EntryAction a
      → InBounds outlen w
      → InBounds outlen (record w { log = a ∷ w.log })
  InBounds-acts a w (printing m) o = record { lengths = o.lengths; safe = o.safe }
  InBounds-acts a w _ o = record { lengths = o.lengths; safe = o.safe }

  InBounds-sets : (w w' : World) → SameCore w w' → InBounds outlen w → InBounds outlen w'
  InBounds-sets w w' e o = record {
    lengths = λ p. ap (λ c. (c.2 p).output_buffer_length) e ∙ o.lengths p;
    safe = ground arith;
  }

  pub InBounds-EntryKept : EntryKept (InBounds outlen)
  InBounds-EntryKept = record { acts = InBounds-acts; sets = InBounds-sets }

-- The driver as the kernel loads it.
module _ (buf : ℕ → Slot) (pool : Ptr → List ℕ) (irps : Ptr → Irp) where
  pub loaded-Owned : (p : Ptr) → Owned p [] (loaded buf pool irps)
  unfolding blocks contents
  loaded-Owned p = record {
    valid = record { head_in = omega arith; len_in = omega arith; tail_at = refl };
    balance = refl;
    safe = tt;
  }

  pub loaded-Answered : (p : Ptr) → Answered p [] (loaded buf pool irps)
  loaded-Answered p = record { balance = refl; safe = tt }

  pub loaded-Unlocked : Unlocked (loaded buf pool irps)
  loaded-Unlocked = record { free_lock = refl; safe = tt }

  pub loaded-NoLostEvent : NoLostEvent (loaded buf pool irps)
  loaded-NoLostEvent = record {
    valid = record { head_in = omega arith; len_in = omega arith; tail_at = refl };
    exclusive = inl refl;
  }

  pub loaded-InBounds : InBounds (λ p. (irps p).output_buffer_length) (loaded buf pool irps)
  loaded-InBounds = record { lengths = λ p. refl; safe = tt }
