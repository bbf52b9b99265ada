-- ===== src/Safety/Sealed.antt =====
-- What stands in the queue: each block once, and in each block one whole event.
pub mod Steps
pub mod Decodes
pub mod Sessions
pub mod Irps
pub mod Answers
use wazabi_edr_driver.Base.{
  ℕ, ◌+◌, ◌≡◌, ◌≢◌, ◌≤◌, ◌⊎◌, inl, inr, refl, sym, ap, subst, ◌∙◌, arith, List, [], ◌∷◌, ◌++◌, map,
  count, drop, length, if◌then◌else◌, ◌==◌, ==_false, ==_true, ℕ_discrete,
}
use wazabi_edr_driver.Wdk.{Ptr, null, Log, Kernel}
use wazabi_edr_driver.State.{Slot, Ring, World, update, queue_cap}
use wazabi_edr_driver.Events.Event.{Event, event_bytes, event_size}
use wazabi_edr_driver.Ring.Refine.{contents, fifo_push}
use wazabi_edr_driver.Safety.{allocated, freed, blocks}
use wazabi_edr_driver.Safety.Blocks.{Owned}

-- The pool hands out no block that it has handed out before and not got back.
pub record Fresh (k : Kernel) : Type 0 where
  pub unused :
      (l : Log) (size : ℕ)
      → k.ex_allocate_pool2 l size ≢ null
      → allocated (k.ex_allocate_pool2 l size) l ≤ freed (k.ex_allocate_pool2 l size) l

module _ (Good : Event → Type 0) where
  -- The slot's block holds one good event, of the slot's size.
  abbrev pub Holds : (Ptr → List ℕ) → Slot → Type 0
  Holds pool s = (e : Event) × Good e × (s.size ≡ event_size e) × (pool s.block ≡ event_bytes e)

  abbrev pub AllHold : (Ptr → List ℕ) → List Slot → Type 0
  AllHold pool [] = Unit
  AllHold pool (s ∷ ss) = Holds pool s × AllHold pool ss

  -- A block has one owner, and the queued blocks are whole events.
  pub record Sealed (held : List Ptr) (w : World) : Type 0 where
    pub owned : (p : Ptr) → Owned p held w
    pub once : (p : Ptr) → count p (blocks w.queue) + count p held ≤ 1
    pub sealed : AllHold w.pool (contents w.queue)

  -- Writing to another block changes no queued event.
  pub AllHold-update :
      (pool : Ptr → List ℕ) (p : Ptr) (bytes : List ℕ) (ss : List Slot)
      → count p (map (λ s. s.block) ss) ≡ 0
      → AllHold pool ss
      → AllHold (update pool p bytes) ss
  AllHold-update pool p bytes [] n h = tt
  AllHold-update pool p bytes (s ∷ ss) n ((e, wf, size, bytes_), h) =
      ((e, wf, size, (ground arith)), AllHold-update pool p bytes ss (ground arith) h)

  AllHold-append :
      (pool : Ptr → List ℕ) (s : Slot) (ss : List Slot)
      → AllHold pool ss
      → Holds pool s
      → AllHold pool (ss ++ s ∷ [])
  AllHold-append pool s [] h one = (one, tt)
  AllHold-append pool s (x ∷ ss) (h, hs) one = (h, AllHold-append pool s ss hs one)

  AllHold-drop : (pool : Ptr → List ℕ) (ss : List Slot) → AllHold pool ss → AllHold pool (drop 1 ss)
  AllHold-drop pool [] h = tt
  AllHold-drop pool (s ∷ ss) (h, hs) = hs

  pub AllHold-fifo_push :
      (pool : Ptr → List ℕ) (s : Slot) (ss : List Slot)
      → AllHold pool ss
      → Holds pool s
      → AllHold pool (fifo_push ss s)
  unfolding fifo_push
  AllHold-fifo_push pool s ss h one = elim (ℕ_discrete (length ss) queue_cap) [
    | yes e ↦
        rw (==_true (length ss) queue_cap e)
          (AllHold-append pool s (drop 1 ss) (AllHold-drop pool ss h) one)
    | no n ↦ rw (==_false (length ss) queue_cap n) (AllHold-append pool s ss h one)
  ]
