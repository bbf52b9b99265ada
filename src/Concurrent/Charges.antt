-- ===== src/Concurrent/Charges.antt =====
-- What each processor owns at its point of the code: an event's block, or nothing.
use wazabi_edr_driver.Base.{ℕ, ◌≡◌, ◌∙◌, arith, List, [], ◌∷◌, ◌++◌, none, some, Option}
use wazabi_edr_driver.Wdk.{Ptr}
use wazabi_edr_driver.State.{Slot}
use wazabi_edr_driver.Safety.Sealed.{Holds}
use wazabi_edr_driver.Concurrent.{
  Pc, building, submit_enter, submit_swap, submit_compare, deliver_copy, deliver_unlock,
  deliver_free, reject_unlock, reject_free, submit_push, control_popped, short_free, hand_copy,
  hand_free,
}
use wazabi_edr_driver.Concurrent.Owners.{block_at}
use wazabi_edr_driver.Concurrent.Invariant.{total}
use wazabi_edr_driver.Safety.{one_if}
use wazabi_edr_driver.State.{update}
use wazabi_edr_driver.Events.Event.{Event, event_bytes}

abbrev pub slot_of : Ptr → ℕ → Slot
slot_of block size = record { block = block; size = size }

-- What a processor owns: nothing, a block with one whole event, or a block for an event to come.
pub data Charge : Type 0 where
  nothing : Charge
  whole_event : Slot → Charge
  to_come : Ptr → Event → Charge

abbrev pub charge_of : Pc → Charge
charge_of (building block ws e) = to_come block e
charge_of (submit_enter block size) = whole_event (slot_of block size)
charge_of (submit_swap guard block size) = whole_event (slot_of block size)
charge_of (submit_compare guard pending block size) = whole_event (slot_of block size)
charge_of (deliver_copy guard pending block size) = whole_event (slot_of block size)
charge_of (deliver_unlock guard pending block size) = whole_event (slot_of block size)
charge_of (deliver_free pending block size) = whole_event (slot_of block size)
charge_of (reject_unlock guard pending block size) = whole_event (slot_of block size)
charge_of (reject_free pending block size) = whole_event (slot_of block size)
charge_of (submit_push guard block size) = whole_event (slot_of block size)
charge_of (control_popped guard irp outlen slot) = whole_event slot
charge_of (short_free irp slot) = whole_event slot
charge_of (hand_copy irp slot) = whole_event slot
charge_of (hand_free irp slot) = whole_event slot
charge_of _ = nothing

-- The block that the next step writes to, and the bytes.
abbrev pub writes : Pc → Option (Ptr × List ℕ)
writes (building block [] e) = some (block, event_bytes e)
writes (building block (bytes ∷ ws) e) = some (block, bytes)
writes _ = none

abbrev block_in : Ptr → Charge → ℕ
block_in p nothing = 0
block_in p (whole_event s) = one_if s.block p
block_in p (to_come block e) = one_if block p

block_in-charge_of : (p : Ptr) (pc : Pc) → block_in p (charge_of pc) ≡ block_at p pc
block_in-charge_of p pc = ground arith

module _ (Good : Event → Type 0) where
  abbrev pub HoldsIf : (Ptr → List ℕ) → Charge → Type 0
  HoldsIf pool nothing = Unit
  HoldsIf pool (whole_event s) = Holds Good pool s
  HoldsIf pool (to_come block e) = Good e

  abbrev pub Carries : (Ptr → List ℕ) → Pc → Type 0
  Carries pool pc = HoldsIf pool (charge_of pc)

  HoldsIf-update :
      (pool : Ptr → List ℕ) (p : Ptr) (bytes : List ℕ) (c : Charge)
      → block_in p c ≡ 0
      → HoldsIf pool c
      → HoldsIf (update pool p bytes) c
  HoldsIf-update pool p bytes nothing n h = tt
  HoldsIf-update pool p bytes (whole_event s) n (e, wf, size, b) = (e, wf, size, ground arith)
  HoldsIf-update pool p bytes (to_come block e) n wf = wf

  -- Writing to a block that the processor does not own.
  Carries-update :
      (pool : Ptr → List ℕ) (p : Ptr) (bytes : List ℕ) (pc : Pc)
      → block_at p pc ≡ 0
      → Carries pool pc
      → Carries (update pool p bytes) pc
  Carries-update pool p bytes pc n h =
      HoldsIf-update pool p bytes (charge_of pc) (block_in-charge_of p pc ∙ n) h

  abbrev pub AllCarry : (Ptr → List ℕ) → List Pc → Type 0
  AllCarry pool [] = Unit
  AllCarry pool (pc ∷ ts) = Carries pool pc × AllCarry pool ts

  pub AllCarry-update :
      (pool : Ptr → List ℕ) (p : Ptr) (bytes : List ℕ) (ts : List Pc)
      → total (block_at p) ts ≡ 0
      → AllCarry pool ts
      → AllCarry (update pool p bytes) ts
  AllCarry-update pool p bytes [] n h = tt
  AllCarry-update pool p bytes (pc ∷ ts) n (h, hs) = (
    Carries-update pool p bytes pc (omega arith) h,
    AllCarry-update pool p bytes ts (omega arith) hs,
  )

  pub AllCarry-middle :
      (pool : Ptr → List ℕ) (before after : List Pc) (pc : Pc)
      → AllCarry pool (before ++ pc ∷ after)
      → Carries pool pc × AllCarry pool (before ++ after)
  AllCarry-middle pool [] after pc (h, hs) = (h, hs)
  AllCarry-middle pool (x ∷ before) after pc (h, hs) =
      let (own, others) = AllCarry-middle pool before after pc hs in (own, (h, others))

  pub AllCarry-insert :
      (pool : Ptr → List ℕ) (before after : List Pc) (pc : Pc)
      → Carries pool pc
      → AllCarry pool (before ++ after)
      → AllCarry pool (before ++ pc ∷ after)
  AllCarry-insert pool [] after pc own hs = (own, hs)
  AllCarry-insert pool (x ∷ before) after pc own (h, hs) =
      (h, AllCarry-insert pool before after pc own hs)
