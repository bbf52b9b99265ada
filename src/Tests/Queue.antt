-- ===== src/Tests/Queue.antt =====
-- The ring.
use wazabi_edr_driver.Base.{
  ◌-◌, ◌≡◌, ◌⊎◌, ◌<◌, ◌++◌, List, length, refl, arith, [], ◌∷◌, true, some, none, if◌then◌else◌,
  leb,
}
use wazabi_edr_driver.Wdk.{free}
use wazabi_edr_driver.State.{Slot, Ring, World, loaded, queue_cap}
use wazabi_edr_driver.Ring.{queue_push_locked, queue_pop_locked}
use wazabi_edr_driver.Ring.Inv.{IsValid}
use wazabi_edr_driver.Ring.Refine.{contents, queue_push_locked-appends, queue_pop_locked_lem}
use wazabi_edr_driver.Entry.{wire_slots, irp_mj_maximum_function}
use wazabi_edr_driver.Entry.Wiring.{routine_of, wire_slots_lem}
use wazabi_edr_driver.Tests.Setting.{ring_memory, pool_memory, irp_memory}

abbrev slot : Slot
slot = record { block = 500; size = 40 }

-- A full ring, its oldest entry in the middle of the storage.
abbrev full : Ring
full = record { buf = λ i. record { block = i; size = 36 }; head = 2000; tail = 2000; len = 4096 }

full-IsValid : IsValid full
full-IsValid = record { head_in = omega arith; len_in = omega arith; tail_at = refl }

abbrev crowded : World
crowded = record (loaded ring_memory pool_memory irp_memory) { queue = full }

queue_push_locked-appends_example :
    (q : Ring) × IsValid q
    × (((length (contents full) < queue_cap)
          × (contents q ≡ contents full ++ slot ∷ [])
          × (queue_push_locked 500 40 crowded ≡ (true, record crowded { queue = q })))
        ⊎ ((s : Slot) × (rest : List Slot) × (contents full ≡ s ∷ rest)
            × (length (contents full) ≡ queue_cap)
            × (contents q ≡ rest ++ slot ∷ [])
            × (queue_push_locked 500 40 crowded
                ≡ (true, record crowded { queue = q; drop_count = 1; log = free s.block ∷ [] }))))
queue_push_locked-appends_example = queue_push_locked-appends 500 40 crowded full-IsValid

queue_pop_locked_lem_example :
    ((contents full ≡ []) × (queue_pop_locked crowded ≡ (none, crowded)))
    ⊎ ((s : Slot) × (q : Ring) × IsValid q
        × (contents full ≡ s ∷ contents q)
        × (q.len ≡ full.len - 1)
        × (queue_pop_locked crowded ≡ (some s, record crowded { queue = q })))
queue_pop_locked_lem_example = queue_pop_locked_lem crowded full-IsValid

-- Pushing on a full ring frees block 2000 and moves the head on.
evicted_test :
    let w = (queue_push_locked 500 40 crowded).1 in
    (w.log ≡ free 2000 ∷ []) × (w.queue.head ≡ 2001) × (w.queue.len ≡ 4096) × (w.drop_count ≡ 1)
unfolding queue_push_locked
evicted_test = (refl, refl, refl, refl)

wire_slots_lem_example :
    wire_slots (λ i. none) 14
    ≡ (if leb 14 irp_mj_maximum_function then some (routine_of 14) else none)
wire_slots_lem_example = wire_slots_lem (λ i. none) 14
