-- ===== src/Entry/Wiring.antt =====
-- The MajorFunction table after DriverEntry.
use wazabi_edr_driver.Base.{
  ℕ, zero, suc, ◌+◌, ◌≡◌, ◌∙◌, arith, some, if◌then◌else◌, ◌==◌, ltb, leb, ◌&&◌,
}
use wazabi_edr_driver.Wdk.{DispatchRoutine, create_close, cleanup, device_control, invalid}
use wazabi_edr_driver.State.{update}
use wazabi_edr_driver.Entry.{
  MajorTable, fill_slots, wire_slots, irp_mj_create, irp_mj_close, irp_mj_cleanup,
  irp_mj_device_control, irp_mj_maximum_function,
}

fill_slots_lem :
    (rounds i : ℕ) (mj : MajorTable) (j : ℕ)
    → fill_slots rounds i mj j ≡ (if leb i j && ltb j (i + rounds) then some invalid else mj j)
unfolding fill_slots
fill_slots_lem zero i mj j = ground arith
fill_slots_lem (suc rounds) i mj j =
    let rest = fill_slots_lem rounds (suc i) (λ k. if i == k then some invalid else mj k) j in
    rest ∙ ground arith

-- The routine that the driver means for a major function.
abbrev pub routine_of : ℕ → DispatchRoutine
routine_of i =
    if i == irp_mj_create
    then create_close
    else if i == irp_mj_close
    then create_close
    else if i == irp_mj_cleanup
    then cleanup
    else if i == irp_mj_device_control
    then device_control
    else invalid

-- The four slots that are set over the filled ones.
rewired :
    (mj filled : MajorTable) (i : ℕ)
    → filled i ≡ (if leb 0 i && ltb i 28 then some invalid else mj i)
    → update
        (update
          (update
            (update filled irp_mj_create (some create_close))
            irp_mj_close
            (some create_close))
          irp_mj_cleanup
          (some cleanup))
        irp_mj_device_control
        (some device_control)
        i
      ≡ (if leb i irp_mj_maximum_function then some (routine_of i) else mj i)
rewired mj filled i e = ground arith

-- No slot up to IRP_MJ_MAXIMUM_FUNCTION is left null: create and close, cleanup and device control have
-- their routines, and every other slot the one that refuses; slots beyond are as they were.
pub wire_slots_lem :
    (mj : MajorTable) (i : ℕ)
    → wire_slots mj i ≡ (if leb i irp_mj_maximum_function then some (routine_of i) else mj i)
unfolding wire_slots
wire_slots_lem mj i =
    rewired mj (fill_slots (suc irp_mj_maximum_function) 0 mj) i
      (fill_slots_lem (suc irp_mj_maximum_function) 0 mj i)
