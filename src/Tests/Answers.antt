-- ===== src/Tests/Answers.antt =====
-- Two processors: one queues an event, and the other copies it to an IRP.
use wazabi_edr_driver.Base.{◌≡◌, ◌≢◌, refl, arith, [], ◌∷◌, take, some}
use wazabi_edr_driver.Wdk.{null, receive, device_control}
use wazabi_edr_driver.State.{World}
use wazabi_edr_driver.Ring.{queue_push_locked, queue_pop_locked}
use wazabi_edr_driver.Dispatch.{ioctl_wedr_get_event}
use wazabi_edr_driver.Submit.{alloc_event}
use wazabi_edr_driver.Entry.{driver_entry}
use wazabi_edr_driver.Events.Event.{Event, event_size, event_bytes}
use wazabi_edr_driver.Events.Decode.{decode_event}
use wazabi_edr_driver.Callbacks.Kept.{WellFormed}
use wazabi_edr_driver.Concurrent.{
  Pc, action, called, report, Runnable, move, step, request, notify, Reach, start, later,
}
use wazabi_edr_driver.Callbacks.Described.{OfThread}
use wazabi_edr_driver.Concurrent.Safe.{started}
use wazabi_edr_driver.Concurrent.Answers.{Promises, Reports, copies, Reach-answers}
use wazabi_edr_driver.Base.{◌+◌, ◌%◌, ◌^◌}
use wazabi_edr_driver.Concurrent.Invariant.{total}
use wazabi_edr_driver.Concurrent.Drops.{
  reported, uncounted, unfreed, copied, failures, frees, Reach-drops,
}
use wazabi_edr_driver.Tests.Events.{careful, careful-Fresh}
use wazabi_edr_driver.Tests.Wire.{created_header, created, created-WellFormed}
use wazabi_edr_driver.Tests.Setting.{ring_memory, pool_memory, irp_memory}

abbrev begin : World
begin = started careful ring_memory pool_memory irp_memory

-- The callback: where it stands after each step, and the state.
abbrev a0 : Pc × World
a0 = report careful 36 [] created begin

abbrev a1 : Pc × World
a1 = action careful a0.0 a0.1

abbrev a2 : Pc × World
a2 = action careful a1.0 a1.1

abbrev a3 : Pc × World
a3 = action careful a2.0 a2.1

abbrev a4 : Pc × World
a4 = action careful a3.0 a3.1

abbrev a5 : Pc × World
a5 = action careful a4.0 a4.1

-- The start of thread 9 of process 8.
abbrev IsThreadStart : Event → Type 0
IsThreadStart = OfThread careful 8 9 1

created-IsThreadStart : IsThreadStart created
created-IsThreadStart = OfThread.starts created_header begin.log (ground arith)

a0-Promises : Promises (λ e. WellFormed e × IsThreadStart e) a0.0
unfolding driver_entry report alloc_event
a0-Promises = (created-WellFormed, created-IsThreadStart)

-- The request that comes then.
abbrev b0 : Pc × World
b0 = (called device_control 202, record a5.1 { log = receive 202 ∷ a5.1.log })

abbrev b1 : Pc × World
b1 = action careful b0.0 b0.1

abbrev b2 : Pc × World
b2 = action careful b1.0 b1.1

abbrev b3 : Pc × World
b3 = action careful b2.0 b2.1

abbrev b4 : Pc × World
b4 = action careful b3.0 b3.1

a0-Runnable : Runnable a0.0 a0.1
unfolding driver_entry report alloc_event action queue_push_locked queue_pop_locked
    ioctl_wedr_get_event
a0-Runnable = tt

a1-Runnable : Runnable a1.0 a1.1
unfolding driver_entry report alloc_event action queue_push_locked queue_pop_locked
    ioctl_wedr_get_event
a1-Runnable = refl

a2-Runnable : Runnable a2.0 a2.1
unfolding driver_entry report alloc_event action queue_push_locked queue_pop_locked
    ioctl_wedr_get_event
a2-Runnable = tt

a3-Runnable : Runnable a3.0 a3.1
unfolding driver_entry report alloc_event action queue_push_locked queue_pop_locked
    ioctl_wedr_get_event
a3-Runnable = tt

a4-Runnable : Runnable a4.0 a4.1
unfolding driver_entry report alloc_event action queue_push_locked queue_pop_locked
    ioctl_wedr_get_event
a4-Runnable = tt

b0-Runnable : Runnable b0.0 b0.1
unfolding driver_entry report alloc_event action queue_push_locked queue_pop_locked
    ioctl_wedr_get_event
b0-Runnable = tt

b1-Runnable : Runnable b1.0 b1.1
unfolding driver_entry report alloc_event action queue_push_locked queue_pop_locked
    ioctl_wedr_get_event
b1-Runnable = refl

b2-Runnable : Runnable b2.0 b2.1
unfolding driver_entry report alloc_event action queue_push_locked queue_pop_locked
    ioctl_wedr_get_event
b2-Runnable = tt

b3-Runnable : Runnable b3.0 b3.1
unfolding driver_entry report alloc_event action queue_push_locked queue_pop_locked
    ioctl_wedr_get_event
b3-Runnable = tt

real : 202 ≢ null
real = ground arith

abbrev queues : Reach careful begin (record { world = a5.1; threads = a5.0 ∷ [] })
queues =
    let r0 = later start (notify [] [] 36 [] created begin) in
    let r1 = later r0 (step (move [] [] a0.0 a0.1 a0-Runnable)) in
    let r2 = later r1 (step (move [] [] a1.0 a1.1 a1-Runnable)) in
    let r3 = later r2 (step (move [] [] a2.0 a2.1 a2-Runnable)) in
    let r4 = later r3 (step (move [] [] a3.0 a3.1 a3-Runnable)) in
    later r4 (step (move [] [] a4.0 a4.1 a4-Runnable))

abbrev hands_out : Reach careful begin (record { world = b4.1; threads = b4.0 ∷ a5.0 ∷ [] })
hands_out =
    let ts = a5.0 ∷ [] in
    let r0 = later queues (request device_control 202 a5.1 ts real) in
    let r1 = later r0 (step (move [] ts b0.0 b0.1 b0-Runnable)) in
    let r2 = later r1 (step (move [] ts b1.0 b1.1 b1-Runnable)) in
    let r3 = later r2 (step (move [] ts b2.0 b2.1 b2-Runnable)) in
    later r3 (step (move [] ts b3.0 b3.1 b3-Runnable))

hands_out-Reports : Reports (λ e. WellFormed e × IsThreadStart e) hands_out
hands_out-Reports = (((((((((((tt, a0-Promises), tt), tt), tt), tt), tt), tt), tt), tt), tt), tt)

b4-copies : copies b4.0 ≡ some (202, record { block = 1; size = 36 })
unfolding driver_entry report alloc_event action queue_push_locked queue_pop_locked
    ioctl_wedr_get_event
b4-copies = refl

Reach-answers_example :
    let got = take 36 ((action careful b4.0 b4.1).1.irps 202).system_buffer in
    (e : Event) × WellFormed e
    × IsThreadStart e
    × (36 ≡ event_size e)
    × (got ≡ event_bytes e)
    × ((d : Event) × WellFormed d × (event_bytes d ≡ event_bytes e) × (decode_event got ≡ some d))
Reach-answers_example =
    Reach-answers IsThreadStart careful careful-Fresh ring_memory pool_memory irp_memory []
      (a5.0 ∷ []) b4.0 b4.1 hands_out hands_out-Reports 202 (record { block = 1; size = 36 })
      b4-copies

Reach-drops_example :
    (reported hands_out + b4.1.drop_count + total uncounted (b4.0 ∷ a5.0 ∷ []) + copied b4.1.log)
      % 2 ^ 32
    ≡ (failures b4.1.log + frees b4.1.log + total unfreed (b4.0 ∷ a5.0 ∷ [])) % 2 ^ 32
Reach-drops_example = Reach-drops careful ring_memory pool_memory irp_memory hands_out
