-- ===== src/Tests/Driver.antt =====
-- Whole lives of the driver.
use wazabi_edr_driver.Base.{ℕ, ◌+◌, ◌≡◌, []}
use wazabi_edr_driver.Wdk.{null, process_routine}
use wazabi_edr_driver.State.{World, loaded}
use wazabi_edr_driver.Entry.{driver_entry}
use wazabi_edr_driver.System.{session, lifetime}
use wazabi_edr_driver.Safety.{allocated, freed, received, completed, BlockSafe, IrpSafe}
use wazabi_edr_driver.Safety.Blocks.{Owned}
use wazabi_edr_driver.Safety.Irps.{Answered}
use wazabi_edr_driver.Safety.Lock.{Unlocked}
use wazabi_edr_driver.Safety.Waiting.{NoLostEvent}
use wazabi_edr_driver.Safety.Bounds.{InBounds}
use wazabi_edr_driver.Safety.Registered.{registered, unregistered, devices_created, devices_deleted}
use wazabi_edr_driver.Safety.Attempts.Accounts.{Reportables, refused, returned, session-accounts}
use wazabi_edr_driver.Safety.Sessions.{
  session-Owned, session-Answered, session-Unlocked, session-NoLostEvent, session-InBounds,
}
use wazabi_edr_driver.Safety.Lifetime.{lifetime-freed, lifetime-completed}
use wazabi_edr_driver.Safety.Registered.Ending.{lifetime-Undone}
use wazabi_edr_driver.Tests.Setting.{
  kernel, ring_memory, pool_memory, irp_memory, requests, kernel-ReadableNames, kernel-RealHandles,
  requests-AllGenuine,
}

abbrev begin : World
begin = loaded ring_memory pool_memory irp_memory

lifetime-freed_example :
    let w = lifetime kernel ring_memory pool_memory irp_memory requests in
    (w.queue.len ≡ 0) × (allocated 1014 w.log ≡ freed 1014 w.log) × BlockSafe 1014 w.log
lifetime-freed_example =
    lifetime-freed kernel kernel-ReadableNames ring_memory pool_memory irp_memory requests
      requests-AllGenuine 1014

lifetime-completed_example :
    let w = lifetime kernel ring_memory pool_memory irp_memory requests in
    (w.pending_irp ≡ null)
    × (received 203 w.log ≡ completed 203 w.log)
    × IrpSafe 203 w.log
    × Unlocked w
lifetime-completed_example =
    lifetime-completed kernel kernel-ReadableNames ring_memory pool_memory irp_memory requests
      requests-AllGenuine 203

lifetime-Undone_example :
    let w = lifetime kernel ring_memory pool_memory irp_memory requests in
    (registered process_routine w.log ≡ unregistered process_routine w.log)
    × (devices_created w.log ≡ devices_deleted w.log)
lifetime-Undone_example =
    lifetime-Undone kernel kernel-ReadableNames kernel-RealHandles ring_memory pool_memory
      irp_memory requests requests-AllGenuine process_routine

session-accounts_example :
    let w = session kernel ring_memory pool_memory irp_memory requests in
    (n : ℕ) × Reportables kernel (driver_entry kernel begin).1 requests n
    × (n ≡ refused w.log + returned w.log + w.queue.len)
session-accounts_example =
    session-accounts kernel kernel-ReadableNames ring_memory pool_memory irp_memory requests
      requests-AllGenuine

session-Owned_example : Owned 1014 [] (session kernel ring_memory pool_memory irp_memory requests)
session-Owned_example =
    session-Owned kernel kernel-ReadableNames ring_memory pool_memory irp_memory requests
      requests-AllGenuine 1014

session-Answered_example :
    Answered 203 [] (session kernel ring_memory pool_memory irp_memory requests)
session-Answered_example =
    session-Answered kernel kernel-ReadableNames ring_memory pool_memory irp_memory requests
      requests-AllGenuine 203

session-Unlocked_example : Unlocked (session kernel ring_memory pool_memory irp_memory requests)
session-Unlocked_example =
    session-Unlocked kernel kernel-ReadableNames ring_memory pool_memory irp_memory requests
      requests-AllGenuine

session-NoLostEvent_example :
    NoLostEvent (session kernel ring_memory pool_memory irp_memory requests)
session-NoLostEvent_example =
    session-NoLostEvent kernel kernel-ReadableNames ring_memory pool_memory irp_memory requests
      requests-AllGenuine

session-InBounds_example :
    InBounds
      (λ p. (irp_memory p).output_buffer_length)
      (session kernel ring_memory pool_memory irp_memory requests)
session-InBounds_example =
    session-InBounds kernel kernel-ReadableNames ring_memory pool_memory irp_memory requests
      requests-AllGenuine
