-- ===== src/Tests/Requests.antt =====
-- The branches of submit_event and of the dispatch routines.
use wazabi_edr_driver.Base.{
  ℕ, ◌+◌, ◌≤◌, ◌<◌, ◌≡◌, ◌≢◌, ◌⊎◌, refl, arith, [], ◌∷◌, copy_into, bit_or, if◌then◌else◌, ◌==◌,
}
use wazabi_edr_driver.Wdk.{
  null, status_success, status_pending, status_unsuccessful, status_invalid_device_request,
  status_buffer_too_small,
}
use wazabi_edr_driver.State.{Slot, Ring, World, loaded, add_u32}
use wazabi_edr_driver.Irp.{sl_pending_returned}
use wazabi_edr_driver.Safety.{completed}
use wazabi_edr_driver.Ring.Inv.{IsValid}
use wazabi_edr_driver.Ring.Refine.{contents, fifo_push}
use wazabi_edr_driver.Submit.{submit_event}
use wazabi_edr_driver.Submit.Paths.{submit_event_lem}
use wazabi_edr_driver.Dispatch.{ioctl_wedr_get_event, dispatch_device_control}
use wazabi_edr_driver.Dispatch.Paths.{Completed, dispatch_device_control_lem}
use wazabi_edr_driver.Tests.Setting.{kernel, ring_memory, pool_memory, irp_memory}

abbrev idle : World
idle = loaded ring_memory pool_memory irp_memory

abbrev waiting : World
waiting = record idle { pending_irp = 202 }

-- Two events queued, of 40 and of 4000 bytes, at the end of the ring's memory.
abbrev small : Slot
small = record { block = 500; size = 40 }

abbrev large : Slot
large = record { block = 501; size = 4000 }

abbrev two : Ring
two = record { buf = λ i. (if i == 4095 then small else large); head = 4095; tail = 1; len = 2 }

abbrev busy : World
busy = record idle { queue = two }

two-IsValid : IsValid two
two-IsValid = record { head_in = omega arith; len_in = omega arith; tail_at = refl }

two-contents : contents two ≡ small ∷ large ∷ []
unfolding contents
two-contents = refl

-- The large one alone.
abbrev one : Ring
one = record two { head = 0; len = 1 }

one-IsValid : IsValid one
one-IsValid = record { head_in = omega arith; len_in = omega arith; tail_at = refl }

one-contents : contents one ≡ large ∷ []
unfolding contents
one-contents = refl

asks : (irp_memory 202).io_control_code ≡ ioctl_wedr_get_event
unfolding ioctl_wedr_get_event
asks = refl

idle-IsValid : IsValid idle.queue
idle-IsValid = record { head_in = omega arith; len_in = omega arith; tail_at = refl }

-- IRP 204 asks for something else.
abbrev other : World
other = record waiting {
  irps = λ i. record (irp_memory i) { io_control_code = if i == 204 then 0x222000 else 0x226000 };
}

-- IRP 202 waits with room for 64 bytes, and 40 come.
submit_event_lem_example :
    let w' = (submit_event kernel 500 40 waiting).1 in
    (w'.pending_irp ≡ null)
    × (w'.irps 203 ≡ irp_memory 203)
    × (((waiting.pending_irp ≢ null)
          × (40 ≤ (irp_memory 202).output_buffer_length)
          × (w'.irps 202 ≡ record (irp_memory 202) {
            status = status_success;
            information = 40;
            system_buffer = copy_into (pool_memory 500) (irp_memory 202).system_buffer 40;
          })
          × (w'.queue ≡ waiting.queue)
          × (w'.drop_count ≡ 0)
          × (completed 202 w'.log ≡ completed 202 waiting.log + 1))
        ⊎ ((waiting.pending_irp ≢ null)
            × ((irp_memory 202).output_buffer_length < 40)
            × (w'.irps 202
                ≡ record (irp_memory 202) { status = status_buffer_too_small; information = 40 })
            × (w'.queue ≡ waiting.queue)
            × (w'.drop_count ≡ add_u32 0 1)
            × (completed 202 w'.log ≡ completed 202 waiting.log + 1))
        ⊎ ((waiting.pending_irp ≡ null)
            × (contents w'.queue
                ≡ fifo_push (contents waiting.queue) (record { block = 500; size = 40 }))))
submit_event_lem_example = submit_event_lem kernel 500 40 waiting 203 idle-IsValid (ground arith)

-- Completed at once with success: the small event fits.
dispatch_device_control_lem_example :
    let stack = irp_memory 202 in
    let (status, w') = dispatch_device_control kernel 202 busy in
    ((stack.io_control_code ≢ ioctl_wedr_get_event)
      × (status ≡ status_invalid_device_request)
      × (w' ≡ record busy { irps = w'.irps; log = w'.log })
      × ((◌≡◌ {A = ℕ} 203 202) ⊎ (w'.irps 203 ≡ irp_memory 203))
      × Completed status_invalid_device_request 0 202 stack busy w')
    ⊎ ((stack.io_control_code ≡ ioctl_wedr_get_event)
        × (((s : Slot) × (contents two ≡ s ∷ contents w'.queue)
              × (w'.pending_irp ≡ null)
              × (((s.size ≤ stack.output_buffer_length)
                    × (status ≡ status_success)
                    × (w'.drop_count ≡ 0)
                    × Completed status_success s.size 202
                        (record stack {
                          system_buffer =
                              copy_into (pool_memory s.block) stack.system_buffer s.size;
                        })
                        busy
                        w')
                  ⊎ ((stack.output_buffer_length < s.size)
                      × (status ≡ status_buffer_too_small)
                      × (w'.drop_count ≡ add_u32 0 1)
                      × Completed status_buffer_too_small s.size 202 stack busy w')))
            ⊎ ((two.len ≡ 0)
                × (((busy.pending_irp ≡ null)
                      × (status ≡ status_pending)
                      × (w'.pending_irp ≡ 202)
                      × (w'.irps 202
                          ≡ record stack { control = bit_or stack.control sl_pending_returned })
                      × (completed 202 w'.log ≡ completed 202 busy.log))
                    ⊎ ((busy.pending_irp ≢ null)
                        × (status ≡ status_unsuccessful)
                        × (w'.pending_irp ≡ null)
                        × Completed status_unsuccessful 0 202 stack busy w')))))
dispatch_device_control_lem_example = dispatch_device_control_lem kernel 202 203 busy two-IsValid
