-- ===== src/Safety/Bounds.antt =====
-- Writes to user buffers stay inside them.
use wazabi_edr_driver.Base.{ℕ, ◌≡◌, arith}
use wazabi_edr_driver.Wdk.{Ptr, Kernel}
use wazabi_edr_driver.State.{World}
use wazabi_edr_driver.Ring.{queue_push_locked, queue_pop_locked}
use wazabi_edr_driver.Submit.{alloc_event, submit_event}
use wazabi_edr_driver.Dispatch.{
  dispatch_device_control, dispatch_cleanup, dispatch_create_close, dispatch_invalid,
}
use wazabi_edr_driver.Safety.{BufferSafe}

-- `outlen` gives each IRP's OutputBufferLength, which the driver never changes.
pub record InBounds (outlen : Ptr → ℕ) (w : World) : Type 0 where
  pub lengths : (p : Ptr) → (w.irps p).output_buffer_length ≡ outlen p
  pub safe : BufferSafe outlen w.log

module _ (k : Kernel) (outlen : Ptr → ℕ) (w : World) (v : InBounds outlen w) where
  pub submit_event-InBounds : (b : Ptr) (size : ℕ) → InBounds outlen (submit_event k b size w).1
  unfolding submit_event queue_push_locked
  submit_event-InBounds b size = record {
    lengths = λ p. ground (arith, v.lengths p, v.lengths w.pending_irp);
    safe = ground (arith, v.lengths w.pending_irp);
  }

  pub dispatch_device_control-InBounds :
      (irp : Ptr) → InBounds outlen (dispatch_device_control k irp w).1
  unfolding dispatch_device_control queue_pop_locked
  dispatch_device_control-InBounds irp = record {
    lengths = λ p. ground (arith, v.lengths p, v.lengths irp);
    safe = ground (arith, v.lengths irp);
  }

pub alloc_event-InBounds :
    (k : Kernel) (outlen : Ptr → ℕ) (w : World)
    → InBounds outlen w
    → (size : ℕ) → InBounds outlen (alloc_event k size w).1
unfolding alloc_event
alloc_event-InBounds k outlen w v size = record {
  lengths = λ p. ground (arith, v.lengths p);
  safe = ground arith;
}

-- The routines that write to no buffer.
module _ (outlen : Ptr → ℕ) (w : World) (v : InBounds outlen w) (irp : Ptr) where
  pub dispatch_cleanup-InBounds : InBounds outlen (dispatch_cleanup irp w).1
  unfolding dispatch_cleanup
  dispatch_cleanup-InBounds = record {
    lengths = λ p. ground (arith, v.lengths p, v.lengths irp, v.lengths w.pending_irp);
    safe = ground arith;
  }

  pub dispatch_create_close-InBounds : InBounds outlen (dispatch_create_close irp w).1
  unfolding dispatch_create_close
  dispatch_create_close-InBounds = record {
    lengths = λ p. ground (arith, v.lengths p, v.lengths irp);
    safe = ground arith;
  }

  pub dispatch_invalid-InBounds : InBounds outlen (dispatch_invalid irp w).1
  unfolding dispatch_invalid
  dispatch_invalid-InBounds = record {
    lengths = λ p. ground (arith, v.lengths p, v.lengths irp);
    safe = ground arith;
  }
