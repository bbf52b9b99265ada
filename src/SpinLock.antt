-- ===== src/SpinLock.antt =====
-- util/spin_lock.rs: the guard of QUEUE_LOCK. A guard is dropped by an explicit call, where the
-- source drops it or lets it go out of scope.
use wazabi_edr_driver.Base.{ℕ}
use wazabi_edr_driver.Wdk.{Kernel, acquire, release}
use wazabi_edr_driver.State.{M, ◌>>=◌, ◌>>◌, pure, gets, act}

-- The lock is always QUEUE_LOCK, so the guard holds the saved IRQL alone.
pub record SpinLockGuard : Type 0 where
  pub saved_irql : ℕ

unfoldable pub acquire_guard : Kernel → M SpinLockGuard
unfolding act
acquire_guard k = do
  irql ← gets (λ w. k.ke_acquire_spin_lock w.log)
  act (acquire irql)
  pure (record { saved_irql = irql })

unfoldable pub drop_guard : SpinLockGuard → M (Unit {0})
unfolding act
drop_guard guard = act (release guard.saved_irql)
