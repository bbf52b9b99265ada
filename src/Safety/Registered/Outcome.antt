-- ===== src/Safety/Registered/Outcome.antt =====
-- What DriverEntry answers, and what it leaves behind in each case.
use wazabi_edr_driver.Base.{ℕ, ◌+◌, ◌≡◌, ◌⊎◌, [], ◌∷◌, true, if◌then◌else◌, ltb}
use wazabi_edr_driver.Wdk.{
  null, Log, Kernel, NtStatus, register, create_symlink, is_negative, status_success, dbg_print,
  ready, ready_degraded,
}
use wazabi_edr_driver.State.{World}
use wazabi_edr_driver.Safety.Registered.{devices_created, devices_deleted}

-- How many routines were registered, and how many symbolic links were created.
abbrev pub registrations : Log → ℕ
registrations [] = 0
registrations (register _ _ ∷ l) = 1 + registrations l
registrations (_ ∷ l) = registrations l

abbrev pub symlinks : Log → ℕ
symlinks [] = 0
symlinks (create_symlink _ _ ∷ l) = 1 + symlinks l
symlinks (_ ∷ l) = symlinks l

-- `failed` of `tried` registrations made no difference but in the count.
abbrev Tried : ℕ → ℕ → Log → Log → Type 0
Tried tried failed before after =
    (failed + registrations after ≡ tried + registrations before)
    × (devices_created after ≡ devices_created before)
    × (devices_deleted after ≡ devices_deleted before)
    × (symlinks after ≡ symlinks before)

-- A failure leaves nothing.
abbrev Failed : Kernel → NtStatus → World → Type 0
Failed k status w' =
    (is_negative status ≡ true)
    × ((l : Log) × ((status ≡ (k.io_create_device l).0) ⊎ (status ≡ k.io_create_symbolic_link l)))
    × (devices_created w'.log ≡ devices_deleted w'.log)
    × (symlinks w'.log ≡ 0)
    × (registrations w'.log ≡ 0)
    × (w'.control_device ≡ null)

-- A success leaves the device and the link, and says how the registrations went.
abbrev Started : NtStatus → World → Type 0
Started status w' =
    (status ≡ status_success)
    × (devices_created w'.log ≡ 1)
    × (devices_deleted w'.log ≡ 0)
    × (symlinks w'.log ≡ 1)
    × ((l : Log) × (w'.log
          ≡ dbg_print (if ltb (registrations w'.log) 5 then ready_degraded else ready) ∷ l))
