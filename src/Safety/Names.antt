-- ===== src/Safety/Names.antt =====
-- Key names that the registry callback asks for: each is given back.
use wazabi_edr_driver.Base.{ℕ, ◌+◌, ◌≡◌, refl, ap, sym, subst, arith, List, [], ◌∷◌}
use wazabi_edr_driver.Wdk.{
  Ptr, Irp, Log, Action, Kernel, DispatchRoutine, create_close, cleanup, device_control, invalid,
  get_key_name, release_key_name,
}
use wazabi_edr_driver.State.{Slot, World, loaded}
use wazabi_edr_driver.Ring.{queue_push_locked, queue_pop_locked}
use wazabi_edr_driver.Submit.{alloc_event, submit_event}
use wazabi_edr_driver.Dispatch.{
  dispatch_create_close, dispatch_invalid, dispatch_cleanup, dispatch_device_control,
}
use wazabi_edr_driver.Callbacks.Header.{write_block}
use wazabi_edr_driver.Callbacks.Kept.{Kept, WellFormed}
use wazabi_edr_driver.Callbacks.Preserve.Keys.{ReadableNames}
use wazabi_edr_driver.Entry.Kept.{EntryAction, printing, EntryKept, driver_entry-Kept}
use wazabi_edr_driver.System.{Request, serve, session}
use wazabi_edr_driver.Safety.{one_if}
use wazabi_edr_driver.Safety.Callbacks.{ownerless-Kept}
use wazabi_edr_driver.Safety.Served.{handed}
use wazabi_edr_driver.Safety.Run.{AllGenuine, run-Kept}

-- How often the name at the pointer was got, and released.
abbrev pub names_got : Ptr → Log → ℕ
names_got o [] = 0
names_got o (get_key_name p ∷ l) = one_if p o + names_got o l
names_got o (_ ∷ l) = names_got o l

abbrev pub names_released : Ptr → Log → ℕ
names_released o [] = 0
names_released o (release_key_name p ∷ l) = one_if p o + names_released o l
names_released o (_ ∷ l) = names_released o l

abbrev pub Released : Ptr → World → Type 0
Released o w = names_got o w.log ≡ names_released o w.log

module _ (k : Kernel) (o : Ptr) (w : World) (e : Released o w) where
  alloc_event-Released : (size : ℕ) → Released o (alloc_event k size w).1
  unfolding alloc_event
  alloc_event-Released size = ground arith

  submit_event-Released : (b : Ptr) (size : ℕ) → Released o (submit_event k b size w).1
  unfolding submit_event queue_push_locked
  submit_event-Released b size = ground arith

  serve-Released :
      (routine : DispatchRoutine) (irp : Ptr) → Released o (serve k routine irp (handed irp w)).1
  unfolding serve dispatch_device_control dispatch_cleanup dispatch_create_close dispatch_invalid
      queue_pop_locked
  serve-Released create_close irp = ground arith
  serve-Released cleanup irp = ground arith
  serve-Released device_control irp = ground arith
  serve-Released invalid irp = ground arith

Released-Kept : (k : Kernel) (o : Ptr) → Kept k WellFormed (λ held. Released o)
unfolding write_block
Released-Kept k o =
    ownerless-Kept k (Released o) (λ size w e. alloc_event-Released k o w e size) (λ p bytes w e. e)
      (λ d t w e. e) (λ p w e. ap (λ n. one_if p o + n) e)
      (λ p size w e. submit_event-Released k o w e p size)

Released-acts :
    (o : Ptr) (a : Action) (w : World)
    → EntryAction a
    → Released o w
    → Released o (record w { log = a ∷ w.log })
Released-acts o a w (printing m) e = e
Released-acts o a w _ e = e

Released-EntryKept : (o : Ptr) → EntryKept (Released o)
Released-EntryKept o = record {
  acts = Released-acts o;
  sets =
      λ w w' same e. subst (λ l. names_got o l ≡ names_released o l) (sym (ap (λ c. c.3) same)) e;
}

-- After a session of requests whose IRPs are not null and of notifications whose strings can be read,
-- every name that CmCallbackGetKeyObjectIDEx gave has been released, by the pointer to it, as often as
-- it was got.
pub session-Released :
    (k : Kernel) (readable : ReadableNames k) (buf : ℕ → Slot) (pool : Ptr → List ℕ)
    (irps : Ptr → Irp) (rs : List Request)
    → AllGenuine rs
    → (o : Ptr) → let w = session k buf pool irps rs in names_got o w.log ≡ names_released o w.log
unfolding session
session-Released k readable buf pool irps rs genuine o =
    run-Kept readable (Released-Kept k o)
      (λ routine irp w real e. serve-Released k o w e routine irp) rs _ genuine
      (driver_entry-Kept (Released-EntryKept o) k (loaded buf pool irps) refl)
