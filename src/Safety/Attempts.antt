-- ===== src/Safety/Attempts.antt =====
-- How often alloc_event asks the pool for a block: the parts that the emitters of src/callbacks share.
pub mod Keys
pub mod Reportable
pub mod Steps
pub mod Accounts
use wazabi_edr_driver.Base.{
  ℕ, ◌+◌, ◌≡◌, ◌∙◌, refl, arith, List, [], ◌∷◌, Option, none, some, ℕ_discrete,
}
use wazabi_edr_driver.Wdk.{Ptr, null, Log, Kernel, UnicodeString, allocate, allocate_failed}
use wazabi_edr_driver.State.{World, M, ◌>>=◌}
use wazabi_edr_driver.Ring.{queue_push_locked}
use wazabi_edr_driver.Events.{EventType, EventHeader}
use wazabi_edr_driver.Events.Event.{Event}
use wazabi_edr_driver.Submit.{alloc_event, submit_event}
use wazabi_edr_driver.Callbacks.Header.{alloc_event_for, submit, unless_null}
use wazabi_edr_driver.Callbacks.Process.{copy_units, copy_unicode_string_into}
use wazabi_edr_driver.Callbacks.Image.{copy_image_name}
use wazabi_edr_driver.Callbacks.Registry.{
  copy_unicode_into, write_data_preview, SetValueInformation,
}

-- The calls of ExAllocatePool2, with and without success.
abbrev pub attempts : Log → ℕ
attempts [] = 0
attempts (allocate _ _ ∷ l) = 1 + attempts l
attempts (allocate_failed _ ∷ l) = 1 + attempts l
attempts (_ ∷ l) = attempts l

module _ (k : Kernel) where
  -- `submit_event` asks for no block.
  pub submit-attempts :
      (p : Ptr) (e : Event) (w : World) → attempts (submit k p e w).1.log ≡ attempts w.log
  unfolding submit submit_event queue_push_locked
  submit-attempts p e w = ground arith

  alloc_event_for-attempts :
      (size : ℕ) (t : EventType) (w : World)
      → attempts (alloc_event_for k size t w).1.log ≡ attempts w.log + 1
  unfolding alloc_event_for alloc_event
  alloc_event_for-attempts size t w = ground arith

  -- The shape of every emitter.
  pub emit-attempts :
      (size : ℕ) (t : EventType) (body : Ptr → EventHeader → M (Unit {0})) (w : World)
      → ((p : Ptr) (h : EventHeader) (w' : World) → attempts (body p h w').1.log ≡ attempts w'.log)
      → attempts ((alloc_event_for k size t >>= λ evt. unless_null evt body) w).1.log
        ≡ attempts w.log + 1
  emit-attempts size t body w rest =
      body_of (alloc_event_for k size t w).0 ∙ alloc_event_for-attempts size t w
    where
      body_of :
          (o : Option (Ptr × EventHeader))
          → attempts (unless_null o body (alloc_event_for k size t w).1).1.log
            ≡ attempts (alloc_event_for k size t w).1.log
      body_of none = refl
      body_of (some (p, h)) = rest p h _

-- The copies leave the log alone.
pub string_into-log :
    (s : Option UnicodeString) (size : ℕ) (dst : List ℕ) (n : ℕ) (w : World)
    → (copy_unicode_string_into s size (dst, n) w).1.log ≡ w.log
unfolding copy_unicode_string_into copy_units
string_into-log none size dst n w = refl
string_into-log (some s) size dst n w = ground arith

pub image_name-log : (s : Option UnicodeString) (w : World) → (copy_image_name s w).1.log ≡ w.log
unfolding copy_image_name
image_name-log none w = refl
image_name-log (some s) w = ground arith

pub unicode_into-log :
    (s : Option UnicodeString) (dst : List ℕ) (size : ℕ) (w : World)
    → (copy_unicode_into s dst size w).1.log ≡ w.log
unfolding copy_unicode_into
unicode_into-log none dst size w = refl
unicode_into-log (some s) dst size w = ground arith
