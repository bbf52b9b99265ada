-- ===== src/Events/Wrapped/Bytes.antt =====
-- Cutting the numbers to their fields leaves the bytes as they were.
use wazabi_edr_driver.Base.{ℕ, ◌%◌, ◌^◌, ◌≡◌, refl, ap₂, List, [], ◌∷◌, arith}
use wazabi_edr_driver.Events.{EventHeader}
use wazabi_edr_driver.Events.Codec.{le_bytes, units}
use wazabi_edr_driver.Events.Layout.{
  header_bytes, process_create_bytes, process_exit_bytes, image_load_bytes, registry_bytes,
  thread_create_bytes, thread_exit_bytes, handle_access_bytes,
}
use wazabi_edr_driver.Events.Event.{
  Event, process_create, process_exit, image_load, registry, thread_create, thread_exit,
  handle_access, event_bytes,
}
use wazabi_edr_driver.Events.Wrapped.{wrap_units, wrap_header, wrap}

le_bytes-wrap2 : (x : ℕ) → le_bytes 2 (x % 256 ^ 2) ≡ le_bytes 2 x
unfolding le_bytes
le_bytes-wrap2 x = ap₂ ◌∷◌ (omega arith) (ap₂ ◌∷◌ (omega arith) refl)

le_bytes-wrap4 : (x : ℕ) → le_bytes 4 (x % 256 ^ 4) ≡ le_bytes 4 x
unfolding le_bytes
le_bytes-wrap4 x =
    ap₂ ◌∷◌ (omega arith)
      (ap₂ ◌∷◌ (omega arith) (ap₂ ◌∷◌ (omega arith) (ap₂ ◌∷◌ (omega arith) refl)))

le_bytes-wrap8 : (x : ℕ) → le_bytes 8 (x % 256 ^ 8) ≡ le_bytes 8 x
unfolding le_bytes
le_bytes-wrap8 x = ap₂ ◌∷◌ (omega arith) (
    ap₂ ◌∷◌ (omega arith) (
      ap₂ ◌∷◌ (omega arith) (
        ap₂ ◌∷◌ (omega arith) (
          ap₂ ◌∷◌ (omega arith)
            (ap₂ ◌∷◌ (omega arith) (ap₂ ◌∷◌ (omega arith) (ap₂ ◌∷◌ (omega arith) refl)))))))

units-wrap : (us : List ℕ) → units (wrap_units us) ≡ units us
unfolding units
units-wrap [] = refl
units-wrap (u ∷ us) = ap₂ ◌∷◌ (omega arith) (ap₂ ◌∷◌ (omega arith) (units-wrap us))

header_bytes-wrap : (h : EventHeader) → header_bytes (wrap_header h) ≡ header_bytes h
unfolding header_bytes
header_bytes-wrap h = simp (le_bytes-wrap2, le_bytes-wrap4, le_bytes-wrap8)

-- The bytes do not change.
pub event_bytes-wrap : (e : Event) → event_bytes (wrap e) ≡ event_bytes e
unfolding event_bytes process_create_bytes process_exit_bytes image_load_bytes registry_bytes
    thread_create_bytes thread_exit_bytes handle_access_bytes
event_bytes-wrap (process_create e) =
    simp (header_bytes-wrap, le_bytes-wrap2, le_bytes-wrap4, units-wrap)
event_bytes-wrap (process_exit e) = simp (header_bytes-wrap, le_bytes-wrap4)
event_bytes-wrap (image_load e) =
    simp (header_bytes-wrap, le_bytes-wrap2, le_bytes-wrap4, le_bytes-wrap8, units-wrap)
event_bytes-wrap (registry e) = simp (header_bytes-wrap, le_bytes-wrap2, le_bytes-wrap4, units-wrap)
event_bytes-wrap (thread_create e) = simp (header_bytes-wrap, le_bytes-wrap4)
event_bytes-wrap (thread_exit e) = simp (header_bytes-wrap, le_bytes-wrap4)
event_bytes-wrap (handle_access e) = simp (header_bytes-wrap, le_bytes-wrap2, le_bytes-wrap4)
