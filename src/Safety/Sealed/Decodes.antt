-- ===== src/Safety/Sealed/Decodes.antt =====
-- What the agent reads in the bytes of a well-formed event.
use wazabi_edr_driver.Base.{◌%◌, ◌^◌, ◌≡◌, refl, ap, ◌∙◌, sym, some}
use wazabi_edr_driver.Events.{event_type_code, EventType}
use wazabi_edr_driver.Events.Event.{Event, event_bytes, event_size, event_type}
use wazabi_edr_driver.Events.Decode.{decode_event, decode_event-event_bytes}
use wazabi_edr_driver.Events.Wrapped.{wrap}
use wazabi_edr_driver.Events.Wrapped.Bytes.{event_bytes-wrap}
use wazabi_edr_driver.Events.Wrapped.Fitting.{
  wrap-Fits, wrap-HasArrays, wrap-header, wrap-type, wrap-size,
}
use wazabi_edr_driver.Callbacks.Kept.{WellFormed}

type_code-fits : (t : EventType) → event_type_code t % 256 ^ 2 ≡ event_type_code t
type_code-fits EventType.process_create = refl
type_code-fits EventType.process_exit = refl
type_code-fits EventType.image_load = refl
type_code-fits EventType.registry_modify = refl
type_code-fits EventType.thread_create = refl
type_code-fits EventType.thread_exit = refl
type_code-fits EventType.process_handle_access = refl

wrap-WellFormed : (e : Event) → WellFormed e → WellFormed (wrap e)
wrap-WellFormed e wf =
    let h = wrap-header e in
    record {
      header = record {
        version = ap (λ h. h.version) h ∙ ap (λ n. n % 256 ^ 2) wf.header.version;
        type_ =
            ap (λ h. h.type_) h
            ∙ ap (λ n. n % 256 ^ 2) wf.header.type_
            ∙ type_code-fits (event_type e)
            ∙ ap event_type_code (sym (wrap-type e));
        size_ =
            ap (λ h. h.size) h
            ∙ ap (λ n. n % 256 ^ 4) wf.header.size_
            ∙ (wrap-size e).1
            ∙ sym (wrap-size e).0;
      };
      arrays = wrap-HasArrays e wf.arrays;
    }

-- The bytes of a well-formed event decode to one, of the same size and with the same bytes.
pub WellFormed-decodes :
    (e : Event)
    → WellFormed e
    → (d : Event) × WellFormed d
      × (event_size d ≡ event_size e)
      × (event_bytes d ≡ event_bytes e)
      × (decode_event (event_bytes e) ≡ some d)
WellFormed-decodes e wf =
    let d = wrap-WellFormed e wf in
    (
      wrap e,
      d,
      (wrap-size e).0,
      event_bytes-wrap e,
      ap decode_event (sym (event_bytes-wrap e))
          ∙ decode_event-event_bytes (wrap e) d.arrays (wrap-Fits e) d.header.type_,
    )
