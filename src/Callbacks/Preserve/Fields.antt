-- ===== src/Callbacks/Preserve/Fields.antt =====
-- What the registry callback's copies put into the fields of its event.
use wazabi_edr_driver.Base.{
  ◌≡◌, ◌-◌, ◌/◌, ◌∙◌, refl, sym, ap, subst, take, take-copy_into, copy_into, true, Option-cases, ℕ,
  ◌≤◌, List, Option, none, some, arith, length, replicate, ltb, inl, inr, Bool-cases,
}
use wazabi_edr_driver.Wdk.{Ptr, Kernel, UnicodeString, as_u16}
use wazabi_edr_driver.State.{World}
use wazabi_edr_driver.Events.Event.{Event}
use wazabi_edr_driver.Events.{
  RegistryEvent, registry_key_path_max, registry_value_name_max, registry_data_preview_max,
}
use wazabi_edr_driver.Callbacks.Described.{
  text_of, data_of, Shows, Named, named, Changes, NamesValue, OfRegistry,
}
use wazabi_edr_driver.Callbacks.Preserve.Shown.{
  copied-Shows, Shows-as_u16, nothing-Shows, unicode_into-Shows,
}
use wazabi_edr_driver.Callbacks.Registry.Prefix.Matching.{
  StartsWithAny, is_interesting_path-StartsWithAny,
}
use wazabi_edr_driver.Callbacks.Preserve.Copies.{Readable}
use wazabi_edr_driver.Callbacks.Registry.{
  write_value_name, write_data_preview, SetValueInformation, pre_set_value_key,
}
use wazabi_edr_driver.Callbacks.Registry.Prefix.{
  is_interesting_unicode_string, is_interesting_path, critical_registry_prefixes,
}

-- The data behind `Data` holds `DataSize` bytes.
abbrev pub ReadableData : Option (List ℕ) → ℕ → Type 0
ReadableData none n = Unit
ReadableData (some bytes) n = n ≤ length bytes

-- The path in the event is the one that passed the gate.
pub stored :
    (k : Kernel) (object : Ptr) (path : List ℕ × ℕ)
    → length path.0 ≡ registry_key_path_max
    → path.1 ≤ registry_key_path_max - 1
    → Named k object path
    → Named k object (copy_into path.0 (replicate registry_key_path_max 0) path.1, as_u16 path.1)
stored k object path len fits (named l cookie n answers shows watched) =
    let units = copy_into path.0 (replicate registry_key_path_max 0) path.1 in
    let same : take path.1 units ≡ take path.1 path.0 =
      take-copy_into path.0 (replicate registry_key_path_max 0) path.1 (omega arith) in
    let exact : as_u16 path.1 ≡ path.1 = omega arith in
    subst (λ m. Named k object (units, m)) (sym exact)
      (named l cookie n answers (record { amount = shows.amount; units = same ∙ shows.units })
        (subst (λ us. StartsWithAny us critical_registry_prefixes) (sym same) watched))

-- Naming the value leaves the rest of the event alone.
pub value_named-Changes :
    (k : Kernel) (code : ℕ) (object : Ptr) (evt : RegistryEvent) (name : Option UnicodeString)
    (w : World)
    → Changes k code object evt
    → Changes k code object (write_value_name evt name w).0
unfolding write_value_name
value_named-Changes k code object evt name w c = record { operation = c.operation; key = c.key }

pub value_named-NamesValue :
    (evt : RegistryEvent) (name : Option UnicodeString) (w : World)
    → Readable name
    → NamesValue name (write_value_name evt name w).0
unfolding write_value_name
value_named-NamesValue evt name w r =
    Shows-as_u16 (registry_value_name_max - 1) (text_of name) _ _ (omega arith)
      (unicode_into-Shows name evt.value_name registry_value_name_max w r)

-- The data's start in an event that has none yet.
previewed-Shows :
    (value : Option (List ℕ)) (size : ℕ) (evt : RegistryEvent) (w : World)
    → ReadableData value size
    → evt.data_preview_len ≡ 0
    → let e = (write_data_preview evt value size w).0 in
      Shows registry_data_preview_max (data_of value size) (e.data_preview, e.data_preview_len)
unfolding write_data_preview
previewed-Shows none size evt w r d =
    rw d (nothing-Shows registry_data_preview_max evt.data_preview)
previewed-Shows (some bytes) size evt w r d = elim (Bool-cases (ltb 0 size)) [
  | inl u ↦ rw u (
      Shows-as_u16 registry_data_preview_max (take size bytes) _ _ (omega arith)
        (copied-Shows bytes evt.data_preview size registry_data_preview_max r))
  | inr u ↦
      let z : size ≡ 0 = ground arith in
      rw u (rw z (rw d (nothing-Shows registry_data_preview_max evt.data_preview)))
]

-- The rest of the event stays as it is.
previewed-same :
    (value : Option (List ℕ)) (size : ℕ) (evt : RegistryEvent) (w : World)
    → let e = (write_data_preview evt value size w).0 in
      record evt { data_preview = e.data_preview; data_preview_len = e.data_preview_len } ≡ e
unfolding write_data_preview
previewed-same none size evt w = refl
previewed-same (some bytes) size evt w = elim (Bool-cases (ltb 0 size)) [
  | inl u ↦ rw u refl
  | inr u ↦ rw u refl
]

-- The event of a value that is set.
pub value_set :
    (k : Kernel) (info : SetValueInformation) (evt : RegistryEvent) (w : World)
    → Readable info.value_name
    → ReadableData info.value info.data_size
    → Changes k 1 info.object evt
    → evt.data_preview_len ≡ 0
    → let typed = record evt { value_type = info.type_; data_size = info.data_size } in
      let (named_, w') = write_value_name typed info.value_name w in
      OfRegistry k
        (pre_set_value_key (some info))
        (Event.registry (write_data_preview named_ info.value info.data_size w').0)
unfolding write_value_name
value_set k info evt w name bytes c d =
    let typed = record evt { value_type = info.type_; data_size = info.data_size } in
    let (named_, w') = write_value_name typed info.value_name w in
    let e = (write_data_preview named_ info.value info.data_size w').0 in
    let same = previewed-same info.value info.data_size named_ w' in
    let shows = previewed-Shows info.value info.data_size named_ w' bytes d in
    let names = value_named-NamesValue typed info.value_name w name in
    OfRegistry.sets_value info e
      (subst (Changes k 1 info.object) same (record { operation = c.operation; key = c.key }))
      (subst (NamesValue info.value_name) same
        (record { amount = names.amount; units = names.units }))
      (sym (ap (λ x. x.value_type) same)) (sym (ap (λ x. x.data_size) same)) shows

pub interesting-StartsWithAny :
    (name : Option UnicodeString)
    → is_interesting_unicode_string name ≡ true
    → StartsWithAny (text_of name) critical_registry_prefixes
unfolding is_interesting_unicode_string
interesting-StartsWithAny none e = absurd (ground arith)
interesting-StartsWithAny (some s) e = elim (Option-cases s.buffer) [
  | inl b ↦ absurd (ground arith)
  | inr (units, b) ↦
      let there : is_interesting_path (take (s.length_bytes / 2) units) ≡ true = ground arith in
      rw b ((is_interesting_path-StartsWithAny (take (s.length_bytes / 2) units)).0 there)
]
