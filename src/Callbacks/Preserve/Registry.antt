-- ===== src/Callbacks/Preserve/Registry.antt =====
-- The registry callback's emitters.
use wazabi_edr_driver.Base.{
  ◌≡◌, ◌-◌, refl, ℕ, List, ◌∷◌, Option, none, some, arith, length-replicate, length-copy_into,
  replicate, min, ltb, inl, inr, Bool-cases, not,
}
use wazabi_edr_driver.Wdk.{Ptr, Kernel, UnicodeString}
use wazabi_edr_driver.State.{World}
use wazabi_edr_driver.Events.Event.{Event}
use wazabi_edr_driver.Callbacks.Kept.{Kept, Covers, WellFormed, emit-Kept, add_trunc-Kept}
use wazabi_edr_driver.Events.{
  RegistryOp, registry_op_code, RegistryEvent, registry_key_path_max, registry_value_name_max,
  registry_data_preview_max, size_of_registry,
}
use wazabi_edr_driver.State.{M, pure}
use wazabi_edr_driver.Callbacks.Described.{text_of, Changes, OfRegistry}
use wazabi_edr_driver.Callbacks.Preserve.Shown.{Shows-as_u16, unicode_into-Shows}
use wazabi_edr_driver.Callbacks.Preserve.Copies.{Readable, copy_unicode_into-Kept}
use wazabi_edr_driver.Callbacks.Registry.{
  resolve_and_gate_object, fill_registry_common, write_resolved_key_path, write_value_name,
  write_data_preview, SetValueInformation, DeleteValueInformation, CreateKeyInformation, emit_gated,
  emit_set_value, emit_delete_value, emit_delete_key, emit_rename_key, emit_create_key,
  Notification, pre_set_value_key, pre_delete_value_key, pre_delete_key, pre_rename_key,
  pre_create_key_ex, other_class, observe_registry, registry_notify,
}
use wazabi_edr_driver.Callbacks.Registry.Prefix.{is_interesting_unicode_string}
use wazabi_edr_driver.Events.{EventType}
use wazabi_edr_driver.Callbacks.Preserve.Keys.{ReadableNames, Gated, resolve_and_gate_object-Kept}
use wazabi_edr_driver.Callbacks.Preserve.Fields.{
  ReadableData, stored, value_named-Changes, value_named-NamesValue, value_set,
  interesting-StartsWithAny,
}

module _ {k : Kernel} {Good : Event → Type 0} {P : List Ptr → World → Type 0} (kept : Kept k Good P)
    (held : List Ptr) where
  -- The event stays well formed while it is filled, and the invariant holds.
  abbrev Filled : RegistryEvent → World → Type 0
  Filled evt w' = WellFormed (Event.registry evt) × P held w'

  write_value_name-Kept :
      (evt : RegistryEvent) (name : Option UnicodeString) (w : World)
      → Readable name
      → Filled evt w
      → let (e, w') = write_value_name evt name w in Filled e w'
  unfolding write_value_name
  write_value_name-Kept evt name w r (f, q) =
      let copied =
        copy_unicode_into-Kept kept held name registry_value_name_max evt.value_name w r
          f.arrays.value_name q in
      (
        record {
          header = f.header;
          arrays = record {
            key_path = f.arrays.key_path;
            value_name = copied.0;
            data_preview = f.arrays.data_preview;
          };
        },
        copied.1,
      )

  write_data_preview-Kept :
      (evt : RegistryEvent) (bytes : Option (List ℕ)) (size : ℕ) (w : World)
      → ReadableData bytes size
      → Filled evt w
      → let (e, w') = write_data_preview evt bytes size w in Filled e w'
  unfolding write_data_preview
  write_data_preview-Kept evt none size w r f = f
  write_data_preview-Kept evt (some bytes) size w r (f, q) = elim (Bool-cases (ltb 0 size)) [
    | inl t ↦ rw t (
      record {
        header = f.header;
        arrays = record {
          key_path = f.arrays.key_path;
          value_name = f.arrays.value_name;
          data_preview = omega (
            arith,
            f.arrays.data_preview,
            length-copy_into bytes evt.data_preview (min size registry_data_preview_max),
          );
        };
      },
      elim (Bool-cases (ltb (min size registry_data_preview_max) size)) [
        | inl u ↦ rw u (add_trunc-Kept kept held w q)
        | inr u ↦ rw u q
      ],
    )
    | inr t ↦ rw t (f, q)
  ]

  -- What `fill` makes of the event of a change must be good.
  pub emit_gated-Kept :
      (op : RegistryOp) (object : Ptr) (path : Option (List ℕ × ℕ))
      (fill : RegistryEvent → M RegistryEvent) (w : World)
      → Gated k object path
      → ((p : Ptr) (evt : RegistryEvent) (w' : World)
          → WellFormed (Event.registry evt)
          → Changes k (registry_op_code op) object evt
          → evt.value_name_len ≡ 0
          → evt.data_preview_len ≡ 0
          → P (p ∷ held) w'
          → Good (Event.registry (fill evt w').0) × P (p ∷ held) (fill evt w').1)
      → P held w
      → P held (emit_gated k op path fill w).1
  unfolding emit_gated fill_registry_common write_resolved_key_path
  emit_gated-Kept op object none fill w g keep q = q
  emit_gated-Kept op object (some path) fill w (len, fits, names) keep q =
      emit-Kept {k = k} {P = P} kept held size_of_registry EventType.registry_modify _ w
        (λ p h w' hf q'.
          let filled =
            keep p _ w'
              (record {
                header = hf;
                arrays = record {
                  key_path = omega (
                    arith,
                    length-replicate {A = ℕ} registry_key_path_max 0,
                    length-copy_into path.0 (replicate registry_key_path_max 0) path.1,
                  );
                  value_name = length-replicate registry_value_name_max 0;
                  data_preview = length-replicate registry_data_preview_max 0;
                };
              })
              (record { operation = refl; key = stored k object path len fits names }) refl refl
              q' in
          kept.submits held p _ _ filled.0 filled.1)
        q

-- Whatever a notification points to is readable.
abbrev pub ReadableNotification : Notification → Type 0
ReadableNotification (pre_set_value_key none) = Unit
ReadableNotification (pre_set_value_key (some info)) =
    Readable info.value_name × ReadableData info.value info.data_size
ReadableNotification (pre_delete_value_key none) = Unit
ReadableNotification (pre_delete_value_key (some info)) = Readable info.value_name
ReadableNotification (pre_delete_key info) = Unit
ReadableNotification (pre_rename_key info) = Unit
ReadableNotification (pre_create_key_ex none) = Unit
ReadableNotification (pre_create_key_ex (some info)) = Readable info.complete_name
ReadableNotification (other_class c) = Unit

module _ {k : Kernel} {Good : Event → Type 0} {P : List Ptr → World → Type 0} (kept : Kept k Good P)
    (readable : ReadableNames k) (held : List Ptr) (w : World) (q : P held w) where
  emit_set_value-Kept :
      (info : SetValueInformation)
      → Readable info.value_name
      → ReadableData info.value info.data_size
      → Covers Good (OfRegistry k (pre_set_value_key (some info)))
      → P held (emit_set_value k (some info) w).1
  unfolding emit_set_value
  emit_set_value-Kept info name bytes good =
      let resolved = resolve_and_gate_object-Kept kept readable held info.object w q in
      emit_gated-Kept kept held RegistryOp.set_value info.object _ _ _ resolved.0
        (λ p evt w' f c v d q'.
          let typed = record evt { value_type = info.type_; data_size = info.data_size } in
          let wf : WellFormed (Event.registry typed) = record {
            header = f.header;
            arrays = record {
              key_path = f.arrays.key_path;
              value_name = f.arrays.value_name;
              data_preview = f.arrays.data_preview;
            };
          } in
          let named_ =
            write_value_name-Kept kept (p ∷ held) typed info.value_name w' name (wf, q') in
          let (whole, q'') =
            write_data_preview-Kept kept (p ∷ held) _ info.value info.data_size _ bytes named_ in
          (good _ whole (value_set k info evt w' name bytes c d), q''))
        resolved.1

  emit_delete_value-Kept :
      (info : DeleteValueInformation)
      → Readable info.value_name
      → Covers Good (OfRegistry k (pre_delete_value_key (some info)))
      → P held (emit_delete_value k (some info) w).1
  unfolding emit_delete_value
  emit_delete_value-Kept info name good =
      let resolved = resolve_and_gate_object-Kept kept readable held info.object w q in
      emit_gated-Kept kept held RegistryOp.delete_value info.object _ _ _ resolved.0
        (λ p evt w' f c v d q'.
          let (wf, q'') =
            write_value_name-Kept kept (p ∷ held) evt info.value_name w' name (f, q') in
          (
            good _ wf (
                OfRegistry.deletes_value info _ (value_named-Changes k _ _ evt info.value_name w' c)
                  (value_named-NamesValue evt info.value_name w' name)),
            q'',
          ))
        resolved.1

  emit_key-Kept :
      (op : RegistryOp) (object : Ptr)
      → ((e : RegistryEvent)
          → WellFormed (Event.registry e)
          → Changes k (registry_op_code op) object e
          → Good (Event.registry e))
      → let (path, w') = resolve_and_gate_object k object w in
        P held (emit_gated k op path pure w').1
  emit_key-Kept op object good =
      let resolved = resolve_and_gate_object-Kept kept readable held object w q in
      emit_gated-Kept kept held op object _ pure _ resolved.0
        (λ p evt w' f c v d q'. (good evt f c, q')) resolved.1

  emit_create_key-Kept :
      (info : CreateKeyInformation)
      → Readable info.complete_name
      → Covers Good (OfRegistry k (pre_create_key_ex (some info)))
      → P held (emit_create_key k (some info) w).1
  unfolding emit_create_key fill_registry_common
  emit_create_key-Kept info name good =
      elim (Bool-cases (not (is_interesting_unicode_string info.complete_name))) [
        | inl t ↦ rw t q
        | inr t ↦ rw t (
            emit-Kept {k = k} {P = P} kept held size_of_registry EventType.registry_modify _ w
              (λ p h w' hf q'.
                let empty = replicate registry_key_path_max 0 in
                let copied =
                  copy_unicode_into-Kept kept (p ∷ held) info.complete_name registry_key_path_max
                    empty w' name (length-replicate registry_key_path_max 0) q' in
                let watched = interesting-StartsWithAny info.complete_name (ground arith) in
                let shown =
                  Shows-as_u16 (registry_key_path_max - 1) (text_of info.complete_name) _ _
                    (omega arith)
                    (unicode_into-Shows info.complete_name empty registry_key_path_max w' name) in
                kept.submits held p _ _
                  (good _
                    (record {
                      header = hf;
                      arrays = record {
                        key_path = copied.0;
                        value_name = length-replicate registry_value_name_max 0;
                        data_preview = length-replicate registry_data_preview_max 0;
                      };
                    })
                    (OfRegistry.creates_key info _ refl watched shown))
                  copied.1)
              q)
      ]

  pub registry_notify-Kept :
      (n : Notification)
      → ReadableNotification n
      → Covers Good (OfRegistry k n)
      → P held (registry_notify k n w).1
  unfolding registry_notify observe_registry emit_set_value emit_delete_value emit_delete_key
      emit_rename_key emit_create_key
  registry_notify-Kept (pre_set_value_key none) r good = q
  registry_notify-Kept (pre_set_value_key (some info)) r good =
      emit_set_value-Kept info r.0 r.1 good
  registry_notify-Kept (pre_delete_value_key none) r good = q
  registry_notify-Kept (pre_delete_value_key (some info)) r good =
      emit_delete_value-Kept info r good
  registry_notify-Kept (pre_delete_key none) r good = q
  registry_notify-Kept (pre_delete_key (some info)) r good =
      emit_key-Kept RegistryOp.delete_key info.object
        (λ e wf c. good _ wf (OfRegistry.deletes_key info e c))
  registry_notify-Kept (pre_rename_key none) r good = q
  registry_notify-Kept (pre_rename_key (some info)) r good =
      emit_key-Kept RegistryOp.rename_key info.object
        (λ e wf c. good _ wf (OfRegistry.renames_key info e c))
  registry_notify-Kept (pre_create_key_ex none) r good = q
  registry_notify-Kept (pre_create_key_ex (some info)) r good = emit_create_key-Kept info r good
  registry_notify-Kept (other_class c) r good = q
