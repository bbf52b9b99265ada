-- ===== src/Safety/Attempts/Keys.antt =====
-- The registry callback's gate: which keys it lets through.
use wazabi_edr_driver.Base.{
  ==_false, ℕ, ◌+◌, ◌-◌, ◌≡◌, ◌∙◌, refl, sym, ap, subst, arith, List, [], ◌∷◌, Option, none, some,
  Option-cases, Bool, true, false, not, ◌&&◌, ◌==◌, Bool-cases, inl, inr, take, replicate, zero,
  suc, ◌⊎◌, if◌then◌else◌,
}
use wazabi_edr_driver.Wdk.{Ptr, null, Kernel, KeyName, UnicodeString, is_negative, get_key_name}
use wazabi_edr_driver.State.{World, M}
use wazabi_edr_driver.Events.{RegistryOp, RegistryEvent, registry_key_path_max}
use wazabi_edr_driver.Callbacks.Described.{text_of, Shows}
use wazabi_edr_driver.Callbacks.Preserve.Copies.{Readable}
use wazabi_edr_driver.Callbacks.Preserve.Keys.{ReadableNames}
use wazabi_edr_driver.Callbacks.Preserve.Shown.{unicode_into-Shows}
use wazabi_edr_driver.Callbacks.Registry.Prefix.{
  is_interesting_path, matches_any, key_has_ascii_prefix_ci, prefix_loop,
}
use wazabi_edr_driver.Callbacks.Registry.{
  is_gated_out, get_key_object_id, copy_key_name, write_key_path_from_object, copy_unicode_into,
  resolve_and_gate_object, emit_gated, fill_registry_common,
}
use wazabi_edr_driver.Safety.Attempts.{attempts, emit-attempts, submit-attempts, unicode_into-log}

-- The kernel names the key's object, and the name starts with a watched prefix.
abbrev pub watched : Kernel → World → Ptr → Bool
watched k w object =
    let answer = k.cm_callback_get_key_object_id_ex w.log w.registry_callback_cookie object in
    not (object == null)
    && (not (is_negative answer.status)
        && is_interesting_path (take (registry_key_path_max - 1) (text_of answer.name)))

pub empty-uninteresting : is_interesting_path [] ≡ false
unfolding is_interesting_path matches_any key_has_ascii_prefix_ci prefix_loop
empty-uninteresting = refl

-- The gate lets a path through exactly when the text that it shows is interesting.
gated-Shows :
    (room : ℕ) (text : List ℕ) (path : List ℕ × ℕ)
    → Shows room text path
    → is_gated_out path ≡ not (is_interesting_path (take room text))
gated-Shows room text (units, zero) s =
    ap not (sym empty-uninteresting) ∙ ap (λ x. not (is_interesting_path x)) s.units
gated-Shows room text (units, suc n) s =
    rw (==_false (suc n) 0 (ground arith)) (ap (λ x. not (is_interesting_path x)) s.units)

-- The path that comes from a key's object.
module _ (k : Kernel) (readable : ReadableNames k) (object : Ptr) (w : World) where
  abbrev answer : KeyName
  answer = k.cm_callback_get_key_object_id_ex w.log w.registry_callback_cookie object

  abbrev resolved : (List ℕ × ℕ) × World
  resolved =
      write_key_path_from_object k object (replicate registry_key_path_max 0) registry_key_path_max
        w

  named_path :
      (n : UnicodeString)
      → answer.name ≡ some n
      → let (path, w') =
          copy_unicode_into
            (some n)
            (replicate registry_key_path_max 0)
            registry_key_path_max
            (record w { log = get_key_name answer.pointer ∷ w.log }) in
        (attempts w'.log ≡ attempts w.log)
        × (is_gated_out path
            ≡ not (is_interesting_path (take (registry_key_path_max - 1) (text_of (some n)))))
  named_path n b =
      let got : World = record w { log = get_key_name answer.pointer ∷ w.log } in
      let r : Readable (some n) =
        subst Readable b (readable w.log w.registry_callback_cookie object) in
      let empty = replicate registry_key_path_max 0 in
      (
        ap attempts (unicode_into-log (some n) empty registry_key_path_max got),
        gated-Shows (registry_key_path_max - 1) (text_of (some n)) _
            (unicode_into-Shows (some n) empty registry_key_path_max got r),
      )

  resolved-watched :
      (attempts resolved.1.log ≡ attempts w.log)
      × (is_gated_out resolved.0 ≡ not (watched k w object))
  unfolding write_key_path_from_object get_key_object_id copy_key_name
  resolved-watched = elim (Bool-cases (object == null)) [
    | inl t ↦ rw t (refl, refl)
    | inr t ↦ rw t (elim (Bool-cases (is_negative answer.status)) [
      | inl f ↦ rw f (refl, refl)
      | inr f ↦ rw f (elim (Option-cases answer.name) [
        | inl b ↦ rw b (refl, ap not (sym empty-uninteresting))
        | inr (n, b) ↦ (let named = named_path n b in rw b (named.0, named.1))
      ])
    ])
  ]

  -- What the gate lets through, and that it asks for no block.
  pub gate-watched :
      let (path, w') = resolve_and_gate_object k object w in
      (attempts w'.log ≡ attempts w.log)
      × (((watched k w object ≡ true) × (p : List ℕ × ℕ) × (path ≡ some p))
          ⊎ ((watched k w object ≡ false) × (path ≡ none)))
  unfolding resolve_and_gate_object
  gate-watched =
      let (same, gated) = resolved-watched in
      elim (Bool-cases (is_gated_out resolved.0)) [
        | inl t ↦ rw t (same, inr (ground arith, refl))
        | inr t ↦ rw t (same, inl (ground arith, resolved.0, refl))
      ]

abbrev one_if_there : Option (List ℕ × ℕ) → ℕ
one_if_there none = 0
one_if_there (some path) = 1

-- A registry emitter behind its gate.
pub emit_gated-attempts :
    (k : Kernel) (op : RegistryOp) (path : Option (List ℕ × ℕ))
    (fill : RegistryEvent → M RegistryEvent) (w : World)
    → ((evt : RegistryEvent) (w' : World) → attempts (fill evt w').1.log ≡ attempts w'.log)
    → attempts (emit_gated k op path fill w).1.log ≡ attempts w.log + one_if_there path
unfolding emit_gated fill_registry_common
emit_gated-attempts k op none fill w keep = omega arith
emit_gated-attempts k op (some path) fill w keep =
    emit-attempts k _ _ _ w (λ p h w'. submit-attempts k p _ _ ∙ keep _ w')

-- Resolving, gating and emitting.
pub change-attempts :
    (k : Kernel) (readable : ReadableNames k) (op : RegistryOp) (object : Ptr)
    (fill : RegistryEvent → M RegistryEvent) (w : World)
    → ((evt : RegistryEvent) (w' : World) → attempts (fill evt w').1.log ≡ attempts w'.log)
    → let (path, w') = resolve_and_gate_object k object w in
      attempts (emit_gated k op path fill w').1.log
      ≡ attempts w.log + (if watched k w object then 1 else 0)
change-attempts k readable op object fill w keep =
    let (path, w') = resolve_and_gate_object k object w in
    let (same, how) = gate-watched k readable object w in
    let emitted = emit_gated-attempts k op path fill w' keep in
    elim how [
      | inl (t, p, e) ↦ rw t (emitted ∙ omega (arith, same, ap one_if_there e))
      | inr (t, e) ↦ rw t (emitted ∙ omega (arith, same, ap one_if_there e))
    ]
