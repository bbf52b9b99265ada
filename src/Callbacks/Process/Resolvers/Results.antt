-- ===== src/Callbacks/Process/Resolvers/Results.antt =====
-- What the resolvers find, without their references and releases.
use wazabi_edr_driver.Base.{
  ℕ, ◌-◌, ◌≡◌, ◌&&◌, refl, ap, ◌∙◌, sym, arith, Bool, Bool-cases, true, false, inl, inr, Option,
  none, some, Option-cases, ◌==◌, if◌then◌else◌, ltb, not, ◌∷◌, not, ◌∷◌,
}
use wazabi_edr_driver.Wdk.{
  Ptr, null, NtStatus, status_success, UnicodeString, Log, obtain, process_reference,
  token_reference, image_name, token_information,
}
use wazabi_edr_driver.State.{World, M}
use wazabi_edr_driver.Events.{image_path_max, user_sid_max}
use wazabi_edr_driver.Callbacks.Process.{Text, copy_units, copy_unicode_string_into}
use wazabi_edr_driver.Callbacks.Process.Resolvers.{
  SecurityKernel, usable, token_user_class, token_integrity_level_class, integrity_level_unresolved,
  copy_image_path, fill_parent_image_path, with_sid, with_token_sid, copy_sid_text, fill_user_sid,
  last_sub_authority, resolve_integrity_level,
}

-- A call that returns STATUS_SUCCESS and a pointer that is not null.
abbrev pub succeeded : NtStatus → Ptr → Bool
succeeded status pointer = (status == status_success) && not (pointer == null)

-- The code's test of an answer is that one.
usable_succeeds : (status : NtStatus) (p : Ptr) → usable status p ≡ true → succeeded status p ≡ true
usable_succeeds status p e = ground arith

unusable : (status : NtStatus) (p : Ptr) → usable status p ≡ false → succeeded status p ≡ false
unusable status p e = ground arith

abbrev and_then : {A B : Type 0} → Option A → (A → Option B) → Option B
and_then o f = elim o [ none ↦ none | some a ↦ f a ]

abbrev checked : {A : Type 0} → Bool → A → Option A
checked b a = if b then some a else none

-- The name of the process with this id, after the log.
abbrev pub name_of_process : SecurityKernel → Log → ℕ → Option UnicodeString
name_of_process k l pid =
    and_then (checked (not (pid == 0)) (k.ps_lookup_process_by_process_id l pid)) (λ found.
      and_then
        (checked (succeeded found.status found.pointer)
          (obtain process_reference found.pointer ∷ l))
        (λ l.
          let located = k.se_locate_process_image_name l found.pointer in
          checked (succeeded located.status located.pointer)
            (k.image_name_at (obtain image_name located.pointer ∷ l) located.pointer)))

-- The SID that a query of the current process's token gives, and the log up to then.
abbrev pub sid_of_token : SecurityKernel → Log → ℕ → Option (Ptr × Log)
sid_of_token k l class =
    let token = k.ps_reference_primary_token l (k.io_get_current_process l) in
    and_then (checked (not (token == null)) (obtain token_reference token ∷ l)) (λ l.
      let info = k.se_query_information_token l token class in
      and_then (checked (succeeded info.status info.blob) (obtain token_information info.blob ∷ l))
        (λ l. checked (not (info.sid == null)) (info.sid, l)))

abbrev pub text_of_user : SecurityKernel → Log → Option UnicodeString
text_of_user k l = and_then (sid_of_token k l token_user_class) (λ (sid, l).
    let s = k.rtl_convert_sid_to_unicode_string l sid in
    checked (succeeded s.status s.buffer)
      (record { length_bytes = s.length_bytes; buffer = some s.units }))

abbrev pub last_of_sid : SecurityKernel → Ptr → Log → Option ℕ
last_of_sid k sid l = and_then (k.rtl_sub_authority_count_sid l sid) (λ count.
    and_then (checked (ltb 0 count) (count - 1)) (λ last. k.rtl_sub_authority_sid l sid last))

abbrev pub last_authority : SecurityKernel → Log → Option ℕ
last_authority k l =
    and_then (sid_of_token k l token_integrity_level_class) (λ (sid, l). last_of_sid k sid l)

-- The result and the truncation counter.
abbrev pub outcome : {A : Type 0} → A × World → A × ℕ
outcome (a, w) = (a, w.trunc_count)

-- A copy depends on the state through the truncation counter alone.
copy_unicode_string_into-outcome :
    (s : UnicodeString) (cap : ℕ) (text : Text) (w : World) (l : Log)
    → outcome (copy_unicode_string_into (some s) cap text (record w { log = l }))
      ≡ outcome (copy_unicode_string_into (some s) cap text w)
unfolding copy_unicode_string_into copy_units
copy_unicode_string_into-outcome s cap (dst, len) w l = ground arith

copy_nothing :
    (cap : ℕ) (text : Text) (w : World)
    → outcome (copy_unicode_string_into none cap text w) ≡ outcome (text, w)
unfolding copy_unicode_string_into
copy_nothing cap (dst, len) w = refl

module _ (k : SecurityKernel) where
  fill_parent_image_path-outcome :
      (pid : ℕ) (text : Text) (w : World)
      → outcome (fill_parent_image_path k pid text w)
        ≡ outcome (copy_unicode_string_into (name_of_process k w.log pid) image_path_max text w)
  unfolding fill_parent_image_path copy_image_path
  fill_parent_image_path-outcome pid text w =
      let found = k.ps_lookup_process_by_process_id w.log pid in
      let l = obtain process_reference found.pointer ∷ w.log in
      let located = k.se_locate_process_image_name l found.pointer in
      let nothing = sym (copy_nothing image_path_max text w) in
      elim (Bool-cases (pid == 0)) [
        | inl t ↦ rw t nothing
        | inr t ↦ rw t (elim (Bool-cases (usable found.status found.pointer)) [
          | inr u ↦ rw u (rw (unusable found.status found.pointer u) nothing)
          | inl u ↦ rw u (
              rw (usable_succeeds found.status found.pointer u)
                (elim (Bool-cases (usable located.status located.pointer)) [
                  | inr v ↦ rw v (rw (unusable located.status located.pointer v) nothing)
                  | inl v ↦ rw v (
                      rw (usable_succeeds located.status located.pointer v)
                        (copy_unicode_string_into-outcome _ image_path_max text w _))
                ]))
        ])
      ]

  with_token_sid-outcome :
      {A : Type 0} (class : ℕ) (other : A) (use_sid : Ptr → M A) (w : World)
      → outcome (with_token_sid k class other use_sid w) ≡ elim (sid_of_token k w.log class) [
        | none ↦ outcome (other, w)
        | some (sid, l) ↦ outcome (use_sid sid (record w { log = l }))
      ]
  unfolding with_token_sid with_sid
  with_token_sid-outcome class other use_sid w =
      let token = k.ps_reference_primary_token w.log (k.io_get_current_process w.log) in
      let info = k.se_query_information_token (obtain token_reference token ∷ w.log) token class in
      elim (Bool-cases (token == null)) [
        | inl t ↦ rw t refl
        | inr t ↦ rw t (elim (Bool-cases (usable info.status info.blob)) [
          | inr u ↦ rw u (rw (unusable info.status info.blob u) refl)
          | inl u ↦ rw u (
              rw (usable_succeeds info.status info.blob u)
                (elim (Bool-cases (info.sid == null)) [ inl v ↦ rw v refl | inr v ↦ rw v refl ]))
        ])
      ]

  copy_sid_text-outcome :
      (text : Text) (sid : Ptr) (w : World) (l : Log)
      → let s = k.rtl_convert_sid_to_unicode_string l sid in
        outcome (copy_sid_text k text sid (record w { log = l }))
        ≡ outcome (
            copy_unicode_string_into
              (checked
                (succeeded s.status s.buffer)
                (record { length_bytes = s.length_bytes; buffer = some s.units }))
              user_sid_max
              text
              w)
  unfolding copy_sid_text copy_unicode_string_into copy_units
  copy_sid_text-outcome (dst, len) sid w l =
      let s = k.rtl_convert_sid_to_unicode_string l sid in
      elim (Bool-cases (usable s.status s.buffer)) [
        | inr u ↦ rw u (rw (unusable s.status s.buffer u) refl)
        | inl u ↦ rw u (rw (usable_succeeds s.status s.buffer u) (ground arith))
      ]

  fill_user_sid-outcome :
      (text : Text) (w : World)
      → outcome (fill_user_sid k text w)
        ≡ outcome (copy_unicode_string_into (text_of_user k w.log) user_sid_max text w)
  unfolding fill_user_sid
  fill_user_sid-outcome text w =
      with_token_sid-outcome token_user_class text (copy_sid_text k text) w
      ∙ elim (Option-cases (sid_of_token k w.log token_user_class)) [
        | inl e ↦ rw e (sym (copy_nothing user_sid_max text w))
        | inr ((sid, l), e) ↦ rw e (copy_sid_text-outcome text sid w l)
      ]

  last_sub_authority-value :
      (sid : Ptr) (w : World)
      → (last_sub_authority k sid w).0
        ≡ elim (last_of_sid k sid w.log) [ none ↦ integrity_level_unresolved | some rid ↦ rid ]
  unfolding last_sub_authority
  last_sub_authority-value sid w = elim (Option-cases (k.rtl_sub_authority_count_sid w.log sid)) [
    | inl e ↦ rw e refl
    | inr (count, e) ↦
        rw e (elim (Bool-cases (ltb 0 count)) [ inl t ↦ rw t refl | inr t ↦ rw t refl ])
  ]

  resolve_integrity_level-value :
      (w : World)
      → (resolve_integrity_level k w).0
        ≡ elim (last_authority k w.log) [ none ↦ integrity_level_unresolved | some rid ↦ rid ]
  unfolding resolve_integrity_level
  resolve_integrity_level-value w =
      ap (λ r. r.0)
        (with_token_sid-outcome token_integrity_level_class integrity_level_unresolved
          (last_sub_authority k) w)
      ∙ elim (Option-cases (sid_of_token k w.log token_integrity_level_class)) [
        | inl e ↦ rw e refl
        | inr ((sid, l), e) ↦ rw e (last_sub_authority-value sid (record w { log = l }))
      ]

  -- The disabled resolvers put into an event what a plain search finds, which neither counts references nor
  -- releases anything: fill_parent_image_path copies the name of the process with the given id,
  -- fill_user_sid the text of the user's SID, each as copy_unicode_string_into would, truncation counter
  -- included, and as if there were no string where a step fails; resolve_integrity_level returns
  -- the last sub-authority of the token's integrity SID, and 0xFFFFFFFF where a step fails.
  pub resolvers_lem :
      (pid : ℕ) (text : Text) (w : World)
      → (outcome (fill_parent_image_path k pid text w)
          ≡ outcome (copy_unicode_string_into (name_of_process k w.log pid) image_path_max text w))
        × (outcome (fill_user_sid k text w)
            ≡ outcome (copy_unicode_string_into (text_of_user k w.log) user_sid_max text w))
        × ((resolve_integrity_level k w).0
            ≡ elim (last_authority k w.log) [ none ↦ integrity_level_unresolved | some rid ↦ rid ])
  resolvers_lem pid text w = (
    fill_parent_image_path-outcome pid text w,
    fill_user_sid-outcome text w,
    resolve_integrity_level-value w,
  )
