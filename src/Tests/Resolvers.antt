-- ===== src/Tests/Resolvers.antt =====
-- The disabled resolvers of callbacks/process.rs.
use wazabi_edr_driver.Base.{
  ℕ, ◌≡◌, refl, arith, [], ◌∷◌, some, none, if◌then◌else◌, ◌==◌, copy_into,
}
use wazabi_edr_driver.Wdk.{
  obtain, give_back, token_reference, token_information, sid_text, status_success,
}
use wazabi_edr_driver.State.{World, loaded}
use wazabi_edr_driver.Events.{image_path_max, user_sid_max}
use wazabi_edr_driver.Callbacks.Process.{Text, copy_units, copy_unicode_string_into}
use wazabi_edr_driver.Callbacks.Process.Resolvers.{
  SecurityKernel, fill_parent_image_path, fill_user_sid, resolve_integrity_level,
  integrity_level_unresolved, with_token_sid, with_sid, last_sub_authority, copy_sid_text,
}
use wazabi_edr_driver.Callbacks.Process.Resolvers.Layers.{
  Layers, TextsNonempty, resolvers-Layers, fill_user_sid-Layers,
}
use wazabi_edr_driver.Callbacks.Process.Resolvers.Results.{
  outcome, name_of_process, text_of_user, last_authority, resolvers_lem,
}
use wazabi_edr_driver.Tests.Setting.{ring_memory, pool_memory, irp_memory}

-- Every call succeeds; the level is 0x2000, and a SID's text is "S" of the given length.
abbrev security : ℕ → SecurityKernel
security length_bytes = record {
  ps_lookup_process_by_process_id = λ l pid. record { status = status_success; pointer = 70 };
  se_locate_process_image_name = λ l p. record { status = status_success; pointer = 71 };
  image_name_at = λ l p. record { length_bytes = 4; buffer = some (92 ∷ 65 ∷ []) };
  io_get_current_process = λ l. 72;
  ps_reference_primary_token = λ l p. 73;
  se_query_information_token = λ l t class. record { status = status_success; blob = 74; sid = 75 };
  rtl_convert_sid_to_unicode_string = λ l sid. record {
    status = status_success;
    buffer = 76;
    length_bytes = length_bytes;
    units = 83 ∷ [];
  };
  rtl_sub_authority_count_sid = λ l sid. some 1;
  rtl_sub_authority_sid = λ l sid i. if i == 0 then some 0x2000 else none;
}

abbrev idle : World
idle = loaded ring_memory pool_memory irp_memory

abbrev no_text : Text
no_text = (0 ∷ 0 ∷ 0 ∷ [], 0)

level_test : (resolve_integrity_level (security 2) idle).0 ≡ 0x2000
unfolding resolve_integrity_level with_token_sid with_sid last_sub_authority
level_test = refl

sid_text_test : (fill_user_sid (security 2) no_text idle).0 ≡ (83 ∷ 0 ∷ 0 ∷ [], 1)
unfolding fill_user_sid with_token_sid with_sid copy_sid_text copy_units copy_into
sid_text_test = refl

-- A text of length 0 with a buffer is not freed.
sid_text_kept_test :
    (fill_user_sid (security 0) no_text idle).1.log
    ≡ give_back token_reference 73
      ∷ give_back token_information 74
      ∷ obtain sid_text 76
      ∷ obtain token_information 74
      ∷ obtain token_reference 73
      ∷ []
unfolding fill_user_sid with_token_sid with_sid copy_sid_text
sid_text_kept_test = refl

resolvers-Layers_example :
    Layers (fill_parent_image_path (security 2) 4 no_text idle).1.log []
    × Layers (resolve_integrity_level (security 2) idle).1.log []
resolvers-Layers_example = resolvers-Layers (security 2) 4 no_text [] idle refl

fill_user_sid-Layers_example : Layers (fill_user_sid (security 2) no_text idle).1.log []
fill_user_sid-Layers_example =
    fill_user_sid-Layers (security 2) no_text [] idle (λ l sid done there. ground arith) refl

-- A conversion that fails leaves a zeroed string: nothing is freed that was not got.
abbrev failing : SecurityKernel
failing = record (security 2) {
  rtl_convert_sid_to_unicode_string =
      λ l sid. record { status = 0xC0000023; buffer = 0; length_bytes = 0; units = [] };
}

failing_test : (fill_user_sid failing no_text idle).0 ≡ no_text
unfolding fill_user_sid with_token_sid with_sid copy_sid_text
failing_test = refl

failing-TextsNonempty : TextsNonempty failing
failing-TextsNonempty l sid done there = absurd (ground arith)

resolvers_lem_example :
    (outcome (fill_parent_image_path (security 2) 4 no_text idle)
      ≡ outcome (
          copy_unicode_string_into
            (name_of_process (security 2) idle.log 4)
            image_path_max
            no_text
            idle))
    × (outcome (fill_user_sid (security 2) no_text idle)
        ≡ outcome (
            copy_unicode_string_into
              (text_of_user (security 2) idle.log)
              user_sid_max
              no_text
              idle))
    × ((resolve_integrity_level (security 2) idle).0 ≡ elim (last_authority (security 2) idle.log) [
      | none ↦ integrity_level_unresolved
      | some rid ↦ rid
    ])
resolvers_lem_example = resolvers_lem (security 2) 4 no_text idle
