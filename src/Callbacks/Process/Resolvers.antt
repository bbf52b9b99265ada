-- ===== src/Callbacks/Process/Resolvers.antt =====
-- callbacks/process.rs: the resolvers of the parent's image path, the user's SID and the integrity
-- level, which the source keeps but does not call.
pub mod Layers
pub mod Results
use wazabi_edr_driver.Base.{
  ℕ, ◌-◌, ◌/◌, List, Bool, false, Option, none, some, if◌then◌else◌, ◌==◌, not, ltb,
}
use wazabi_edr_driver.Wdk.{
  Ptr, null, NtStatus, Log, UnicodeString, status_success, obtain, give_back, process_reference,
  token_reference, image_name, token_information, sid_text,
}
use wazabi_edr_driver.State.{World, M, ◌>>=◌, ◌>>◌, pure, gets, act}
use wazabi_edr_driver.Events.{image_path_max, user_sid_max}
use wazabi_edr_driver.Callbacks.Process.{Text, copy_units, copy_unicode_string_into}

-- TOKEN_INFORMATION_CLASS values
abbrev pub token_user_class : ℕ
token_user_class = 1

abbrev pub token_integrity_level_class : ℕ
token_integrity_level_class = 25

abbrev pub integrity_level_unresolved : ℕ
integrity_level_unresolved = 0xFFFFFFFF

-- A status and the pointer written with it.
pub record Found : Type 0 where
  pub status : NtStatus
  pub pointer : Ptr

-- The blob that SeQueryInformationToken allocates, with the SID pointer at its start.
pub record TokenInformation : Type 0 where
  pub status : NtStatus
  pub blob : Ptr
  pub sid : Ptr

-- The string that RtlConvertSidToUnicodeString fills in, and what stands behind its `Buffer`.
pub record SidString : Type 0 where
  pub status : NtStatus
  pub buffer : Ptr
  pub length_bytes : ℕ
  pub units : List ℕ

-- The kernel's answers to the resolvers. The last two follow the pointer that the kernel returns,
-- and are `none` where it is null.
pub record SecurityKernel : Type 0 where
  pub ps_lookup_process_by_process_id : Log → Ptr → Found
  pub se_locate_process_image_name : Log → Ptr → Found
  pub image_name_at : Log → Ptr → UnicodeString
  pub io_get_current_process : Log → Ptr
  pub ps_reference_primary_token : Log → Ptr → Ptr
  pub se_query_information_token : Log → Ptr → ℕ → TokenInformation
  pub rtl_convert_sid_to_unicode_string : Log → Ptr → SidString
  pub rtl_sub_authority_count_sid : Log → Ptr → Option ℕ
  pub rtl_sub_authority_sid : Log → Ptr → ℕ → Option ℕ

-- `status == STATUS_SUCCESS && !pointer.is_null()`
abbrev pub usable : NtStatus → Ptr → Bool
usable status pointer = if status == status_success then not (pointer == null) else false

-- Steps 2 to 4, while the process is referenced.
unfoldable pub copy_image_path : SecurityKernel → Ptr → Text → M Text
unfolding act
copy_image_path k peproc text = do
  located ← gets (λ w. k.se_locate_process_image_name w.log peproc)
  if usable located.status located.pointer
      then (do
        act (obtain image_name located.pointer)
        name ← gets (λ w. k.image_name_at w.log located.pointer)
        copied ← copy_unicode_string_into (some name) image_path_max text
        act (give_back image_name located.pointer)
        pure copied)
      else pure text

unfoldable pub fill_parent_image_path : SecurityKernel → ℕ → Text → M Text
unfolding act
fill_parent_image_path k parent_pid text = if parent_pid == 0 then pure text else (do
  found ← gets (λ w. k.ps_lookup_process_by_process_id w.log parent_pid)
  if usable found.status found.pointer
      then (do
        act (obtain process_reference found.pointer)
        copied ← copy_image_path k found.pointer text
        act (give_back process_reference found.pointer)
        pure copied)
      else pure text)

-- A use of the SID in a blob, between the query and the release of the blob; `other` where there
-- is no SID.
unfoldable pub with_sid : {A : Type 0} → SecurityKernel → Ptr → ℕ → A → (Ptr → M A) → M A
unfolding act
with_sid k token class other use_sid = do
  info ← gets (λ w. k.se_query_information_token w.log token class)
  if usable info.status info.blob
      then (do
        act (obtain token_information info.blob)
        result ← if info.sid == null then pure other else use_sid info.sid
        act (give_back token_information info.blob)
        pure result)
      else pure other

-- The same between the reference to the current process's token and its release.
unfoldable pub with_token_sid : {A : Type 0} → SecurityKernel → ℕ → A → (Ptr → M A) → M A
unfolding act
with_token_sid k class other use_sid = do
  process ← gets (λ w. k.io_get_current_process w.log)
  token ← gets (λ w. k.ps_reference_primary_token w.log process)
  if token == null then pure other else (do
    act (obtain token_reference token)
    result ← with_sid k token class other use_sid
    act (give_back token_reference token)
    pure result)

-- The conversion allocates when it succeeds with a `Buffer`, which is freed only behind the test.
unfoldable pub copy_sid_text : SecurityKernel → Text → Ptr → M Text
unfolding act
copy_sid_text k (dst, len_dst) sid = do
  sid_str ← gets (λ w. k.rtl_convert_sid_to_unicode_string w.log sid)
  if usable sid_str.status sid_str.buffer
      then (do
        act (obtain sid_text sid_str.buffer)
        if sid_str.length_bytes == 0 then pure (dst, len_dst) else (do
          copied ← copy_units sid_str.units (sid_str.length_bytes / 2) user_sid_max dst
          act (give_back sid_text sid_str.buffer)
          pure copied))
      else pure (dst, len_dst)

unfoldable pub fill_user_sid : SecurityKernel → Text → M Text
fill_user_sid k text = with_token_sid k token_user_class text (copy_sid_text k text)

-- The last entry of the SID's sub-authorities.
unfoldable pub last_sub_authority : SecurityKernel → Ptr → M ℕ
last_sub_authority k sid = gets (λ w. elim (k.rtl_sub_authority_count_sid w.log sid) [
  | none ↦ integrity_level_unresolved
  | some count ↦
      if ltb 0 count
      then elim (k.rtl_sub_authority_sid w.log sid (count - 1)) [
        | none ↦ integrity_level_unresolved
        | some rid ↦ rid
      ]
      else integrity_level_unresolved
])

unfoldable pub resolve_integrity_level : SecurityKernel → M ℕ
resolve_integrity_level k =
    with_token_sid k token_integrity_level_class integrity_level_unresolved (last_sub_authority k)
