-- ===== src/Callbacks/Process.antt =====
-- callbacks/process.rs: process creation and exit.
pub mod Copy
pub mod Resolvers
use wazabi_edr_driver.Base.{
  ℕ, ◌-◌, ◌/◌, List, Option, none, some, if◌then◌else◌, ◌==◌, ltb, min, replicate, copy_into,
}
use wazabi_edr_driver.Wdk.{Ptr, null, Kernel, UnicodeString, as_u16, as_u32}
use wazabi_edr_driver.State.{World, M, ◌>>=◌, ◌>>◌, pure, gets, when}
use wazabi_edr_driver.Events.{
  EventType, EventHeader, image_path_max, command_line_max, user_sid_max, size_of_process_create,
  size_of_process_exit,
}
use wazabi_edr_driver.Events.Event.{Event}
use wazabi_edr_driver.Callbacks.Header.{add_trunc, alloc_event_for, submit, unless_null}

-- PS_CREATE_NOTIFY_INFO, with `CreatingThreadId.UniqueProcess` for the creating process
pub record CreateNotifyInfo : Type 0 where
  pub parent_process_id : Ptr
  pub creating_process : Ptr
  pub image_file_name : Option UnicodeString
  pub command_line : Option UnicodeString

unfoldable pub emit_process_exit : Kernel → ℕ → Ptr → M (Unit {0})
emit_process_exit k pid process = do
  evt ← alloc_event_for k size_of_process_exit EventType.process_exit
  unless_null evt (λ p header.
      let exit_code : ℕ = if process == null then 0 else k.ps_get_process_exit_status process in
      submit k p
        (Event.process_exit (record { header = header; process_id = pid; exit_code = exit_code })))

-- An array of the event and its length field.
abbrev pub Text : Type 0
Text = List ℕ × ℕ

-- The copy behind the guards: the units of `Buffer`, and how many there are.
unfoldable pub copy_units : List ℕ → ℕ → ℕ → List ℕ → M Text
unfolding add_trunc
copy_units units chars cap dst = do
  let copy = min chars (cap - 1)
  when (ltb copy chars) add_trunc
  pure (copy_into units dst copy, as_u16 copy)

-- The destination and its length field, before and after.
unfoldable pub copy_unicode_string_into : Option UnicodeString → ℕ → Text → M Text
copy_unicode_string_into none cap (dst, len_dst) = pure (dst, len_dst)
copy_unicode_string_into (some s) cap (dst, len_dst) = elim s.buffer [
  | none ↦ pure (dst, len_dst)
  | some units ↦
      if s.length_bytes == 0
      then pure (dst, len_dst)
      else copy_units units (s.length_bytes / 2) cap dst
]

-- A zeroed array of the event.
abbrev pub zeroed : ℕ → Text
zeroed max = (replicate max 0, 0)

unfoldable pub emit_process_create : Kernel → ℕ → CreateNotifyInfo → M (Unit {0})
emit_process_create k pid info = do
  evt ← alloc_event_for k size_of_process_create EventType.process_create
  unless_null evt (λ p header. do
    image ← copy_unicode_string_into info.image_file_name image_path_max (zeroed image_path_max)
    command ← copy_unicode_string_into info.command_line command_line_max (zeroed command_line_max)
    submit k p (
        Event.process_create (record {
          header = header;
          process_id = pid;
          parent_process_id = as_u32 info.parent_process_id;
          creating_process_id = as_u32 info.creating_process;
          image_path = image.0;
          image_path_len = image.1;
          command_line = command.0;
          command_line_len = command.1;
          parent_image_path = replicate image_path_max 0;
          parent_image_path_len = 0;
          user_sid = replicate user_sid_max 0;
          user_sid_len = 0;
          integrity_level = 0xFFFFFFFF;
        })))

-- No `create_info` means that the process exits.
unfoldable pub process_notify : Kernel → Ptr → Ptr → Option CreateNotifyInfo → M (Unit {0})
process_notify k process process_id create_info = elim create_info [
  | none ↦ emit_process_exit k (as_u32 process_id) process
  | some info ↦ emit_process_create k (as_u32 process_id) info
]
