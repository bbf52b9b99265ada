-- ===== src/Callbacks/Preserve/Strings.antt =====
-- Process creation and image loads.
use wazabi_edr_driver.Base.{refl, arith, List, ◌∷◌, Option, none, some, length-replicate, replicate}
use wazabi_edr_driver.Wdk.{Ptr, Kernel, UnicodeString, as_u32}
use wazabi_edr_driver.State.{World}
use wazabi_edr_driver.Events.{image_path_max, command_line_max, user_sid_max}
use wazabi_edr_driver.Callbacks.Kept.{Kept, Covers, emit-Kept}
use wazabi_edr_driver.Events.Event.{Event}
use wazabi_edr_driver.Callbacks.Described.{OfProcess, Spans, OfImage}
use wazabi_edr_driver.Callbacks.Preserve.Shown.{string_into-Shows, copy_image_name-Shows}
use wazabi_edr_driver.Callbacks.Process.{CreateNotifyInfo, emit_process_create, process_notify}
use wazabi_edr_driver.Callbacks.Image.{ImageInfo, image_range, emit_image_load, image_load_notify}
use wazabi_edr_driver.Callbacks.Preserve.Copies.{
  Readable, copy_unicode_string_into-Kept, copy_image_name-Kept,
}
use wazabi_edr_driver.Callbacks.Preserve.Simple.{emit_process_exit-Kept}

image_range-Spans :
    (info : Option ImageInfo) → let (base, size) = image_range info in Spans info base size
unfolding image_range
image_range-Spans none = (refl, refl)
image_range-Spans (some info) = (refl, refl)

pub record ReadableInfo (info : CreateNotifyInfo) : Type 0 where
  pub image_file_name : Readable info.image_file_name
  pub command_line : Readable info.command_line

abbrev pub ReadableInfos : Option CreateNotifyInfo → Type 0
ReadableInfos none = Unit
ReadableInfos (some info) = ReadableInfo info

module _ {k : Kernel} {Good : Event → Type 0} {P : List Ptr → World → Type 0} (kept : Kept k Good P)
    (held : List Ptr) (w : World) (q : P held w) where
  emit_process_create-Kept :
      (process process_id : Ptr) (info : CreateNotifyInfo)
      → ReadableInfo info
      → Covers Good (OfProcess k process process_id (some info))
      → P held (emit_process_create k (as_u32 process_id) info w).1
  unfolding emit_process_create
  emit_process_create-Kept process process_id info r good =
      emit-Kept kept held _ _ _ w
        (λ p h w' hf q'.
          let image =
            copy_unicode_string_into-Kept kept (p ∷ held) info.image_file_name image_path_max
              (replicate image_path_max 0) 0 w' r.image_file_name
              (length-replicate image_path_max 0) q' in
          let command =
            copy_unicode_string_into-Kept kept (p ∷ held) info.command_line command_line_max
              (replicate command_line_max 0) 0 _ r.command_line
              (length-replicate command_line_max 0) image.1 in
          let shown =
            OfProcess.created info h _ _
              (string_into-Shows info.image_file_name _ image_path_max w' r.image_file_name
                (omega arith))
              (string_into-Shows info.command_line _ command_line_max _ r.command_line
                (omega arith)) in
          kept.submits held p _ _
            (good _
              (record {
                header = hf;
                arrays = record {
                  image_path = image.0;
                  command_line = command.0;
                  parent_image_path = length-replicate image_path_max 0;
                  user_sid = length-replicate user_sid_max 0;
                };
              })
              shown)
            command.1)
        q

  pub process_notify-Kept :
      (process process_id : Ptr) (info : Option CreateNotifyInfo)
      → ReadableInfos info
      → Covers Good (OfProcess k process process_id info)
      → P held (process_notify k process process_id info w).1
  unfolding process_notify
  process_notify-Kept process process_id none r good =
      emit_process_exit-Kept kept held w q process process_id good
  process_notify-Kept process process_id (some info) r good =
      emit_process_create-Kept process process_id info r good

  pub image_load_notify-Kept :
      (name : Option UnicodeString) (process_id : Ptr) (info : Option ImageInfo)
      → Readable name
      → Covers Good (OfImage name process_id info)
      → P held (image_load_notify k name process_id info w).1
  unfolding image_load_notify emit_image_load
  image_load_notify-Kept name process_id info r good =
      emit-Kept kept held _ _ _ w
        (λ p h w' hf q'.
          let copied = copy_image_name-Kept kept (p ∷ held) name w' r q' in
          kept.submits held p _ _
            (good _ (record { header = hf; arrays = copied.0 })
              (OfImage.loads h _ _ _ (copy_image_name-Shows name w' r) (image_range-Spans info)))
            copied.1)
        q
