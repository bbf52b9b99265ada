-- ===== src/Callbacks/Image.antt =====
-- callbacks/image.rs: image loads.
use wazabi_edr_driver.Base.{
  ℕ, ◌-◌, ◌/◌, ◌%◌, ◌^◌, List, Option, none, some, if◌then◌else◌, ltb, min, replicate, copy_into,
}
use wazabi_edr_driver.Wdk.{Ptr, Kernel, UnicodeString, as_u16, as_u32}
use wazabi_edr_driver.State.{M, ◌>>=◌, ◌>>◌, pure, when}
use wazabi_edr_driver.Events.{EventType, image_path_max, size_of_image_load}
use wazabi_edr_driver.Events.Event.{Event}
use wazabi_edr_driver.Callbacks.Header.{add_trunc, alloc_event_for, submit, unless_null}

-- The fields of IMAGE_INFO that are read.
pub record ImageInfo : Type 0 where
  pub image_base : Ptr
  pub image_size : ℕ

-- `image_path` and `image_path_len` after the copy; a name that is not there leaves them zeroed.
unfoldable pub copy_image_name : Option UnicodeString → M (List ℕ × ℕ)
unfolding add_trunc
copy_image_name none = pure (replicate image_path_max 0, 0)
copy_image_name (some img) = elim img.buffer [
  | none ↦ pure (replicate image_path_max 0, 0)
  | some units ↦
      if ltb 0 img.length_bytes
      then (do
        let chars = img.length_bytes / 2
        let copy = min chars (image_path_max - 1)
        when (ltb copy chars) add_trunc
        pure (copy_into units (replicate image_path_max 0) copy, as_u16 copy))
      else pure (replicate image_path_max 0, 0)
]

-- `image_base` and `image_size`, both `as u64`
unfoldable pub image_range : Option ImageInfo → ℕ × ℕ
image_range none = (0, 0)
image_range (some info) = (info.image_base % 2 ^ 64, info.image_size % 2 ^ 64)

unfoldable pub emit_image_load : Kernel → ℕ → Option UnicodeString → Option ImageInfo → M (Unit {0})
emit_image_load k pid full_image_name image_info = do
  evt ← alloc_event_for k size_of_image_load EventType.image_load
  unless_null evt (λ p header. do
    name ← copy_image_name full_image_name
    submit k p (
        Event.image_load (record {
          header = header;
          process_id = pid;
          image_base = (image_range image_info).0;
          image_size = (image_range image_info).1;
          image_path = name.0;
          image_path_len = name.1;
        })))

unfoldable pub image_load_notify :
    Kernel → Option UnicodeString → Ptr → Option ImageInfo → M (Unit {0})
image_load_notify k full_image_name process_id image_info =
    emit_image_load k (as_u32 process_id) full_image_name image_info
