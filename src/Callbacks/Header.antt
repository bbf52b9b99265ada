-- ===== src/Callbacks/Header.antt =====
-- callbacks/header.rs: the header of every event, and the buffer that it is written to.
use wazabi_edr_driver.Base.{ℕ, ◌==◌, if◌then◌else◌, List, Option, none, some, replicate, copy_into}
use wazabi_edr_driver.Wdk.{Ptr, null, Kernel, access_block}
use wazabi_edr_driver.State.{add_u32, update, M, ◌>>=◌, ◌>>◌, pure, gets, modify, act}
use wazabi_edr_driver.Events.{
  EventType, event_type_code, event_version, EventHeader, size_of_header,
}
use wazabi_edr_driver.Events.Layout.{header_bytes}
use wazabi_edr_driver.Events.Event.{Event, event_bytes, event_size}
use wazabi_edr_driver.Submit.{alloc_event, submit_event}

-- `DROP_COUNT.swap(0)` and `TRUNC_COUNT.swap(0)`
unfoldable pub swap_drop_count : M ℕ
swap_drop_count w = (w.drop_count, record w { drop_count = 0 })

unfoldable pub swap_trunc_count : M ℕ
swap_trunc_count w = (w.trunc_count, record w { trunc_count = 0 })

-- `TRUNC_COUNT.fetch_add(1)`
unfoldable pub add_trunc : M (Unit {0})
add_trunc = modify (λ w. record w { trunc_count = add_u32 w.trunc_count 1 })

unfoldable pub make_header : Kernel → ℕ → ℕ → M EventHeader
unfolding swap_drop_count swap_trunc_count
make_header k type_ size = do
  timestamp ← gets (λ w. k.ke_query_system_time_precise w.log)
  drop_count ← swap_drop_count
  trunc_count ← swap_trunc_count
  pure (record {
    version = event_version;
    type_ = type_;
    timestamp = timestamp;
    size = size;
    drop_count = drop_count;
    trunc_count = trunc_count;
  })

-- The block's bytes are replaced.
unfoldable pub write_block : Ptr → List ℕ → M (Unit {0})
unfolding act
write_block p bytes = do
  act (access_block p)
  modify (λ w. record w { pool = update w.pool p bytes })

-- The pointer and the header at its start; `none` for a null pointer. `ptr::write_bytes` zeroes the
-- whole block before the header is written over its first bytes.
unfoldable pub alloc_event_for : Kernel → ℕ → EventType → M (Option (Ptr × EventHeader))
unfolding make_header write_block
alloc_event_for k size t = do
  p ← alloc_event k size
  if p == null then pure none else (do
    write_block p (replicate size 0)
    header ← make_header k (event_type_code t) size
    write_block p (copy_into (header_bytes header) (replicate size 0) size_of_header)
    pure (some (p, header)))

-- The end of every emitter. The callbacks write their fields one by one into the block that they own;
-- nobody else reads it before it is submitted, so the model writes the finished event at once.
unfoldable pub submit : Kernel → Ptr → Event → M (Unit {0})
unfolding write_block
submit k p e = do write_block p (event_bytes e); submit_event k p (event_size e)

-- `if evt.is_null() { return; }` after `alloc_event_for`, and the rest of an emitter.
abbrev pub unless_null :
    Option (Ptr × EventHeader) → (Ptr → EventHeader → M (Unit {0})) → M (Unit {0})
unless_null none body = pure tt
unless_null (some (p, header)) body = body p header
