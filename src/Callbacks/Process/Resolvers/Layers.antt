-- ===== src/Callbacks/Process/Resolvers/Layers.antt =====
-- What the resolvers get from the kernel is given back, the latest first.
use wazabi_edr_driver.Base.{
  arith, ℕ, ◌≡◌, ◌≢◌, refl, List, [], ◌∷◌, Bool, Bool-cases, inl, inr, true, false, some, ◌==◌,
  if◌then◌else◌, ltb, ==_false, Option-cases, ◌-◌, ◌/◌, min,
}
use wazabi_edr_driver.Wdk.{
  Ptr, null, Log, Resource, obtain, give_back, process_reference, image_name, token_reference,
  token_information, sid_text, UnicodeString, status_success,
}
use wazabi_edr_driver.State.{World, M, ◌>>=◌, ◌>>◌, pure, act, gets}
use wazabi_edr_driver.Callbacks.Header.{add_trunc}
use wazabi_edr_driver.Events.{image_path_max, user_sid_max}
use wazabi_edr_driver.Callbacks.Process.{Text, copy_units, copy_unicode_string_into}
use wazabi_edr_driver.Callbacks.Process.Resolvers.{
  SecurityKernel, usable, token_user_class, token_integrity_level_class, integrity_level_unresolved,
  copy_image_path, fill_parent_image_path, with_sid, with_token_sid, copy_sid_text, fill_user_sid,
  last_sub_authority, resolve_integrity_level,
}

-- What is held after the log, the latest first; nothing was ever given back before what had been
-- got after it.
abbrev pub Layers : Log → List (Resource × Ptr) → Type 0
Layers [] held = held ≡ []
Layers (obtain r p ∷ l) [] = ⊥
Layers (obtain r p ∷ l) (h ∷ held) = (h ≡ (r, p)) × Layers l held
Layers (give_back r p ∷ l) held = Layers l ((r, p) ∷ held)
Layers (_ ∷ l) held = Layers l held

-- Run from any state, `m` holds afterwards what it held before.
abbrev Keeps : {A : Type 0} → M A → Type 0
Keeps m = (held : List (Resource × Ptr)) (w : World) → Layers w.log held → Layers (m w).1.log held

-- A use of `m` between getting a resource and giving it back.
abbrev between : {A : Type 0} → Resource → Ptr → M A → M A
between r p m = do act (obtain r p); a ← m; act (give_back r p); pure a

between-Keeps : {A : Type 0} (r : Resource) (p : Ptr) (m : M A) → Keeps m → Keeps (between r p m)
unfolding act
between-Keeps r p m keeps held w h =
    keeps ((r, p) ∷ held) (record w { log = obtain r p ∷ w.log }) (refl, h)

if-Keeps : {A : Type 0} (b : Bool) (m n : M A) → Keeps m → Keeps n → Keeps (if b then m else n)
if-Keeps true m n p q = p
if-Keeps false m n p q = q

copy_units-Keeps :
    (units : List ℕ) (chars cap : ℕ) (dst : List ℕ) → Keeps (copy_units units chars cap dst)
unfolding copy_units
copy_units-Keeps units chars cap dst held w h =
    if-Keeps (ltb (min chars (cap - 1)) chars) add_trunc (pure tt) (λ held w h. h) (λ held w h. h)
      held w h

copy_unicode_string_into-Keeps :
    (s : UnicodeString) (cap : ℕ) (text : Text) → Keeps (copy_unicode_string_into (some s) cap text)
unfolding copy_unicode_string_into
copy_unicode_string_into-Keeps s cap (dst, len) held w h = elim (Option-cases s.buffer) [
  | inl b ↦ rw b h
  | inr (units, b) ↦ rw b (
      if-Keeps (s.length_bytes == 0) (pure (dst, len))
        (copy_units units (s.length_bytes / 2) cap dst) (λ held w h. h)
        (copy_units-Keeps units _ cap dst) held w h)
]

-- RtlConvertSidToUnicodeString allocates no empty text: where it succeeds with a `Buffer`, `Length` is
-- not null.
abbrev pub TextsNonempty : SecurityKernel → Type 0
TextsNonempty k =
    (l : Log) (sid : Ptr)
    → let s = k.rtl_convert_sid_to_unicode_string l sid in
      s.status ≡ status_success → s.buffer ≢ null → s.length_bytes ≢ 0

module _ (k : SecurityKernel) where
  copy_image_path-Keeps : (peproc : Ptr) (text : Text) → Keeps (copy_image_path k peproc text)
  unfolding copy_image_path
  copy_image_path-Keeps peproc text held w h =
      let located = k.se_locate_process_image_name w.log peproc in
      let copy : M Text = (do
        name ← gets (λ w. k.image_name_at w.log located.pointer)
        copy_unicode_string_into (some name) image_path_max text) in
      if-Keeps (usable located.status located.pointer) (between image_name located.pointer copy)
        (pure text)
        (between-Keeps image_name located.pointer copy
          (λ held w h. copy_unicode_string_into-Keeps _ image_path_max text held w h))
        (λ held w h. h) held w h

  pub fill_parent_image_path-Keeps :
      (pid : ℕ) (text : Text) → Keeps (fill_parent_image_path k pid text)
  unfolding fill_parent_image_path
  fill_parent_image_path-Keeps pid text held w h =
      let found = k.ps_lookup_process_by_process_id w.log pid in
      elim (Bool-cases (pid == 0)) [
        | inl t ↦ rw t h
        | inr t ↦ rw t (
            if-Keeps (usable found.status found.pointer)
              (between process_reference found.pointer (copy_image_path k found.pointer text))
              (pure text)
              (between-Keeps process_reference found.pointer (copy_image_path k found.pointer text)
                (copy_image_path-Keeps found.pointer text))
              (λ held w h. h) held w h)
      ]

  with_sid-Keeps :
      {A : Type 0} (token : Ptr) (class : ℕ) (other : A) (use_sid : Ptr → M A)
      → ((sid : Ptr) → Keeps (use_sid sid))
      → Keeps (with_sid k token class other use_sid)
  unfolding with_sid
  with_sid-Keeps token class other use_sid keeps held w h =
      let info = k.se_query_information_token w.log token class in
      let used = if info.sid == null then pure other else use_sid info.sid in
      if-Keeps (usable info.status info.blob) (between token_information info.blob used)
        (pure other)
        (between-Keeps token_information info.blob used (
          if-Keeps (info.sid == null) (pure other) (use_sid info.sid) (λ held w h. h)
            (keeps info.sid)))
        (λ held w h. h) held w h

  with_token_sid-Keeps :
      {A : Type 0} (class : ℕ) (other : A) (use_sid : Ptr → M A)
      → ((sid : Ptr) → Keeps (use_sid sid))
      → Keeps (with_token_sid k class other use_sid)
  unfolding with_token_sid
  with_token_sid-Keeps class other use_sid keeps held w h =
      let token = k.ps_reference_primary_token w.log (k.io_get_current_process w.log) in
      if-Keeps (token == null) (pure other)
        (between token_reference token (with_sid k token class other use_sid)) (λ held w h. h)
        (between-Keeps token_reference token (with_sid k token class other use_sid)
          (with_sid-Keeps token class other use_sid keeps))
        held w h

  -- Where no conversion that succeeded gave an empty text.
  copy_sid_text-Keeps :
      TextsNonempty k → (text : Text) (sid : Ptr) → Keeps (copy_sid_text k text sid)
  unfolding copy_sid_text
  copy_sid_text-Keeps full (dst, len) sid held w h =
      let sid_str = k.rtl_convert_sid_to_unicode_string w.log sid in
      let copy = copy_units sid_str.units (sid_str.length_bytes / 2) user_sid_max dst in
      elim (Bool-cases (usable sid_str.status sid_str.buffer)) [
        | inr u ↦ rw u h
        | inl u ↦
            let nonempty =
              ==_false sid_str.length_bytes 0 (full w.log sid (ground arith) (ground arith)) in
            rw u (
              rw nonempty (
                between-Keeps sid_text sid_str.buffer copy
                  (copy_units-Keeps sid_str.units _ user_sid_max dst) held w h))
      ]

-- fill_parent_image_path and resolve_integrity_level, on every path through them, give back all that they got
-- from the kernel (the references, and the name or the blob), the latest first, and hold afterwards
-- what was held before.
pub resolvers-Layers :
    (k : SecurityKernel) (pid : ℕ) (text : Text) (held : List (Resource × Ptr)) (w : World)
    → Layers w.log held
    → Layers (fill_parent_image_path k pid text w).1.log held
      × Layers (resolve_integrity_level k w).1.log held
unfolding resolve_integrity_level last_sub_authority
resolvers-Layers k pid text held w h = (
  fill_parent_image_path-Keeps k pid text held w h,
  with_token_sid-Keeps k token_integrity_level_class integrity_level_unresolved
      (last_sub_authority k) (λ sid held w h. h) held w h,
)

-- fill_user_sid, on every path through it, gives back all that it got from the kernel (the token's reference,
-- the blob and the text), the latest first, and holds afterwards what was held before, when
-- RtlConvertSidToUnicodeString, where it succeeds with a `Buffer`, gives no empty text. A conversion
-- that fails, or gives no `Buffer`, may leave any length.
pub fill_user_sid-Layers :
    (k : SecurityKernel) (text : Text) (held : List (Resource × Ptr)) (w : World)
    → TextsNonempty k
    → Layers w.log held
    → Layers (fill_user_sid k text w).1.log held
unfolding fill_user_sid
fill_user_sid-Layers k text held w full h =
    with_token_sid-Keeps k token_user_class text (copy_sid_text k text)
      (copy_sid_text-Keeps k full text) held w h
