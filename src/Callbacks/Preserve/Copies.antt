-- ===== src/Callbacks/Preserve/Copies.antt =====
-- The copies of kernel strings into the arrays of an event.
use wazabi_edr_driver.Base.{
  ℕ, ◌≡◌, ◌≤◌, ◌/◌, List, Option, none, some, ◌==◌, arith, length, length-replicate,
  length-copy_into, replicate, min, ltb, ◌-◌, inl, inr, Bool-cases, Option-cases,
}
use wazabi_edr_driver.Wdk.{Ptr, Kernel, UnicodeString}
use wazabi_edr_driver.State.{World}
use wazabi_edr_driver.Events.{image_path_max}
use wazabi_edr_driver.Events.Event.{Event}
use wazabi_edr_driver.Callbacks.Kept.{Kept, add_trunc-Kept}
use wazabi_edr_driver.Callbacks.Process.{copy_units, copy_unicode_string_into}
use wazabi_edr_driver.Callbacks.Image.{copy_image_name}
use wazabi_edr_driver.Callbacks.Registry.{copy_unicode_into}

-- The memory behind a string's `Buffer` holds at least the units that `Length` counts.
pub record IsReadable (s : UnicodeString) : Type 0 where
  pub units : (us : List ℕ) → s.buffer ≡ some us → s.length_bytes / 2 ≤ length us

abbrev pub Readable : Option UnicodeString → Type 0
Readable none = Unit
Readable (some s) = IsReadable s

module _ {k : Kernel} {Good : Event → Type 0} {P : List Ptr → World → Type 0} (kept : Kept k Good P)
    (held : List Ptr) where
  -- A copy keeps the array's length, and the invariant.
  abbrev pub Copied : ℕ → List ℕ × ℕ → World → Type 0
  Copied cap text w' = (length text.0 ≡ cap) × P held w'

  copy_units-Kept :
      (units : List ℕ) (chars cap : ℕ) (dst : List ℕ) (w : World)
      → chars ≤ length units
      → length dst ≡ cap
      → P held w
      → let (text, w') = copy_units units chars cap dst w in Copied cap text w'
  unfolding copy_units
  copy_units-Kept units chars cap dst w r e q = (
    omega (arith, length-copy_into units dst (min chars (cap - 1))),
    elim (Bool-cases (ltb (min chars (cap - 1)) chars)) [
      | inl t ↦ rw t (add_trunc-Kept kept held w q)
      | inr t ↦ rw t q
    ],
  )

  pub copy_unicode_string_into-Kept :
      (src : Option UnicodeString) (cap : ℕ) (dst : List ℕ) (len : ℕ) (w : World)
      → Readable src
      → length dst ≡ cap
      → P held w
      → let (text, w') = copy_unicode_string_into src cap (dst, len) w in Copied cap text w'
  unfolding copy_unicode_string_into
  copy_unicode_string_into-Kept none cap dst len w r e q = (e, q)
  copy_unicode_string_into-Kept (some s) cap dst len w r e q = elim (Option-cases s.buffer) [
    | inl b ↦ rw b (e, q)
    | inr (units, b) ↦ rw b (elim (Bool-cases (s.length_bytes == 0)) [
      | inl t ↦ rw t (e, q)
      | inr t ↦ rw t (copy_units-Kept units (s.length_bytes / 2) cap dst w (r.units units b) e q)
    ])
  ]

  pub copy_image_name-Kept :
      (name : Option UnicodeString) (w : World)
      → Readable name
      → P held w
      → let (text, w') = copy_image_name name w in Copied image_path_max text w'
  unfolding copy_image_name
  copy_image_name-Kept none w r q = (length-replicate image_path_max 0, q)
  copy_image_name-Kept (some s) w r q = elim (Option-cases s.buffer) [
    | inl b ↦ rw b (length-replicate image_path_max 0, q)
    | inr (units, b) ↦ rw b (elim (Bool-cases (ltb 0 s.length_bytes)) [
      | inl t ↦ rw t (
          unfold copy_units in
          copy_units-Kept units (s.length_bytes / 2) image_path_max (replicate image_path_max 0) w
            (r.units units b) (length-replicate image_path_max 0) q)
      | inr t ↦ rw t (length-replicate image_path_max 0, q)
    ])
  ]

  pub copy_unicode_into-Kept :
      (src : Option UnicodeString) (max : ℕ) (dst : List ℕ) (w : World)
      → Readable src
      → length dst ≡ max
      → P held w
      → let (text, w') = copy_unicode_into src dst max w in Copied max text w'
  unfolding copy_unicode_into
  copy_unicode_into-Kept none max dst w r e q = (e, q)
  copy_unicode_into-Kept (some s) max dst w r e q = elim (Option-cases s.buffer) [
    | inl b ↦ rw b (e, q)
    | inr (units, b) ↦ rw b (elim (Bool-cases (s.length_bytes == 0)) [
      | inl t ↦ rw t (e, q)
      | inr t ↦ rw t (
          unfold copy_units in
          copy_units-Kept units (s.length_bytes / 2) max dst w (r.units units b) e q)
    ])
  ]
