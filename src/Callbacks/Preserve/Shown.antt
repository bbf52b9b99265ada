-- ===== src/Callbacks/Preserve/Shown.antt =====
-- What the copies of kernel strings show in the arrays of an event.
use wazabi_edr_driver.Base.{
  ℕ, zero, suc, ◌-◌, ◌/◌, ◌^◌, ◌≡◌, ◌≤◌, ◌<◌, ◌∙◌, refl, sym, ap, subst, arith, List, [], ◌∷◌,
  Option, none, some, ◌==◌, length, length-take, take-copy_into, min, take, ltb, inl, inr, true,
  Bool-cases, Option-cases, copy_into,
}
use wazabi_edr_driver.Wdk.{UnicodeString, as_u16}
use wazabi_edr_driver.State.{World}
use wazabi_edr_driver.Events.{image_path_max}
use wazabi_edr_driver.Callbacks.Process.{copy_units, copy_unicode_string_into}
use wazabi_edr_driver.Callbacks.Image.{copy_image_name}
use wazabi_edr_driver.Callbacks.Registry.{copy_unicode_into}
use wazabi_edr_driver.Callbacks.Described.{text_of, Shows}
use wazabi_edr_driver.Callbacks.Preserve.Copies.{IsReadable, Readable}

take-min :
    (chars room : ℕ) (units : List ℕ)
    → chars ≤ length units
    → take (min chars room) units ≡ take room (take chars units)
take-min zero zero units h = refl
take-min zero (suc room) units h = rw (the_zero room) refl
  where
    the_zero : (r : ℕ) → min 0 (suc r) ≡ 0
    the_zero r = omega arith
take-min (suc chars) zero units h = rw (the_zero chars) refl
  where
    the_zero : (r : ℕ) → min (suc r) 0 ≡ 0
    the_zero r = omega arith
take-min (suc chars) (suc room) [] h = absurd (omega arith)
take-min (suc chars) (suc room) (x ∷ units) h =
    let both : min (suc chars) (suc room) ≡ suc (min chars room) = omega arith in
    rw both (ap (λ xs. x ∷ xs) (take-min chars room units (omega arith)))

-- Copying `chars` units, cut to `room`, into an array.
pub copied-Shows :
    (units dst : List ℕ) (chars room : ℕ)
    → chars ≤ length units
    → Shows room (take chars units) (copy_into units dst (min chars room), min chars room)
copied-Shows units dst chars room r = record {
  amount = omega (arith, length-take chars units);
  units = take-copy_into units dst (min chars room) (omega arith) ∙ take-min chars room units r;
}

-- A length that fits the field is not changed by it.
pub Shows-as_u16 :
    (room : ℕ) (text dst : List ℕ) (n : ℕ)
    → room < 2 ^ 16
    → Shows room text (dst, n)
    → Shows room text (dst, as_u16 n)
Shows-as_u16 room text dst n small s =
    let least = s.amount in
    let exact : as_u16 n ≡ n = omega (arith, least) in
    subst (λ m. Shows room text (dst, m)) (sym exact) s

pub nothing-Shows : (room : ℕ) (dst : List ℕ) → Shows room [] (dst, 0)
nothing-Shows room dst = record { amount = omega arith; units = nothing room }
  where
    nothing : (n : ℕ) → ◌≡◌ {A = List ℕ} [] (take n [])
    nothing zero = refl
    nothing (suc n) = refl

-- A string whose Length is null shows nothing.
empty-Shows :
    (s : UnicodeString) (units dst : List ℕ) (room : ℕ)
    → (s.length_bytes == 0) ≡ true
    → Shows room (take (s.length_bytes / 2) units) (dst, 0)
empty-Shows s units dst room t =
    let z : s.length_bytes / 2 ≡ 0 = ground arith in rw z (nothing-Shows room dst)

module _ (s : UnicodeString) (r : IsReadable s) (dst : List ℕ) (size : ℕ) (w : World) where
  pub copy_unicode_string_into-Shows :
      size ≤ 2 ^ 16
      → Shows (size - 1) (text_of (some s)) (copy_unicode_string_into (some s) size (dst, 0) w).0
  unfolding copy_unicode_string_into copy_units
  copy_unicode_string_into-Shows small = elim (Option-cases s.buffer) [
    | inl b ↦ rw b (nothing-Shows (size - 1) dst)
    | inr (units, b) ↦ rw b (elim (Bool-cases (s.length_bytes == 0)) [
      | inl t ↦ rw t (empty-Shows s units dst (size - 1) t)
      | inr t ↦ rw t (
          Shows-as_u16 (size - 1) (take (s.length_bytes / 2) units) _ _ (omega arith)
            (copied-Shows units dst (s.length_bytes / 2) (size - 1) (r.units units b)))
    ])
  ]

  pub copy_unicode_into-Shows :
      Shows (size - 1) (text_of (some s)) (copy_unicode_into (some s) dst size w).0
  unfolding copy_unicode_into
  copy_unicode_into-Shows = elim (Option-cases s.buffer) [
    | inl b ↦ rw b (nothing-Shows (size - 1) dst)
    | inr (units, b) ↦ rw b (elim (Bool-cases (s.length_bytes == 0)) [
      | inl t ↦ rw t (empty-Shows s units dst (size - 1) t)
      | inr t ↦ rw t (copied-Shows units dst (s.length_bytes / 2) (size - 1) (r.units units b))
    ])
  ]

  image_name-Shows : Shows (image_path_max - 1) (text_of (some s)) (copy_image_name (some s) w).0
  unfolding copy_image_name
  image_name-Shows = elim (Option-cases s.buffer) [
    | inl b ↦ rw b (nothing-Shows (image_path_max - 1) _)
    | inr (units, b) ↦ rw b (elim (Bool-cases (ltb 0 s.length_bytes)) [
      | inl t ↦ rw t (
          Shows-as_u16 (image_path_max - 1) (take (s.length_bytes / 2) units) _ _ (omega arith)
            (copied-Shows units _ (s.length_bytes / 2) (image_path_max - 1) (r.units units b)))
      | inr t ↦ rw t (empty-Shows s units _ (image_path_max - 1) (ground arith))
    ])
  ]

pub copy_image_name-Shows :
    (name : Option UnicodeString) (w : World)
    → Readable name
    → Shows (image_path_max - 1) (text_of name) (copy_image_name name w).0
unfolding copy_image_name
copy_image_name-Shows none w r = nothing-Shows (image_path_max - 1) _
copy_image_name-Shows (some s) w r = image_name-Shows s r [] 0 w

pub string_into-Shows :
    (source : Option UnicodeString) (dst : List ℕ) (size : ℕ) (w : World)
    → Readable source
    → size ≤ 2 ^ 16
    → Shows (size - 1) (text_of source) (copy_unicode_string_into source size (dst, 0) w).0
unfolding copy_unicode_string_into
string_into-Shows none dst size w r small = nothing-Shows (size - 1) dst
string_into-Shows (some s) dst size w r small = copy_unicode_string_into-Shows s r dst size w small

pub unicode_into-Shows :
    (source : Option UnicodeString) (dst : List ℕ) (size : ℕ) (w : World)
    → Readable source
    → Shows (size - 1) (text_of source) (copy_unicode_into source dst size w).0
unfolding copy_unicode_into
unicode_into-Shows none dst size w r = nothing-Shows (size - 1) dst
unicode_into-Shows (some s) dst size w r = copy_unicode_into-Shows s r dst size w
