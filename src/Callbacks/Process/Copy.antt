-- ===== src/Callbacks/Process/Copy.antt =====
-- What the bounded string copy leaves in an event.
use wazabi_edr_driver.Base.{
  zero, suc, [], ◌∷◌, refl, ◌^◌, subst, ==_false, ℕ, ◌-◌, ◌/◌, ◌≡◌, ◌≢◌, ◌≤◌, ◌<◌, ap, ◌∙◌, sym,
  arith, List, length, take, copy_into, length-copy_into, take-copy_into, some, min, replicate,
  length-replicate, if◌then◌else◌, ltb,
}
use wazabi_edr_driver.Wdk.{UnicodeString, as_u16}
use wazabi_edr_driver.State.{World, add_u32}
use wazabi_edr_driver.Callbacks.Process.{Text, zeroed, copy_units, copy_unicode_string_into}

-- The array, its length field and the state after `chars` units went into an array of `cap` units.
abbrev Cut : List ℕ → ℕ → ℕ → World → Text → World → Type 0
Cut units chars cap w text w' =
    (length text.0 ≡ cap)
    × (text.1 ≡ min chars (cap - 1))
    × (take text.1 text.0 ≡ take text.1 units)
    × (w'.trunc_count ≡ (if ltb (cap - 1) chars then add_u32 w.trunc_count 1 else w.trunc_count))

copy_units_lem :
    (units : List ℕ) (chars cap : ℕ) (w : World)
    → chars ≤ length units
    → 0 < cap
    → cap < 2 ^ 16
    → let (text, w') = copy_units units chars cap (replicate cap 0) w in
      Cut units chars cap w text w'
unfolding copy_units
copy_units_lem units chars cap w readable pos small =
    let n = min chars (cap - 1) in
    let len = length-replicate {A = ℕ} cap 0 in
    let exact : as_u16 n ≡ n = ground arith in
    (
      length-copy_into units (replicate cap 0) n (omega arith) (omega (arith, len)) ∙ len,
      exact,
      subst (λ m. take m (copy_into units (replicate cap 0) n) ≡ take m units) (sym exact)
          (take-copy_into units (replicate cap 0) n (omega arith)),
      ground arith,
    )

-- Copying a non-empty string that has as many units as its length says, into a zeroed array of at
-- least one and less than 2^16 units: the array keeps its size; the length field is the string's,
-- cut to one unit less than the array; so many units of the string stand at the start; and the
-- truncation counter goes up exactly when the string was longer than that.
pub copy_unicode_string_into_lem :
    (s : UnicodeString) (units : List ℕ) (cap : ℕ) (w : World)
    → s.buffer ≡ some units
    → s.length_bytes ≢ 0
    → s.length_bytes / 2 ≤ length units
    → 0 < cap
    → cap < 2 ^ 16
    → let ((dst, len), w') = copy_unicode_string_into (some s) cap (zeroed cap) w in
      let chars = s.length_bytes / 2 in
      (length dst ≡ cap)
      × (len ≡ min chars (cap - 1))
      × (take len dst ≡ take len units)
      × (w'.trunc_count ≡ (if ltb (cap - 1) chars then add_u32 w.trunc_count 1 else w.trunc_count))
unfolding copy_unicode_string_into
copy_unicode_string_into_lem s units cap w b n readable pos small =
    let nonzero = ==_false s.length_bytes 0 n in
    rw b (rw nonzero (copy_units_lem units (s.length_bytes / 2) cap w readable pos small))

take-take : (n : ℕ) (xs : List ℕ) → take n (take n xs) ≡ take n xs
take-take zero xs = refl
take-take (suc n) [] = refl
take-take (suc n) (x ∷ xs) = ap (λ ys. x ∷ ys) (take-take n xs)

-- A string of at least `cap - 1` units leaves the same array and the same length field as the
-- string of its first `cap - 1` units: the event alone does not tell a cut string from one that
-- just fits.
pub copy_units-cut :
    (units : List ℕ) (chars cap : ℕ) (dst : List ℕ) (w : World)
    → cap - 1 ≤ chars
    → (copy_units units chars cap dst w).0
      ≡ (copy_units (take (cap - 1) units) (cap - 1) cap dst w).0
unfolding copy_units copy_into
copy_units-cut units chars cap dst w long =
    let a : min chars (cap - 1) ≡ cap - 1 = omega arith in
    let b : min (cap - 1) (cap - 1) ≡ cap - 1 = omega arith in
    let c = take-take (cap - 1) units in rw a (rw b (rw c refl))
