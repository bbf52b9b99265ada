-- ===== src/Callbacks/Registry/Prefix/Matching.antt =====
-- The hand-written prefix test, against what it means.
use wazabi_edr_driver.Base.{
  ℕ, ◌+◌, ◌≡◌, ◌≤◌, refl, ap₂, arith, List, [], ◌∷◌, ◌++◌, map, true, inl, inr, ◌⊎◌, ◌↔◌,
}
use wazabi_edr_driver.Callbacks.Registry.Prefix.{
  to_upper, is_interesting_path, critical_registry_prefixes,
}
use wazabi_edr_driver.Callbacks.Registry.Prefix.Folds.{
  IsAscii, FoldsToAny, is_interesting_path-FoldsToAny, FoldsToAny-append, FoldsToAny-fold,
}

-- The same unit, or an ASCII letter in its two cases: 97 to 122 are `a` to `z`, and 32 lower are `A` to
-- `Z`.
abbrev pub SameLetter : ℕ → ℕ → Type 0
SameLetter a b =
    (a ≡ b) ⊎ ((97 ≤ a) × (a ≤ 122) × (a ≡ b + 32)) ⊎ ((97 ≤ b) × (b ≤ 122) × (b ≡ a + 32))

-- Unit for unit the same letters.
abbrev pub Spells : List ℕ → List ℕ → Type 0
Spells [] [] = Unit
Spells [] (p ∷ prefix) = ⊥
Spells (u ∷ front) [] = ⊥
Spells (u ∷ front) (p ∷ prefix) = SameLetter u p × Spells front prefix

-- The key starts with ASCII units that spell the prefix.
abbrev pub StartsWith : List ℕ → List ℕ → Type 0
StartsWith key prefix =
    (front : List ℕ) × (rest : List ℕ) × (key ≡ front ++ rest) × IsAscii front × Spells front prefix

abbrev pub StartsWithAny : List ℕ → List (List ℕ) → Type 0
StartsWithAny key [] = ⊥
StartsWithAny key (prefix ∷ prefixes) = StartsWith key prefix ⊎ StartsWithAny key prefixes

to_upper-SameLetter : (a b : ℕ) → to_upper a ≡ to_upper b → SameLetter a b
unfolding to_upper
to_upper-SameLetter a b e = ground arith

SameLetter-to_upper : (a b : ℕ) → SameLetter a b → to_upper a ≡ to_upper b
unfolding to_upper
SameLetter-to_upper a b s = ground arith

folded-Spells :
    (front prefix : List ℕ) → map to_upper front ≡ map to_upper prefix → Spells front prefix
folded-Spells [] [] e = tt
folded-Spells [] (p ∷ prefix) e = absurd (ground arith)
folded-Spells (u ∷ front) [] e = absurd (ground arith)
folded-Spells (u ∷ front) (p ∷ prefix) e =
    let same : to_upper u ≡ to_upper p = ground arith in
    (to_upper-SameLetter u p same, folded-Spells front prefix (ground arith))

Spells-folded :
    (front prefix : List ℕ) → Spells front prefix → map to_upper front ≡ map to_upper prefix
Spells-folded [] [] s = refl
Spells-folded [] (p ∷ prefix) s = absurd s
Spells-folded (u ∷ front) [] s = absurd s
Spells-folded (u ∷ front) (p ∷ prefix) (l, s) =
    ap₂ (λ x xs. x ∷ xs) (SameLetter-to_upper u p l) (Spells-folded front prefix s)

FoldsToAny-StartsWithAny :
    (key : List ℕ) (prefixes : List (List ℕ)) → FoldsToAny key prefixes ↔ StartsWithAny key prefixes
FoldsToAny-StartsWithAny key [] = (λ a. a, λ a. a)
FoldsToAny-StartsWithAny key (prefix ∷ prefixes) =
    let (to, from) = FoldsToAny-StartsWithAny key prefixes in
    (
      λ a. elim a [
        | inl (front, rest, cut, ascii, e) ↦
            inl (front, rest, cut, ascii, folded-Spells front prefix e)
        | inr more ↦ inr (to more)
      ],
      λ a. elim a [
        | inl (front, rest, cut, ascii, s) ↦
            inl (front, rest, cut, ascii, Spells-folded front prefix s)
        | inr more ↦ inr (from more)
      ],
    )

-- A key path is interesting exactly when it starts, a letter's case aside, with ASCII units that
-- spell one of the listed prefixes; the letters with two cases are `a` to `z`, and nothing else is
-- folded.
pub is_interesting_path-StartsWithAny :
    (key : List ℕ) → (is_interesting_path key ≡ true) ↔ StartsWithAny key critical_registry_prefixes
is_interesting_path-StartsWithAny key =
    let (to, from) = is_interesting_path-FoldsToAny key in
    let (into, back) = FoldsToAny-StartsWithAny key critical_registry_prefixes in
    (λ e. into (to e), λ s. from (back s))

-- Whatever is appended to an interesting path, with or without a path separator before it, the path
-- stays interesting.
pub is_interesting_path-append :
    (key more : List ℕ) → is_interesting_path key ≡ true → is_interesting_path (key ++ more) ≡ true
is_interesting_path-append key more e =
    let (to, from) = is_interesting_path-FoldsToAny key in
    (is_interesting_path-FoldsToAny (key ++ more)).1
      (FoldsToAny-append key more critical_registry_prefixes (to e))

-- An interesting path stays interesting when it is spelt in other ASCII letter cases, in ASCII
-- throughout.
pub is_interesting_path-fold :
    (key key' : List ℕ)
    → map to_upper key ≡ map to_upper key'
    → IsAscii key'
    → is_interesting_path key ≡ true
    → is_interesting_path key' ≡ true
is_interesting_path-fold key key' e a t =
    let (to, from) = is_interesting_path-FoldsToAny key in
    (is_interesting_path-FoldsToAny key').1
      (FoldsToAny-fold key key' critical_registry_prefixes e a (to t))
