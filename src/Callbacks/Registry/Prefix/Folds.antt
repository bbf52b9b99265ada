-- ===== src/Callbacks/Registry/Prefix/Folds.antt =====
-- The hand-written prefix test, against folding both sides.
use wazabi_edr_driver.Base.{
  ℕ, ◌≡◌, ◌≤◌, refl, sym, ap, ap₂, ◌∙◌, arith, List, [], ◌∷◌, ◌++◌, map, length, true, Bool-cases,
  inl, inr, ◌⊎◌, ◌↔◌, length-map, length-append, append_assoc,
}
use wazabi_edr_driver.Callbacks.Registry.Prefix.{
  to_upper, prefix_loop, key_has_ascii_prefix_ci, matches_any, is_interesting_path,
  critical_registry_prefixes,
}

-- All units are ASCII.
abbrev pub IsAscii : List ℕ → Type 0
IsAscii [] = Unit
IsAscii (u ∷ us) = (u ≤ 0x7F) × IsAscii us

-- The key starts with ASCII units that the code folds to the prefix.
abbrev pub FoldsTo : List ℕ → List ℕ → Type 0
FoldsTo key prefix =
    (front : List ℕ) × (rest : List ℕ) × (key ≡ front ++ rest)
    × IsAscii front
    × (map to_upper front ≡ map to_upper prefix)

abbrev pub FoldsToAny : List ℕ → List (List ℕ) → Type 0
FoldsToAny key [] = ⊥
FoldsToAny key (prefix ∷ prefixes) = FoldsTo key prefix ⊎ FoldsToAny key prefixes

prefix_loop-FoldsTo : (key prefix : List ℕ) → prefix_loop key prefix ≡ true → FoldsTo key prefix
unfolding prefix_loop
prefix_loop-FoldsTo key [] e = ([], key, refl, tt, refl)
prefix_loop-FoldsTo [] (p ∷ prefix) e = absurd (ground arith)
prefix_loop-FoldsTo (k ∷ key) (p ∷ prefix) e =
    let ascii : k ≤ 0x7F = ground arith in
    let same : to_upper k ≡ to_upper p = ground arith in
    let tail : prefix_loop key prefix ≡ true = ground arith in
    let (front, rest, cut, all, eq) = prefix_loop-FoldsTo key prefix tail in
    (k ∷ front, rest, ap (λ xs. k ∷ xs) cut, (ascii, all), ap₂ (λ x xs. x ∷ xs) same eq)

FoldsTo-prefix_loop :
    (prefix front rest : List ℕ)
    → IsAscii front
    → map to_upper front ≡ map to_upper prefix
    → prefix_loop (front ++ rest) prefix ≡ true
unfolding prefix_loop
FoldsTo-prefix_loop [] [] rest a e = refl
FoldsTo-prefix_loop [] (k ∷ front) rest a e = refl
FoldsTo-prefix_loop (p ∷ prefix) [] rest a e = absurd (ground arith)
FoldsTo-prefix_loop (p ∷ prefix) (k ∷ front) rest (a, more) e =
    let same : to_upper k ≡ to_upper p = ground arith in
    let rec : prefix_loop (front ++ rest) prefix ≡ true =
      FoldsTo-prefix_loop prefix front rest more (ground arith) in
    ground arith

length-FoldsTo :
    (key prefix front rest : List ℕ)
    → key ≡ front ++ rest
    → map to_upper front ≡ map to_upper prefix
    → length prefix ≤ length key
length-FoldsTo key prefix front rest cut e = omega (
  arith,
  ap length cut,
  length-append front rest,
  length-map to_upper front,
  length-map to_upper prefix,
  ap length e,
)

key_has_ascii_prefix_ci-FoldsTo :
    (key prefix : List ℕ) → (key_has_ascii_prefix_ci key prefix ≡ true) ↔ FoldsTo key prefix
unfolding key_has_ascii_prefix_ci
key_has_ascii_prefix_ci-FoldsTo key prefix = (
  (λ e. prefix_loop-FoldsTo key prefix (ground arith)),
  (λ (front, rest, cut, ascii, same).
      let short = length-FoldsTo key prefix front rest cut same in
      let found =
        ap (λ xs. prefix_loop xs prefix) cut ∙ FoldsTo-prefix_loop prefix front rest ascii same in
      ground arith),
)

matches_any-Any :
    (key : List ℕ) (prefixes : List (List ℕ))
    → (matches_any key prefixes ≡ true) ↔ FoldsToAny key prefixes
unfolding matches_any
matches_any-Any key [] = (λ e. absurd (ground arith), λ a. absurd a)
matches_any-Any key (prefix ∷ prefixes) =
    let (to, from) = key_has_ascii_prefix_ci-FoldsTo key prefix in
    let (into, back) = matches_any-Any key prefixes in
    elim (Bool-cases (key_has_ascii_prefix_ci key prefix)) [
      | inl t ↦ (λ e. inl (to t), λ a. ground arith)
      | inr f ↦ (
        λ e. inr (into (ground arith)),
        λ a. elim a [
          | inl s ↦ absurd (let yes_ = from s in ground arith)
          | inr s ↦ (let more = back s in ground arith)
        ],
      )
    ]

pub is_interesting_path-FoldsToAny :
    (key : List ℕ) → (is_interesting_path key ≡ true) ↔ FoldsToAny key critical_registry_prefixes
unfolding is_interesting_path
is_interesting_path-FoldsToAny key = matches_any-Any key critical_registry_prefixes

FoldsTo-append : (key more prefix : List ℕ) → FoldsTo key prefix → FoldsTo (key ++ more) prefix
FoldsTo-append key more prefix (front, rest, cut, ascii, same) =
    (front, rest ++ more, ap (λ xs. xs ++ more) cut ∙ append_assoc front rest more, ascii, same)

pub FoldsToAny-append :
    (key more : List ℕ) (prefixes : List (List ℕ))
    → FoldsToAny key prefixes
    → FoldsToAny (key ++ more) prefixes
FoldsToAny-append key more [] s = absurd s
FoldsToAny-append key more (prefix ∷ prefixes) (inl s) = inl (FoldsTo-append key more prefix s)
FoldsToAny-append key more (prefix ∷ prefixes) (inr s) = inr (FoldsToAny-append key more prefixes s)

fold_cut :
    (front rest key' : List ℕ)
    → map to_upper (front ++ rest) ≡ map to_upper key'
    → IsAscii key'
    → (front' : List ℕ) × (rest' : List ℕ) × (key' ≡ front' ++ rest')
      × IsAscii front'
      × (map to_upper front' ≡ map to_upper front)
fold_cut [] rest key' e a = ([], key', refl, tt, refl)
fold_cut (f ∷ front) rest [] e a = absurd (ground arith)
fold_cut (f ∷ front) rest (k ∷ key') e (a, more) =
    let same : to_upper k ≡ to_upper f = ground arith in
    let (front', rest', cut, ascii, eq) = fold_cut front rest key' (ground arith) more in
    (k ∷ front', rest', ap (λ xs. k ∷ xs) cut, (a, ascii), ap₂ (λ x xs. x ∷ xs) same eq)

pub FoldsToAny-fold :
    (key key' : List ℕ) (prefixes : List (List ℕ))
    → map to_upper key ≡ map to_upper key'
    → IsAscii key'
    → FoldsToAny key prefixes
    → FoldsToAny key' prefixes
FoldsToAny-fold key key' [] e a s = absurd s
FoldsToAny-fold key key' (prefix ∷ prefixes) e a (inl (front, rest, cut, ascii, same)) =
    let (front', rest', cut', ascii', eq) =
      fold_cut front rest key' (sym (ap (map to_upper) cut) ∙ e) a in
    inl (front', rest', cut', ascii', eq ∙ same)
FoldsToAny-fold key key' (prefix ∷ prefixes) e a (inr s) =
    inr (FoldsToAny-fold key key' prefixes e a s)
