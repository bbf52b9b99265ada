-- ===== src/Events/Codec.antt =====
-- Little-endian fields and packed sequences of fields, and how a reader of known widths gets them
-- back.
use native.Mathlib.Nat.{pow-suc}
use wazabi_edr_driver.Base.{
  ℕ, zero, suc, ◌+◌, ◌*◌, ◌/◌, ◌%◌, ◌^◌, ◌<◌, ◌≡◌, refl, ap, ap₂, ◌∙◌, List, [], ◌∷◌, ◌++◌, map,
  arith, length, length-append, take, drop, append_assoc, take-append, drop-append,
}

-- The `n` bytes of a field, lowest first.
unfoldable pub le_bytes : ℕ → ℕ → List ℕ
le_bytes zero x = []
le_bytes (suc n) x = (x % 256) ∷ le_bytes n (x / 256)

pub of_le_bytes : List ℕ → ℕ
of_le_bytes [] = 0
of_le_bytes (b ∷ bs) = b + 256 * of_le_bytes bs

pub length-le_bytes : (n x : ℕ) → length (le_bytes n x) ≡ n
unfolding le_bytes
length-le_bytes zero x = refl
length-le_bytes (suc n) x = ap suc (length-le_bytes n (x / 256))

pub of_le_bytes-le_bytes : (n x : ℕ) → x < 256 ^ n → of_le_bytes (le_bytes n x) ≡ x
unfolding of_le_bytes le_bytes
of_le_bytes-le_bytes zero x h = omega arith
of_le_bytes-le_bytes (suc n) x h =
    omega (arith, of_le_bytes-le_bytes n (x / 256) (omega (arith, pow-suc 256 n)))

-- An array of UTF-16 units.
unfoldable pub units : List ℕ → List ℕ
units [] = []
units (u ∷ us) = (u % 256) ∷ (u / 256 % 256) ∷ units us

pub of_units : List ℕ → List ℕ
of_units [] = []
of_units (a ∷ []) = []
of_units (a ∷ b ∷ bs) = (a + 256 * b) ∷ of_units bs

pub length-units : (us : List ℕ) → length (units us) ≡ 2 * length us
unfolding units
length-units [] = refl
length-units (u ∷ us) = omega (arith, length-units us)

abbrev pub Below : ℕ → List ℕ → Type 0
Below n [] = Unit
Below n (x ∷ xs) = (x < n) × Below n xs

pub of_units-units : (us : List ℕ) → Below (2 ^ 16) us → of_units (units us) ≡ us
unfolding of_units units
of_units-units [] h = refl
of_units-units (u ∷ us) h = ap₂ ◌∷◌ (omega arith) (of_units-units us h.1)

-- A packed structure: its fields one after the other.
abbrev pub pack : List (List ℕ) → List ℕ
pack [] = []
pack (f ∷ fs) = f ++ pack fs

-- Cut at the given widths.
pub unpack : List ℕ → List ℕ → List (List ℕ)
unpack [] bs = []
unpack (n ∷ ns) bs = take n bs ∷ unpack ns (drop n bs)

abbrev pub widths : List (List ℕ) → List ℕ
widths = map length

pub unpack-pack : (fs : List (List ℕ)) → unpack (widths fs) (pack fs) ≡ fs
unfolding unpack
unpack-pack [] = refl
unpack-pack (f ∷ fs) =
    ap₂ ◌∷◌ (take-append f (pack fs))
      (ap (unpack (widths fs)) (drop-append f (pack fs)) ∙ unpack-pack fs)

-- The same with more bytes behind the structure.
pub unpack-pack-append :
    (fs : List (List ℕ)) (rest : List ℕ) → unpack (widths fs) (pack fs ++ rest) ≡ fs
unfolding unpack
unpack-pack-append [] rest = refl
unpack-pack-append (f ∷ fs) rest =
    rw
      (
        append_assoc f (pack fs) rest,
        take-append f (pack fs ++ rest),
        drop-append f (pack fs ++ rest),
      )
      (ap (◌∷◌ f) (unpack-pack-append fs rest))

abbrev pub total : List ℕ → ℕ
total [] = 0
total (n ∷ ns) = n + total ns

pub length-pack : (fs : List (List ℕ)) → length (pack fs) ≡ total (widths fs)
length-pack [] = refl
length-pack (f ∷ fs) = omega (arith, length-append f (pack fs), length-pack fs)
