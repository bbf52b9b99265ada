-- ===== src/Callbacks/Preserve/Keys.antt =====
-- The registry callback.
use wazabi_edr_driver.Base.{
  subst, true, false, take, ℕ, ◌≡◌, ◌≤◌, ◌/◌, refl, List, ◌∷◌, Option, none, some, ◌==◌, arith,
  length, length-replicate, length-copy_into, replicate, min, ◌-◌, ◌⊎◌, inl, inr, Bool-cases,
  Option-cases,
}
use wazabi_edr_driver.Wdk.{Ptr, Kernel, UnicodeString}
use wazabi_edr_driver.State.{World, add_u32}
use wazabi_edr_driver.Callbacks.Kept.{Kept}
use wazabi_edr_driver.Wdk.{Log, KeyName, get_key_name, release_key_name, is_negative, null}
use wazabi_edr_driver.Events.{registry_key_path_max}
use wazabi_edr_driver.Events.Event.{Event}
use wazabi_edr_driver.Callbacks.Described.{text_of, Shows, Named, named}
use wazabi_edr_driver.Callbacks.Preserve.Shown.{copy_unicode_into-Shows}
use wazabi_edr_driver.Callbacks.Registry.Prefix.{is_interesting_path}
use wazabi_edr_driver.Callbacks.Registry.Prefix.Matching.{is_interesting_path-StartsWithAny}
use wazabi_edr_driver.Callbacks.Preserve.Copies.{IsReadable, Readable}
use wazabi_edr_driver.Callbacks.Registry.{
  copy_unicode_into, get_key_object_id, write_key_path_from_object, resolve_and_gate_object,
  is_gated_out,
}

-- The names that the kernel answers with are readable.
abbrev pub ReadableNames : Kernel → Type 0
ReadableNames k =
    (log : Log) (cookie : ℕ) (o : Ptr)
    → Readable (k.cm_callback_get_key_object_id_ex log cookie o).name

-- A copy counts one truncation at most, and does nothing else to the state.
copy_unicode_into-world :
    (src : Option UnicodeString) (dst : List ℕ) (max : ℕ) (w : World)
    → ((copy_unicode_into src dst max w).1 ≡ w)
      ⊎ ((copy_unicode_into src dst max w).1 ≡ record w { trunc_count = add_u32 w.trunc_count 1 })
unfolding copy_unicode_into
copy_unicode_into-world none dst max w = inl refl
copy_unicode_into-world (some s) dst max w = ground arith

copy_unicode_into-length :
    (n : UnicodeString) (max : ℕ) (dst : List ℕ) (w : World)
    → IsReadable n
    → length dst ≡ max
    → length (copy_unicode_into (some n) dst max w).0.0 ≡ max
unfolding copy_unicode_into
copy_unicode_into-length n max dst w r e = elim (Option-cases n.buffer) [
  | inl b ↦ rw b e
  | inr (units, b) ↦
      ground
        (arith, r.units units b, length-copy_into units dst (min (n.length_bytes / 2) (max - 1)))
]

-- The units copied fit the array and leave one free.
pub copy_unicode_into_bounds :
    (src : Option UnicodeString) (dst : List ℕ) (max : ℕ) (w : World)
    → (copy_unicode_into src dst max w).0.1 ≤ max - 1
unfolding copy_unicode_into
copy_unicode_into_bounds none dst max w = omega arith
copy_unicode_into_bounds (some s) dst max w = ground arith

-- Where the kernel stores the name of the key's object.
abbrev key_pointer : Kernel → Ptr → World → Ptr
key_pointer k object w =
    (k.cm_callback_get_key_object_id_ex w.log w.registry_callback_cookie object).pointer

-- The kernel gives no name and nothing happens, or it gives a readable name that is to be released.
get_key_object_id-cases :
    (k : Kernel)
    → ReadableNames k
    → (object : Ptr) (w : World)
    → (get_key_object_id k object w ≡ (none, w))
      ⊎ ((n : UnicodeString) × IsReadable n
          × ((k.cm_callback_get_key_object_id_ex w.log w.registry_callback_cookie object).name
              ≡ some n)
          × (get_key_object_id k object w ≡ (
            some (key_pointer k object w, n),
            record w { log = get_key_name (key_pointer k object w) ∷ w.log },
          )))
unfolding get_key_object_id
get_key_object_id-cases k readable object w = elim (Option-cases (answer.name)) [
  | inl b ↦ inl (ground arith)
  | inr (n, b) ↦ elim (Bool-cases (is_negative answer.status)) [
    | inl f ↦ inl (ground arith)
    | inr f ↦
        inr
          (n, subst Readable b (readable w.log w.registry_callback_cookie object), b, ground arith)
  ]
]
  where
    answer : KeyName
    answer = k.cm_callback_get_key_object_id_ex w.log w.registry_callback_cookie object

-- What passes the gate is a path in an array of its length, which names the key's object.
abbrev pub Gated : Kernel → Ptr → Option (List ℕ × ℕ) → Type 0
Gated k object none = Unit
Gated k object (some path) =
    (length path.0 ≡ registry_key_path_max)
    × (path.1 ≤ registry_key_path_max - 1)
    × Named k object path

module _ {k : Kernel} {Good : Event → Type 0} {P : List Ptr → World → Type 0} (kept : Kept k Good P)
    (readable : ReadableNames k) (held : List Ptr) where
  -- An array of its length, with a length that leaves one unit free; a path that is not empty is
  -- a name of the object.
  abbrev pub Resolved : Ptr → List ℕ × ℕ → World → Type 0
  Resolved object text w' =
      (length text.0 ≡ registry_key_path_max)
      × (text.1 ≤ registry_key_path_max - 1)
      × ((text.1 ≡ 0)
          ⊎ ((l : Log) × (cookie : ℕ) × (n : UnicodeString) × ((k.cm_callback_get_key_object_id_ex l
                  cookie object).name
                ≡ some n)
              × Shows (registry_key_path_max - 1) (text_of (some n)) text))
      × P held w'

  -- Copying a name between its getting and its release.
  copied_name :
      (object p : Ptr) (n : UnicodeString) (dst : List ℕ) (w : World)
      → (k.cm_callback_get_key_object_id_ex w.log w.registry_callback_cookie object).name ≡ some n
      → IsReadable n
      → length dst ≡ registry_key_path_max
      → P held w
      → let (text, w') =
          copy_unicode_into
            (some n)
            dst
            registry_key_path_max
            (record w { log = get_key_name p ∷ w.log }) in
        Resolved object text (record w' { log = release_key_name p ∷ w'.log })
  copied_name object p n dst w answers r e q =
      let got : World = record w { log = get_key_name p ∷ w.log } in
      let max = registry_key_path_max in
      (
        copy_unicode_into-length n max dst got r e,
        copy_unicode_into_bounds (some n) dst max got,
        inr (
          w.log,
          w.registry_callback_cookie,
          n,
          answers,
          copy_unicode_into-Shows n r dst max got,
        ),
        elim (copy_unicode_into-world (some n) dst max got) [
          | inl same ↦ rw same (kept.names held p w q)
          | inr cut ↦ rw cut (kept.names held p _ (kept.cuts held w q))
        ],
      )

  pub write_key_path_from_object-Kept :
      (object : Ptr) (dst : List ℕ) (w : World)
      → length dst ≡ registry_key_path_max
      → P held w
      → let (text, w') = write_key_path_from_object k object dst registry_key_path_max w in
        Resolved object text w'
  unfolding write_key_path_from_object
  write_key_path_from_object-Kept object dst w e q = elim (Bool-cases (object == null)) [
    | inl t ↦ rw t (e, omega arith, inl refl, q)
    | inr t ↦ rw t (elim (get_key_object_id-cases k readable object w) [
      | inl u ↦ rw u (e, omega arith, inl refl, q)
      | inr (n, r, answers, u) ↦ rw u (copied_name object _ n dst w answers r e q)
    ])
  ]

  -- A path that passes the gate names the object, and starts with a watched prefix.
  passes-Named :
      (object : Ptr) (path : List ℕ × ℕ) (w : World)
      → Resolved object path w
      → is_gated_out path ≡ false
      → Named k object path
  passes-Named object path w (len, fits, how, q) passes =
      let watched : is_interesting_path (take path.1 path.0) ≡ true = ground arith in
      elim how [
        | inl z ↦ absurd (ground arith)
        | inr (l, cookie, n, answers, shows) ↦
            named l cookie n answers shows
              ((is_interesting_path-StartsWithAny (take path.1 path.0)).0 watched)
      ]

  pub resolve_and_gate_object-Kept :
      (object : Ptr) (w : World)
      → P held w
      → let (r, w') = resolve_and_gate_object k object w in Gated k object r × P held w'
  unfolding resolve_and_gate_object
  resolve_and_gate_object-Kept object w q =
      let empty = replicate registry_key_path_max 0 in
      let result = write_key_path_from_object k object empty registry_key_path_max w in
      let resolved =
        write_key_path_from_object-Kept object empty w (length-replicate registry_key_path_max 0)
          q in
      elim (Bool-cases (is_gated_out result.0)) [
        | inl t ↦ rw t (tt, resolved.3)
        | inr t ↦
            rw t (
              (resolved.0, resolved.1, passes-Named object result.0 result.1 resolved t),
              resolved.3,
            )
      ]
