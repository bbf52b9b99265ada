-- ===== src/Safety/Attempts/Reportable.antt =====
-- Which notifications are to be reported, and that the tests of src/callbacks decide it.
use wazabi_edr_driver.Base.{
  ℕ, ◌≡◌, ◌≢◌, ◌<◌, ◌∙◌, ◌^◌, ◌⊎◌, refl, sym, ap, subst, arith, List, [], ◌∷◌, Option, none, some,
  Option-cases, Bool, true, false, not, ◌&&◌, ◌==◌, Bool-cases, inl, inr, bit_and, take, ◌-◌, ◌/◌,
}
use wazabi_edr_driver.Wdk.{Ptr, null, Kernel, UnicodeString, as_u32, is_negative}
use wazabi_edr_driver.State.{World}
use wazabi_edr_driver.Events.{registry_key_path_max}
use wazabi_edr_driver.Callbacks.Described.{text_of, masks_of, IsDangerous}
use wazabi_edr_driver.Callbacks.Object.{
  AccessMasks, OperationParameters, PreOperationInformation, decode_operation, target_pid_of,
  dangerous_process_mask,
}
use wazabi_edr_driver.Callbacks.Preserve.Simple.{
  target_pid_of-other, target_pid_of-pid, mask-rights, decode_operation-views,
}
use wazabi_edr_driver.Callbacks.Registry.{
  Notification, pre_set_value_key, pre_delete_value_key, pre_delete_key, pre_rename_key,
  pre_create_key_ex, other_class,
}
use wazabi_edr_driver.Callbacks.Registry.Prefix.{
  is_interesting_unicode_string, is_interesting_path, critical_registry_prefixes,
}
use wazabi_edr_driver.Callbacks.Registry.Prefix.Matching.{
  StartsWithAny, is_interesting_path-StartsWithAny,
}
use wazabi_edr_driver.System.{Request, io, on_process, on_image, on_registry, on_thread, on_object}
use wazabi_edr_driver.Safety.Attempts.Keys.{watched, empty-uninteresting}

-- The kernel names the key's object, and the name, cut to the room that there is, starts with a watched
-- prefix.
abbrev pub WatchesKey : Kernel → World → Ptr → Type 0
WatchesKey k w object =
    let answer = k.cm_callback_get_key_object_id_ex w.log w.registry_callback_cookie object in
    (object ≢ null)
    × (answer.status < 2 ^ 31)
    × StartsWithAny (take (registry_key_path_max - 1) (text_of answer.name))
        critical_registry_prefixes

-- A change of a watched key.
abbrev pub WatchesChange : Kernel → World → Notification → Type 0
WatchesChange k w (pre_set_value_key (some info)) = WatchesKey k w info.object
WatchesChange k w (pre_delete_value_key (some info)) = WatchesKey k w info.object
WatchesChange k w (pre_delete_key (some info)) = WatchesKey k w info.object
WatchesChange k w (pre_rename_key (some info)) = WatchesKey k w info.object
WatchesChange k w (pre_create_key_ex (some info)) =
    StartsWithAny (text_of info.complete_name) critical_registry_prefixes
WatchesChange k w _ = ⊥

abbrev pub OpensDangerously : Kernel → World → Option PreOperationInformation → Type 0
OpensDangerously k w none = ⊥
OpensDangerously k w (some info) =
    (masks : AccessMasks) × IsDangerous k (as_u32 (k.ps_get_current_process_id w.log)) info masks

-- What the driver has to report, said without its code.
abbrev pub IsReportable : Kernel → World → Request → Type 0
IsReportable k w (io routine irp) = ⊥
IsReportable k w (on_process process pid info) = Unit
IsReportable k w (on_image name pid info) = Unit
IsReportable k w (on_registry n) = WatchesChange k w n
IsReportable k w (on_thread pid tid create) = Unit
IsReportable k w (on_object info) = OpensDangerously k w info

-- The code's tests of a handle.
abbrev pub is_dangerous : Kernel → World → Option PreOperationInformation → Bool
is_dangerous k w none = false
is_dangerous k w (some info) =
    (info.kernel_handle == 0)
    && (not (target_pid_of k info.object == as_u32 (k.ps_get_current_process_id w.log))
        && elim info.parameters [
          | none ↦ false
          | some params ↦ not (
              bit_and (decode_operation info.operation params).1.original_desired_access
                dangerous_process_mask
              == 0)
        ])

-- The code's tests of a change.
abbrev pub is_watched : Kernel → World → Notification → Bool
is_watched k w (pre_set_value_key (some info)) = watched k w info.object
is_watched k w (pre_delete_value_key (some info)) = watched k w info.object
is_watched k w (pre_delete_key (some info)) = watched k w info.object
is_watched k w (pre_rename_key (some info)) = watched k w info.object
is_watched k w (pre_create_key_ex (some info)) = is_interesting_unicode_string info.complete_name
is_watched k w _ = false

-- What the code's tests let through.
abbrev pub is_reportable : Kernel → World → Request → Bool
is_reportable k w (io routine irp) = false
is_reportable k w (on_process process pid info) = true
is_reportable k w (on_image name pid info) = true
is_reportable k w (on_registry n) = is_watched k w n
is_reportable k w (on_thread pid tid create) = true
is_reportable k w (on_object info) = is_dangerous k w info

-- A test that answers whether something is so.
abbrev pub Decides : Bool → Type 0 → Type 0
Decides b A = ((b ≡ true) × A) ⊎ ((b ≡ false) × (¬ A))

empty-unwatched : ¬ StartsWithAny [] critical_registry_prefixes
empty-unwatched s =
    let found = (is_interesting_path-StartsWithAny []).1 s in
    absurd (let none_ = empty-uninteresting in ground arith)

is_interesting_path-Decides :
    (path : List ℕ)
    → Decides (is_interesting_path path) (StartsWithAny path critical_registry_prefixes)
is_interesting_path-Decides path =
    let (to, from) = is_interesting_path-StartsWithAny path in
    elim (Bool-cases (is_interesting_path path)) [
      | inl t ↦ inl (t, to t)
      | inr f ↦ inr (f, λ s. (let t = from s in absurd (ground arith)))
    ]

is_interesting_unicode_string-Decides :
    (name : Option UnicodeString)
    → Decides
        (is_interesting_unicode_string name)
        (StartsWithAny (text_of name) critical_registry_prefixes)
unfolding is_interesting_unicode_string
is_interesting_unicode_string-Decides none = inr (refl, empty-unwatched)
is_interesting_unicode_string-Decides (some s) = elim (Option-cases s.buffer) [
  | inl b ↦ rw b (inr (refl, empty-unwatched))
  | inr (units, b) ↦ rw b (elim (Bool-cases (s.length_bytes == 0)) [
    | inl z ↦
        let nothing : s.length_bytes / 2 ≡ 0 = ground arith in
        rw z (rw nothing (inr (refl, none_of units)))
    | inr n ↦ rw n (is_interesting_path-Decides (take (s.length_bytes / 2) units))
  ])
]
  where
    none_of : (units : List ℕ) → ¬ StartsWithAny (take 0 units) critical_registry_prefixes
    none_of [] = empty-unwatched
    none_of (u ∷ us) = empty-unwatched

module _ (k : Kernel) (w : World) where
  watched-Decides : (object : Ptr) → Decides (watched k w object) (WatchesKey k w object)
  watched-Decides object =
      let answer = k.cm_callback_get_key_object_id_ex w.log w.registry_callback_cookie object in
      elim (Bool-cases (object == null)) [
        | inl z ↦ inr (ground arith, λ (real, done, s). absurd (ground arith))
        | inr n ↦ elim (Bool-cases (is_negative answer.status)) [
          | inl f ↦ inr (ground arith, λ (real, done, s). absurd (ground arith))
          | inr f ↦
              elim (is_interesting_path-Decides
                (take (registry_key_path_max - 1) (text_of answer.name))) [
                  | inl (t, s) ↦ inl (ground arith, (ground arith, ground arith, s))
                  | inr (t, no_) ↦ inr (ground arith, λ (real, done, s). no_ s)
                ]
        ]
      ]

  is_watched-Decides : (n : Notification) → Decides (is_watched k w n) (WatchesChange k w n)
  is_watched-Decides (pre_set_value_key none) = inr (refl, λ a. a)
  is_watched-Decides (pre_set_value_key (some info)) = watched-Decides info.object
  is_watched-Decides (pre_delete_value_key none) = inr (refl, λ a. a)
  is_watched-Decides (pre_delete_value_key (some info)) = watched-Decides info.object
  is_watched-Decides (pre_delete_key none) = inr (refl, λ a. a)
  is_watched-Decides (pre_delete_key (some info)) = watched-Decides info.object
  is_watched-Decides (pre_rename_key none) = inr (refl, λ a. a)
  is_watched-Decides (pre_rename_key (some info)) = watched-Decides info.object
  is_watched-Decides (pre_create_key_ex none) = inr (refl, λ a. a)
  is_watched-Decides (pre_create_key_ex (some info)) =
      is_interesting_unicode_string-Decides info.complete_name
  is_watched-Decides (other_class c) = inr (refl, λ a. a)

  no_rights :
      (mask : ℕ) → (bit_and mask dangerous_process_mask == 0) ≡ true → bit_and mask 0x87B ≡ 0
  no_rights mask e = ground arith

  -- The masks of the parameters that there are.
  asked-masks :
      (info : PreOperationInformation) (params : OperationParameters) (masks : AccessMasks)
      → info.parameters ≡ some params
      → (p : OperationParameters) × (info.parameters ≡ some p) × (masks ≡ masks_of info.operation p)
      → masks ≡ (decode_operation info.operation params).1
  asked-masks info params masks b (p, there, is) =
      let same : p ≡ params = ground arith in
      is ∙ ap (masks_of info.operation) same ∙ sym (decode_operation-views info.operation params).0

  decode_operation-Decides :
      (info : PreOperationInformation) (params : OperationParameters)
      → info.parameters ≡ some params
      → info.kernel_handle ≡ 0
      → target_pid_of k info.object ≢ as_u32 (k.ps_get_current_process_id w.log)
      → Decides
          (not (
            bit_and
              (decode_operation info.operation params).1.original_desired_access
              dangerous_process_mask
            == 0))
          (OpensDangerously k w (some info))
  decode_operation-Decides info params b user other =
      let decoded = (decode_operation info.operation params).1 in
      elim (Bool-cases (bit_and decoded.original_desired_access dangerous_process_mask == 0)) [
        | inl safe ↦ inr (
          ap not safe,
          λ (masks, d). d.rights (
              ap (λ m. bit_and m.original_desired_access 0x87B)
                (asked-masks info params masks b d.asks)
              ∙ no_rights decoded.original_desired_access safe),
        )
        | inr danger ↦ inl (
          ap not danger,
          (
            decoded,
            record {
              user = user;
              other = target_pid_of-other k info.object _ other;
              asks = (params, b, (decode_operation-views info.operation params).0);
              rights = mask-rights decoded.original_desired_access danger;
            },
          ),
        )
      ]

  is_dangerous-rights :
      (info : PreOperationInformation) (params : OperationParameters)
      → info.parameters ≡ some params
      → (info.kernel_handle == 0) ≡ true
      → (target_pid_of k info.object == as_u32 (k.ps_get_current_process_id w.log)) ≡ false
      → is_dangerous k w (some info)
        ≡ not (
            bit_and
              (decode_operation info.operation params).1.original_desired_access
              dangerous_process_mask
            == 0)
  is_dangerous-rights info params b t other = rw t (rw other (rw b refl))

  is_dangerous-Decides :
      (info : Option PreOperationInformation)
      → Decides (is_dangerous k w info) (OpensDangerously k w info)
  is_dangerous-Decides none = inr (refl, λ a. a)
  is_dangerous-Decides (some info) =
      let current = as_u32 (k.ps_get_current_process_id w.log) in
      elim (Bool-cases (info.kernel_handle == 0)) [
        | inr f ↦ inr (ground arith, λ (masks, d). absurd (let u = d.user in ground arith))
        | inl t ↦ elim (Bool-cases (target_pid_of k info.object == current)) [
          | inl same ↦ inr (
            ground arith,
            λ (masks, d). d.other (sym (target_pid_of-pid k info.object) ∙ ground arith),
          )
          | inr other ↦ elim (Option-cases info.parameters) [
            | inl b ↦
                inr (
                  ground arith,
                  λ (masks, d). (let (p, there, is) = d.asks in absurd (ground arith)),
                )
            | inr (params, b) ↦
                subst (λ v. Decides v (OpensDangerously k w (some info)))
                  (sym (is_dangerous-rights info params b t other))
                  (decode_operation-Decides info params b (ground arith) (ground arith))
          ]
        ]
      ]

  -- The tests answer what is to be reported.
  pub is_reportable-Decides : (r : Request) → Decides (is_reportable k w r) (IsReportable k w r)
  is_reportable-Decides (io routine irp) = inr (refl, λ a. a)
  is_reportable-Decides (on_process process pid info) = inl (refl, tt)
  is_reportable-Decides (on_image name pid info) = inl (refl, tt)
  is_reportable-Decides (on_registry n) = is_watched-Decides n
  is_reportable-Decides (on_thread pid tid create) = inl (refl, tt)
  is_reportable-Decides (on_object info) = is_dangerous-Decides info
