-- ===== src/Tests/Filters.antt =====
-- The registry filter, the string copies and the handle gate.
use wazabi_edr_driver.Base.{
  bit_and, ℕ, ◌≢◌, ◌⊎◌, ℕ, ◌≡◌, ◌↔◌, refl, arith, List, [], ◌∷◌, ◌++◌, true, false, some,
  if◌then◌else◌, ltb, min, length, take, replicate,
}
use wazabi_edr_driver.Wdk.{UnicodeString}
use wazabi_edr_driver.State.{World, loaded, add_u32}
use wazabi_edr_driver.Events.{HandleAccessOp}
use wazabi_edr_driver.Callbacks.Process.{zeroed, copy_units, copy_unicode_string_into}
use wazabi_edr_driver.Callbacks.Process.Copy.{copy_unicode_string_into_lem, copy_units-cut}
use wazabi_edr_driver.Callbacks.Object.{
  dangerous_process_mask, OperationParameters, PreOperationInformation, emit_handle_access,
  target_pid_of, process_object_notify, preop_success,
}
use wazabi_edr_driver.Callbacks.Object.Gate.{process_object_notify_lem}
use wazabi_edr_driver.Callbacks.Registry.Prefix.{
  codes, critical_registry_prefixes, is_interesting_path,
}
use wazabi_edr_driver.Callbacks.Registry.Prefix.Matching.{
  StartsWithAny, is_interesting_path-StartsWithAny, is_interesting_path-append,
}
use wazabi_edr_driver.Tests.Setting.{kernel, ring_memory, pool_memory, irp_memory}

abbrev user_key : List ℕ
user_key = codes "\\Registry\\User\\S-1-5"

abbrev lower_key : List ℕ
lower_key = codes "\\registry\\user\\s-1-5"

user_key_test : is_interesting_path user_key ≡ true
unfolding is_interesting_path
user_key_test = refl

-- Neither the driver's hardware keys nor a cut prefix are watched.
hardware_key_test : is_interesting_path (codes "\\REGISTRY\\MACHINE\\HARDWARE") ≡ false
unfolding is_interesting_path
hardware_key_test = refl

cut_key_test : is_interesting_path (codes "\\REGISTRY\\USE") ≡ false
unfolding is_interesting_path
cut_key_test = refl

is_interesting_path-StartsWithAny_example :
    (is_interesting_path user_key ≡ true) ↔ StartsWithAny user_key critical_registry_prefixes
is_interesting_path-StartsWithAny_example = is_interesting_path-StartsWithAny user_key

is_interesting_path-append_example : is_interesting_path (user_key ++ 88 ∷ []) ≡ true
is_interesting_path-append_example = is_interesting_path-append user_key (88 ∷ []) user_key_test

abbrev idle : World
idle = loaded ring_memory pool_memory irp_memory

-- Five units, for an array of four.
abbrev name : UnicodeString
name = record { length_bytes = 10; buffer = some (97 ∷ 98 ∷ 99 ∷ 100 ∷ 101 ∷ []) }

copy_unicode_string_into_lem_example :
    let ((dst, len), w') = copy_unicode_string_into (some name) 4 (zeroed 4) idle in
    (length dst ≡ 4)
    × (len ≡ min 5 3)
    × (take len dst ≡ take len (97 ∷ 98 ∷ 99 ∷ 100 ∷ 101 ∷ []))
    × (w'.trunc_count ≡ (if ltb 3 5 then add_u32 idle.trunc_count 1 else idle.trunc_count))
copy_unicode_string_into_lem_example =
    copy_unicode_string_into_lem name (97 ∷ 98 ∷ 99 ∷ 100 ∷ 101 ∷ []) 4 idle refl (ground arith)
      (omega arith) (omega arith) (omega arith)

copy_units-cut_example :
    (copy_units (97 ∷ 98 ∷ 99 ∷ 100 ∷ 101 ∷ []) 5 4 (replicate 4 0) idle).0
    ≡ (copy_units (97 ∷ 98 ∷ 99 ∷ []) 3 4 (replicate 4 0) idle).0
copy_units-cut_example =
    copy_units-cut (97 ∷ 98 ∷ 99 ∷ 100 ∷ 101 ∷ []) 5 4 (replicate 4 0) idle (omega arith)

-- Opening process 9 from process 4 with PROCESS_VM_READ, and with PROCESS_QUERY_LIMITED_INFORMATION.
abbrev parameters : ℕ → OperationParameters
parameters mask = record {
  create_handle_information = record { desired_access = mask; original_desired_access = mask };
  duplicate_handle_information = record { desired_access = 0; original_desired_access = 0 };
}

abbrev opening : ℕ → PreOperationInformation
opening mask = record {
  kernel_handle = 0;
  object = 9;
  operation = 1;
  parameters = some (parameters mask);
}

process_object_notify_lem_example :
    let result = process_object_notify kernel (some (opening 0x10)) idle in
    let mask : ℕ = 0x10 in
    let emits =
      ((opening 0x10).kernel_handle ≡ 0)
      × (target_pid_of kernel 9 ≢ 4)
      × (bit_and mask dangerous_process_mask ≢ 0) in
    (emits
      × (result ≡ (
        preop_success,
        (emit_handle_access kernel 4 9 0x10 0x10 HandleAccessOp.create idle).1,
      )))
    ⊎ (¬ emits × (result ≡ (preop_success, idle)))
unfolding target_pid_of
process_object_notify_lem_example =
    process_object_notify_lem kernel idle (opening 0x10) (parameters 0x10) refl
