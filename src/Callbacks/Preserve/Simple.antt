-- ===== src/Callbacks/Preserve/Simple.antt =====
-- The thread and object callbacks, and process exits: no strings to copy.
use wazabi_edr_driver.Base.{
  ℕ, ◌≡◌, ◌≢◌, refl, arith, Option-cases, List, Option, none, some, ◌==◌, bit_and, inl, inr,
  Bool-cases, not, false, if◌then◌else◌,
}
use wazabi_edr_driver.Wdk.{Ptr, Kernel, as_u32}
use wazabi_edr_driver.State.{World}
use wazabi_edr_driver.Events.{HandleAccessOp, handle_access_op_code}
use wazabi_edr_driver.Callbacks.Kept.{Kept, Covers, emit-Kept}
use wazabi_edr_driver.Events.Event.{Event}
use wazabi_edr_driver.Callbacks.Described.{
  OfThread, OfProcess, OfObject, IsDangerous, pid_of_object, masks_of,
}
use wazabi_edr_driver.Callbacks.Thread.{emit_thread_create, emit_thread_exit, thread_notify}
use wazabi_edr_driver.Callbacks.Process.{emit_process_exit}
use wazabi_edr_driver.Callbacks.Object.{
  OperationParameters, AccessMasks, decode_operation, target_pid_of, observe_parameters,
  dangerous_process_mask, PreOperationInformation, emit_handle_access, gate_access,
  observe_operation, process_object_notify,
}

-- What the code makes of the object, of the masks' bits and of the operation.
pub target_pid_of-pid : (k : Kernel) (o : Ptr) → target_pid_of k o ≡ pid_of_object k o
unfolding target_pid_of
target_pid_of-pid k o = refl

pub target_pid_of-other :
    (k : Kernel) (o : Ptr) (current : ℕ) → target_pid_of k o ≢ current → pid_of_object k o ≢ current
unfolding target_pid_of
target_pid_of-other k o current n = n

pub mask-rights :
    (mask : ℕ) → (bit_and mask dangerous_process_mask == 0) ≡ false → bit_and mask 0x87B ≢ 0
mask-rights mask e = ground arith

pub decode_operation-views :
    (operation : ℕ) (params : OperationParameters)
    → let (op, masks) = decode_operation operation params in
      (masks ≡ masks_of operation params)
      × (handle_access_op_code op ≡ (if operation == 1 then 1 else 2))
unfolding decode_operation
decode_operation-views operation params = elim (Bool-cases (operation == 1)) [
  | inl e ↦ rw e (refl, refl)
  | inr e ↦ rw e (refl, refl)
]

module _ {k : Kernel} {Good : Event → Type 0} {P : List Ptr → World → Type 0} (kept : Kept k Good P)
    (held : List Ptr) (w : World) (q : P held w) where
  pub thread_notify-Kept :
      (process_id thread_id : Ptr) (create : ℕ)
      → Covers Good (OfThread k process_id thread_id create)
      → P held (thread_notify k process_id thread_id create w).1
  unfolding thread_notify emit_thread_create emit_thread_exit
  thread_notify-Kept process_id thread_id create good = elim (Bool-cases (not (create == 0))) [
    | inl e ↦ rw e (
        emit-Kept kept held _ _ _ w
          (λ p h w' hf q'.
            kept.submits held p _ w'
              (good _ (record { header = hf; arrays = tt })
                (OfThread.starts h w'.log (ground arith)))
              q')
          q)
    | inr e ↦ rw e (
        emit-Kept kept held _ _ _ w
          (λ p h w' hf q'.
            kept.submits held p _ w'
              (good _ (record { header = hf; arrays = tt }) (OfThread.ends h (ground arith))) q')
          q)
  ]

  pub emit_process_exit-Kept :
      (process process_id : Ptr)
      → Covers Good (OfProcess k process process_id none)
      → P held (emit_process_exit k (as_u32 process_id) process w).1
  unfolding emit_process_exit
  emit_process_exit-Kept process process_id good =
      emit-Kept kept held _ _ _ w
        (λ p h w' hf q'.
          kept.submits held p _ w'
            (good _ (record { header = hf; arrays = tt }) (OfProcess.exits h)) q')
        q

  module _ (info : PreOperationInformation) (good : Covers Good (OfObject k (some info)))
      (user : info.kernel_handle ≡ 0)
      (other : target_pid_of k info.object ≢ as_u32 (k.ps_get_current_process_id w.log)) where
    -- A harmless mask leaves the driver alone.
    gate_access-Kept :
        (params : OperationParameters) (op : HandleAccessOp) (masks : AccessMasks)
        → info.parameters ≡ some params
        → masks ≡ masks_of info.operation params
        → handle_access_op_code op ≡ (if info.operation == 1 then 1 else 2)
        → P held
            (gate_access k
              (as_u32 (k.ps_get_current_process_id w.log))
              (target_pid_of k info.object)
              (op, masks)
              w).1
    unfolding gate_access emit_handle_access
    gate_access-Kept params op masks there views code =
        elim (Bool-cases (bit_and masks.original_desired_access dangerous_process_mask == 0)) [
          | inl e ↦ rw e q
          | inr e ↦
              let danger : IsDangerous k _ info masks = record {
                user = user;
                other = target_pid_of-other k info.object _ other;
                asks = (params, there, views);
                rights = mask-rights masks.original_desired_access e;
              } in
              rw e (
                emit-Kept kept held _ _ _ w
                  (λ p h w' hf q'.
                    kept.submits held p _ w'
                      (good _ (record { header = hf; arrays = tt })
                        (OfObject.opens info masks h w.log _ _ danger
                          (target_pid_of-pid k info.object) code))
                      q')
                  q)
        ]

    -- So do missing parameters.
    observe_parameters-Kept :
        P held
          (observe_parameters k
            (as_u32 (k.ps_get_current_process_id w.log))
            (target_pid_of k info.object)
            info.operation
            info.parameters
            w).1
    unfolding observe_parameters
    observe_parameters-Kept = elim (Option-cases info.parameters) [
      | inl b ↦ rw b q
      | inr (params, b) ↦
          let (views, code) = decode_operation-views info.operation params in
          rw b (gate_access-Kept params _ _ b views code)
    ]

  -- So do a kernel handle, and a handle of the process to itself.
  observe_operation-Kept :
      (info : PreOperationInformation)
      → Covers Good (OfObject k (some info))
      → P held (observe_operation k info w).1
  unfolding observe_operation
  observe_operation-Kept info good = elim (Bool-cases (not (info.kernel_handle == 0))) [
    | inl e ↦ rw e q
    | inr e ↦
        rw e
          (elim (Bool-cases
            (target_pid_of k info.object == as_u32 (k.ps_get_current_process_id w.log))) [
              | inl s ↦ rw s q
              | inr s ↦
                  let user : info.kernel_handle ≡ 0 = ground arith in
                  let other : target_pid_of k info.object
                      ≢ as_u32 (k.ps_get_current_process_id w.log) =
                    ground arith in
                  rw s (observe_parameters-Kept info good user other)
            ])
  ]

  pub process_object_notify-Kept :
      (info : Option PreOperationInformation)
      → Covers Good (OfObject k info)
      → P held (process_object_notify k info w).1
  unfolding process_object_notify
  process_object_notify-Kept none good = q
  process_object_notify-Kept (some i) good = observe_operation-Kept i good
