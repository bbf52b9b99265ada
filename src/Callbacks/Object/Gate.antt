-- ===== src/Callbacks/Object/Gate.antt =====
-- Which handle operations make an event, and that none is ever refused.
use wazabi_edr_driver.Base.{
  ℕ_discrete, inl, inr, ℕ, ◌≡◌, ◌≢◌, ◌⊎◌, arith, some, bit_and, if◌then◌else◌, ◌==◌,
}
use wazabi_edr_driver.Wdk.{Kernel, as_u32}
use wazabi_edr_driver.State.{World}
use wazabi_edr_driver.Events.{HandleAccessOp}
use wazabi_edr_driver.Callbacks.Object.{
  dangerous_process_mask, ob_operation_handle_create, AccessMasks, OperationParameters,
  PreOperationInformation, emit_handle_access, process_object_notify, decode_operation,
  preop_success, target_pid_of,
}

module _ (k : Kernel) (w : World) (info : PreOperationInformation)
    (params : OperationParameters) where
  abbrev source : ℕ
  source = as_u32 (k.ps_get_current_process_id w.log)

  abbrev target : ℕ
  target = target_pid_of k info.object

  abbrev masks : AccessMasks
  masks =
      if info.operation == ob_operation_handle_create
      then params.create_handle_information
      else params.duplicate_handle_information

  abbrev op : HandleAccessOp
  op =
      if info.operation == ob_operation_handle_create
      then HandleAccessOp.create
      else HandleAccessOp.duplicate

  -- A user-mode handle operation on another process, with its parameters and with a dangerous right
  -- in the originally desired access, runs the emitter once, with both process ids and both masks of
  -- the operation's own parameters; and the operation is let through.
  pub process_object_notify-emits :
      info.kernel_handle ≡ 0
      → info.parameters ≡ some params
      → target ≢ source
      → bit_and masks.original_desired_access dangerous_process_mask ≢ 0
      → process_object_notify k (some info) w ≡ (
        preop_success,
        (emit_handle_access k source target masks.desired_access masks.original_desired_access op
            w).1,
      )
  unfolding process_object_notify decode_operation
  process_object_notify-emits user p other danger = rw p (ground arith)

  -- With parameters there, a kernel handle, an operation on the caller's own process, or one that
  -- originally desired no dangerous right changes nothing; and the operation is let through.
  pub process_object_notify-ignores :
      info.parameters ≡ some params
      → (info.kernel_handle ≢ 0)
        ⊎ (target ≡ source)
        ⊎ (bit_and masks.original_desired_access dangerous_process_mask ≡ 0)
      → process_object_notify k (some info) w ≡ (preop_success, w)
  unfolding process_object_notify decode_operation
  process_object_notify-ignores p why = rw p (ground arith)

  -- With its parameters there, a handle operation is let through, and either runs the emitter once, with
  -- both process ids and both masks of the operation's own parameters, or changes nothing. It runs the
  -- emitter when the handle is a user-mode one on another process and a dangerous right was originally
  -- desired, and changes nothing when one of these fails.
  pub process_object_notify_lem :
      info.parameters ≡ some params
      → let result = process_object_notify k (some info) w in
        let emits =
          (info.kernel_handle ≡ 0)
          × (target ≢ source)
          × (bit_and masks.original_desired_access dangerous_process_mask ≢ 0) in
        (emits
          × (result ≡ (
            preop_success,
            (emit_handle_access k source target masks.desired_access masks.original_desired_access
                op w).1,
          )))
        ⊎ (¬ emits × (result ≡ (preop_success, w)))
  process_object_notify_lem p = elim (ℕ_discrete info.kernel_handle 0) [
    | no h ↦ inr (λ e. h e.0, process_object_notify-ignores p (inl h))
    | yes user ↦ elim (ℕ_discrete target source) [
      | yes own ↦ inr (λ e. e.1 own, process_object_notify-ignores p (inr (inl own)))
      | no other ↦
          elim (ℕ_discrete (bit_and masks.original_desired_access dangerous_process_mask) 0) [
            | yes safe ↦ inr (λ e. e.2 safe, process_object_notify-ignores p (inr (inr safe)))
            | no danger ↦
                inl ((user, other, danger), process_object_notify-emits user p other danger)
          ]
    ]
  ]
