-- ===== src/Controller/Machine.antt =====
-- internal/controller/vultrmachine_controller.go
pub mod Identity
pub mod Deletion
pub mod Readiness
pub mod Requeue
pub mod Terminal
pub mod Keeps
pub mod Launch
pub mod History
pub mod Progress
pub mod Spec
use cluster_api_provider_vul.Base.{
  ℕ, String, Bool, true, false, not, ◌&&◌, ◌||◌, List, [], ◌∷◌, ◌++◌, ◌==◌, string_eq,
  if◌then◌else◌, Option, none, some, GoError, errorf, wrapf, plain, sprintf, str, Outcome, ok, err,
  panic, out_of_fuel,
}
use cluster_api_provider_vul.Base.Exec.{Exec, pure, raise, call, on_error, ◌>>=◌, ◌>>◌}
use cluster_api_provider_vul.Api.Status.{subscription_pending, subscription_active}
use cluster_api_provider_vul.Api.Conditions.{
  condition_true, condition_false, condition_unknown, Message, formatted, of_error, ready_condition,
  waiting_for_cluster_infrastructure_reason, waiting_for_bootstrap_data_reason,
  waiting_for_load_balancer_reason, deleting_reason, unexpected_status_reason,
  instance_pending_reason, instance_active_reason, instance_creation_failed_reason,
  instance_not_found_reason,
}
use cluster_api_provider_vul.Api.Machine.{get_conditions, VultrMachine, machine_finalizer}
use cluster_api_provider_vul.Govultr.{Instance}
use cluster_api_provider_vul.Kube.{
  CapiMachine, Platform, Env, normal, warning, ReconcileResult, done, requeue_in,
  infrastructure_ready_condition,
}
use cluster_api_provider_vul.Kube.Actions.{get_object, modify, emit, in_world, fail_with}
use cluster_api_provider_vul.Scope.Bootstrap.{machine_role}
use cluster_api_provider_vul.Scope.Cluster.{ClusterScope, api_server_loadbalancers_ref}
use cluster_api_provider_vul.Scope.Machine.{
  is_control_plane, role, MachineScope, set_ready, set_provisioned, set_ready_condition,
  set_terminal_failure, has_terminal_failure, add_finalizer, remove_finalizer, get_instance_id,
  set_provider_id, set_instance_status, set_addresses, set_cpu, set_ram, set_storage,
}
use cluster_api_provider_vul.Services.LoadBalancer.{ensure_load_balancer_member}
use cluster_api_provider_vul.Services.Instance.{
  get_instance, find_instance_for_machine, create_instance, delete_instance, get_instance_address,
}

-- `loadBalancerRequeue` and `notFoundRequeue`, in seconds
abbrev pub load_balancer_requeue : ℕ
load_balancer_requeue = 15

abbrev pub not_found_requeue : ℕ
not_found_requeue = 30

abbrev pub pending_requeue : ℕ
pending_requeue = 10

module _ {W : Type 0} (p : Platform W) (sc : ClusterScope) (ms : MachineScope) where
  abbrev Action : Type 0 → Type 0
  Action A = Exec (Env W VultrMachine) A

  set_ready_message : String → String → Action (Unit {0})
  set_ready_message reason message =
      modify (set_ready_condition p.lib condition_false reason (formatted (plain message)))

  -- The branch of `findOrCreateInstance` for a known id that Vultr reports missing.
  report_missing : String → Action (Option Instance)
  report_missing id = do
    m ← get_object
    if not (p.lib.is_false (get_conditions m) ready_condition)
          || not (p.lib.get_reason (get_conditions m) ready_condition == instance_not_found_reason)
        then emit warning "InstanceNotFound" "NotFound"
        else pure tt
    modify (
        set_ready_condition p.lib condition_false instance_not_found_reason
          (formatted (sprintf "instance %s not found, checking again" (str id ∷ []))))
    pure none

  create_new : Action (Option Instance)
  create_new = do
    emit normal "InstanceCreating" "Creating"
    m ← get_object
    on_error (in_world (create_instance p sc ms.machine m))
        (λ e. do
          emit warning "InstanceCreatingError" "CreateFailed"
          modify (
              set_ready_condition p.lib condition_false instance_creation_failed_reason
                (of_error e))
          modify (set_provisioned false)
          raise e)
        (λ i. do emit normal "InstanceCreated" "Created"; pure (some i))

  unfoldable pub find_or_create_instance : Action (Option Instance)
  unfolding ◌>>=◌ on_error get_object modify emit in_world report_missing create_new
  find_or_create_instance = do
    m ← get_object
    let id = get_instance_id m
    if id == ""
        then (do
          existing ← in_world (find_instance_for_machine p sc m.name (role p ms))
          elim existing [
            | some i ↦ (do emit normal "InstanceAdopted" "Adopted"; pure (some i))
            | none ↦ create_new
          ])
        else (do
          known ← in_world (get_instance p id)
          elim known [ some i ↦ pure (some i) | none ↦ report_missing id ])

  -- `PatchObject` and `Close`
  unfoldable pub patch_object : Action (Unit {0})
  unfolding ◌>>=◌ get_object in_world fail_with
  patch_object = do
    m ← get_object
    failure ← in_world (call (p.kube.patch_machine m))
    in_world (fail_with failure)

  -- The id is persisted before anything else is done with the instance.
  unfoldable pub persist_id : Instance → Action (Unit {0})
  unfolding ◌>>=◌ on_error get_object modify
  persist_id i = do
    m ← get_object
    if get_instance_id m == i.id then pure tt else do
      modify (set_provider_id i.id)
      on_error patch_object
          (λ e.
            raise
              (wrapf (sprintf "failed to persist provider ID for instance %s" (str i.id ∷ [])) e))
          pure

  unfoldable pub record_details : Instance → Action (Unit {0})
  unfolding ◌>>=◌ modify emit
  record_details i = do
    modify (set_instance_status i.status)
    modify (set_cpu i.vcpu_count)
    modify (set_ram i.ram)
    modify (set_storage i.disk)
    emit normal "SetInstanceStatus" "Set"

  wait_for_load_balancer : String → Action Bool
  wait_for_load_balancer message = do
    set_ready_message waiting_for_load_balancer_reason message
    pure false

  join_known : String → Instance → Action Bool
  join_known lb_id i = do
    member ←
        on_error (in_world (ensure_load_balancer_member p lb_id i.id))
          (λ e. do emit warning "LoadBalancerMemberFailed" "Failed"; raise e) pure
    if member
        then pure true
        else wait_for_load_balancer "Waiting for the load balancer to become active"

  -- The control plane's part of `reconcileNormal`: false is a return with `loadBalancerRequeue`.
  unfoldable pub join_load_balancer : Instance → Action Bool
  unfolding ◌>>=◌ on_error modify emit in_world wait_for_load_balancer set_ready_message join_known
  join_load_balancer i =
      let lb_id = (api_server_loadbalancers_ref sc.vultr_cluster).resource_id in
      if is_control_plane p.lib ms
      then if lb_id == ""
        then wait_for_load_balancer "Waiting for the load balancer to be created"
        else join_known lb_id i
      else pure true

  -- The addresses, and the switch on the status that ends `reconcileNormal`.
  unfoldable pub report_status : Instance → Action ReconcileResult
  unfolding ◌>>=◌ modify emit
  report_status i = do
    emit normal "GetInstanceAddress" "Getting"
    modify (set_addresses (get_instance_address i))
    emit normal "GetInstanceAddressSuccess" "Retrieved"
    if i.status == subscription_pending
        then (do
          modify (
              set_ready_condition p.lib condition_unknown instance_pending_reason
                (formatted (plain "Instance is provisioning")))
          pure (requeue_in pending_requeue))
        else if i.status == subscription_active
        then (do
          modify (
              set_ready_condition p.lib condition_true instance_active_reason
                (formatted (plain "Instance is active")))
          modify set_ready
          modify (set_provisioned true)
          pure done)
        else (do
          modify (
              set_terminal_failure p.lib unexpected_status_reason
                (formatted (sprintf "Instance status %q is unexpected" (str i.status ∷ []))))
          pure done)

  -- `reconcileNormal` from the instance on
  unfoldable pub reconcile_instance : Instance → Action ReconcileResult
  unfolding ◌>>=◌
  reconcile_instance i = do
    persist_id i
    record_details i
    joined ← join_load_balancer i
    if joined then report_status i else pure (requeue_in load_balancer_requeue)

  -- `reconcileNormal` once the bootstrap data secret is named
  reconcile_bootstrapped : Action ReconcileResult
  reconcile_bootstrapped = do
    instance' ← find_or_create_instance
    elim instance' [ none ↦ pure (requeue_in not_found_requeue) | some i ↦ reconcile_instance i ]

  reconcile_bootstrap : Option String → Action ReconcileResult
  reconcile_bootstrap none = do
    set_ready_message waiting_for_bootstrap_data_reason "Waiting for bootstrap data"
    pure done
  reconcile_bootstrap (some name) = reconcile_bootstrapped

  reconcile_infrastructure : Bool → Action ReconcileResult
  reconcile_infrastructure true = reconcile_bootstrap ms.machine.data_secret_name
  reconcile_infrastructure false = do
    set_ready_message waiting_for_cluster_infrastructure_reason "Waiting for cluster infrastructure"
    pure done

  unfoldable pub reconcile_normal : Action ReconcileResult
  unfolding ◌>>=◌ get_object modify set_ready_message reconcile_bootstrapped reconcile_bootstrap
      reconcile_infrastructure
  reconcile_normal = do
    m ← get_object
    if has_terminal_failure p.lib m then pure done else do
      modify (add_finalizer p.lib machine_finalizer)
      reconcile_infrastructure (p.lib.is_true ms.cluster.conditions infrastructure_ready_condition)

  -- The deletion by id, with the events: whether the instance was deleted.
  unfoldable pub delete_by_id : String → Action Bool
  unfolding ◌>>=◌ on_error emit in_world
  delete_by_id id = if id == "" then pure false else do
    deleted ←
        on_error (in_world (delete_instance p id))
          (λ e. do emit warning "InstanceDeleteFailed" "DeleteFailed"; raise e) pure
    if deleted then emit normal "InstanceDeleted" "Deleted" else pure tt
    pure deleted

  finish_delete : Bool → Action ReconcileResult
  finish_delete deleted = do
    if deleted then pure tt else emit normal "NoInstanceFound" "NotFound"
    modify (remove_finalizer p.lib machine_finalizer)
    pure done

  -- The switch of `reconcileDelete` on what is still listed.
  delete_remaining : String → Bool → Option Instance → Action ReconcileResult
  delete_remaining id deleted none = finish_delete deleted
  delete_remaining id deleted (some remaining) =
      if remaining.id == id then pure (requeue_in not_found_requeue) else do
        in_world (delete_instance p remaining.id)
        emit normal "InstanceDeleted" "Deleted"
        pure (requeue_in not_found_requeue)

  unfoldable pub reconcile_delete : Action ReconcileResult
  unfolding ◌>>=◌ get_object modify in_world set_ready_message delete_remaining finish_delete emit
  reconcile_delete = do
    set_ready_message deleting_reason "Deleting the instance"
    m ← get_object
    let id = get_instance_id m
    deleted ← delete_by_id id
    remaining ← in_world (find_instance_for_machine p sc m.name (role p ms))
    delete_remaining id deleted remaining
