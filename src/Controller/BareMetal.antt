-- ===== src/Controller/BareMetal.antt =====
-- internal/controller/vultrbaremetalmachine_controller.go
pub mod Deletion
pub mod History
pub mod Identity
pub mod Keeps
pub mod Launch
pub mod Readiness
pub mod Requeue
pub mod Terminal
use cluster_api_provider_vul.Base.{
  ℕ, String, Bool, true, false, not, ◌||◌, [], ◌∷◌, ◌==◌, string_eq, if◌then◌else◌, Option, none,
  some, GoError, plain, sprintf, str,
}
use cluster_api_provider_vul.Base.Exec.{Exec, pure, raise, call, on_error, ◌>>=◌, ◌>>◌}
use cluster_api_provider_vul.Api.Status.{subscription_pending, subscription_active}
use cluster_api_provider_vul.Api.Conditions.{
  condition_true, condition_false, formatted, of_error, ready_condition,
  waiting_for_cluster_infrastructure_reason, waiting_for_bootstrap_data_reason,
  waiting_for_load_balancer_reason, deleting_reason, unexpected_status_reason,
  server_pending_reason, server_active_reason, server_creation_failed_reason,
  server_not_found_reason, vpc_attach_requested_reason, vpc_attach_failed_reason,
}
use cluster_api_provider_vul.Api.BareMetal.{
  get_conditions, VultrBareMetalMachine, bare_metal_machine_finalizer,
}
use cluster_api_provider_vul.Govultr.{BareMetalServer, VpcInfo}
use cluster_api_provider_vul.Kube.{
  Platform, Env, normal, warning, ReconcileResult, done, requeue_in,
}
use cluster_api_provider_vul.Kube.Actions.{get_object, modify, emit, in_world, fail_with}
use cluster_api_provider_vul.Scope.Bootstrap.{machine_role}
use cluster_api_provider_vul.Scope.Cluster.{ClusterScope, api_server_load_balancer_id}
use cluster_api_provider_vul.Scope.BareMetal.{
  is_control_plane, role, BareMetalMachineScope, set_ready, set_provisioned, set_ready_condition,
  set_terminal_failure, has_terminal_failure, add_finalizer, remove_finalizer, get_server_id,
  set_provider_id, set_server_status, set_hardware, set_addresses, set_vpc,
}
use cluster_api_provider_vul.Services.LoadBalancer.{
  ensure_load_balancer_member, remove_load_balancer_member,
}
use cluster_api_provider_vul.Services.CloudConfig.Prepend.{Yaml}
use cluster_api_provider_vul.Services.BareMetal.{
  get_bare_metal_server, find_bare_metal_server_by_tags, create_bare_metal_server,
  delete_bare_metal_server, ensure_bare_metal_vpc, is_terminal_vpc_attach_error,
  get_bare_metal_server_addresses,
}

-- The requeues of the controller, in seconds
abbrev pub bare_metal_pending_requeue : ℕ
bare_metal_pending_requeue = 30

abbrev pub bare_metal_vpc_requeue : ℕ
bare_metal_vpc_requeue = 15

abbrev pub bare_metal_not_found_requeue : ℕ
bare_metal_not_found_requeue = 30

abbrev pub bare_metal_load_balancer_requeue : ℕ
bare_metal_load_balancer_requeue = 15

-- How the attachment of the VPC ends: the reconcile returns, or goes on with what is attached.
pub data Attachment : Type 0 where
  returns : ReconcileResult → Attachment
  continues : Option VpcInfo → Attachment

module _ {W V : Type 0} (p : Platform W) (yaml : Yaml V) (sc : ClusterScope)
    (ms : BareMetalMachineScope) where
  abbrev Action : Type 0 → Type 0
  Action A = Exec (Env W VultrBareMetalMachine) A

  set_ready_message : String → String → Action (Unit {0})
  set_ready_message reason message =
      modify (set_ready_condition p.lib condition_false reason (formatted (plain message)))

  -- The branch of `findOrCreateServer` for a known id that Vultr reports missing.
  report_missing : String → Action (Option BareMetalServer)
  report_missing id = do
    m ← get_object
    if not (p.lib.is_false (get_conditions m) ready_condition)
          || not (p.lib.get_reason (get_conditions m) ready_condition == server_not_found_reason)
        then emit warning "ServerNotFound" "NotFound"
        else pure tt
    modify (
        set_ready_condition p.lib condition_false server_not_found_reason
          (formatted (sprintf "bare metal server %s not found, checking again" (str id ∷ []))))
    pure none

  create_new : Action (Option BareMetalServer)
  create_new = do
    m ← get_object
    on_error (in_world (create_bare_metal_server p yaml sc ms.machine m))
        (λ e. do
          emit warning "ServerCreationFailed" "Failed"
          modify
              (set_ready_condition p.lib condition_false server_creation_failed_reason (of_error e))
          raise e)
        (λ s. do emit normal "ServerCreated" "Created"; pure (some s))

  unfoldable pub find_or_create_server : Action (Option BareMetalServer)
  unfolding ◌>>=◌ on_error get_object modify emit in_world report_missing create_new
  find_or_create_server = do
    m ← get_object
    let id = get_server_id m
    if id == ""
        then (do
          existing ← in_world (find_bare_metal_server_by_tags p sc m.name (role p ms))
          elim existing [
            | some s ↦ (do emit normal "ServerAdopted" "Adopted"; pure (some s))
            | none ↦ create_new
          ])
        else (do
          known ← in_world (get_bare_metal_server p id)
          elim known [ some s ↦ pure (some s) | none ↦ report_missing id ])

  unfoldable pub record_details : BareMetalServer → Action (Unit {0})
  unfolding ◌>>=◌ modify
  record_details s = do
    modify (set_provider_id s.id)
    modify (set_server_status s.status)
    modify (set_hardware s.cpu_count s.ram s.disk)

  attach_failed : GoError → Action Attachment
  attach_failed e =
      if is_terminal_vpc_attach_error p.lib e
      then (do
        emit warning "VPCAttachFailed" "Failed"
        modify (set_terminal_failure p.lib vpc_attach_failed_reason (of_error e))
        pure (returns done))
      else raise e

  attach_outcome : Option VpcInfo → Action Attachment
  attach_outcome none = do
    set_ready_message vpc_attach_requested_reason "Waiting for VPC attachment"
    pure (returns (requeue_in bare_metal_vpc_requeue))
  attach_outcome (some info) = do
    modify (
        set_vpc
          (record { id = info.id; ip_address = info.ip_address; mac_address = info.mac_address }))
    pure (continues (some info))

  -- The VPC's part of `reconcileNormal`
  unfoldable pub attach_vpc : BareMetalServer → Action Attachment
  unfolding ◌>>=◌ on_error get_object modify emit in_world set_ready_message attach_failed
      attach_outcome
  attach_vpc s = do
    m ← get_object
    if m.spec.vpc_id == ""
        then pure (continues none)
        else on_error (in_world (ensure_bare_metal_vpc p s.id m.spec.vpc_id)) attach_failed
            attach_outcome

  wait_for_load_balancer : String → Action Bool
  wait_for_load_balancer message = do
    set_ready_message waiting_for_load_balancer_reason message
    pure false

  join_known : String → BareMetalServer → Action Bool
  join_known lb_id s = do
    member ←
        on_error (in_world (ensure_load_balancer_member p lb_id s.id))
          (λ e. do emit warning "LoadBalancerMemberFailed" "Failed"; raise e) pure
    if member
        then pure true
        else wait_for_load_balancer "Waiting for the load balancer to become active"

  -- The control plane's part of `reconcileNormal`: false is a return with the requeue.
  unfoldable pub join_load_balancer : BareMetalServer → Action Bool
  unfolding ◌>>=◌ on_error modify emit in_world wait_for_load_balancer set_ready_message join_known
  join_load_balancer s =
      let lb_id = api_server_load_balancer_id sc.vultr_cluster in
      if is_control_plane p.lib ms
      then if lb_id == ""
        then wait_for_load_balancer "Waiting for the load balancer to be created"
        else join_known lb_id s
      else pure true

  unfoldable pub finish_active : BareMetalServer → Option VpcInfo → Action ReconcileResult
  unfolding ◌>>=◌ modify
  finish_active s vpc = do
    modify (set_addresses (get_bare_metal_server_addresses s vpc))
    modify (
        set_ready_condition p.lib condition_true server_active_reason
          (formatted (plain "Bare metal server is active")))
    modify set_ready
    modify set_provisioned
    pure done

  after_attachment : BareMetalServer → Attachment → Action ReconcileResult
  after_attachment s (returns result) = pure result
  after_attachment s (continues vpc) = do
    joined ← join_load_balancer s
    if joined then finish_active s vpc else pure (requeue_in bare_metal_load_balancer_requeue)

  reconcile_active : BareMetalServer → Action ReconcileResult
  reconcile_active s = do attachment ← attach_vpc s; after_attachment s attachment

  -- `reconcileNormal` from the server on
  unfoldable pub reconcile_server : BareMetalServer → Action ReconcileResult
  unfolding ◌>>=◌ modify emit record_details set_ready_message reconcile_active after_attachment
  reconcile_server s = do
    record_details s
    if s.status == subscription_pending
        then (do
          set_ready_message server_pending_reason "Bare metal server is provisioning"
          pure (requeue_in bare_metal_pending_requeue))
        else if s.status == subscription_active
        then reconcile_active s
        else (do
          emit warning "UnexpectedStatus" "Failed"
          modify (
              set_terminal_failure p.lib unexpected_status_reason (
                formatted
                  (sprintf "bare metal server status %q is unexpected" (str s.status ∷ []))))
          pure done)

  reconcile_bootstrapped : Action ReconcileResult
  reconcile_bootstrapped = do
    server ← find_or_create_server
    elim server [
      | none ↦ pure (requeue_in bare_metal_not_found_requeue)
      | some s ↦ reconcile_server s
    ]

  reconcile_bootstrap : Option String → Action ReconcileResult
  reconcile_bootstrap none = do
    set_ready_message waiting_for_bootstrap_data_reason "Waiting for the bootstrap data secret"
    pure done
  reconcile_bootstrap (some name) = reconcile_bootstrapped

  -- On `ptr.Deref(…InfrastructureProvisioned, false)`
  reconcile_infrastructure : Option Bool → Action ReconcileResult
  reconcile_infrastructure (some true) = reconcile_bootstrap ms.machine.data_secret_name
  reconcile_infrastructure _ = do
    set_ready_message waiting_for_cluster_infrastructure_reason
        "Waiting for the cluster infrastructure to be provisioned"
    pure done

  unfoldable pub reconcile_normal : Action ReconcileResult
  unfolding ◌>>=◌ get_object modify set_ready_message reconcile_bootstrapped reconcile_bootstrap
      reconcile_infrastructure
  reconcile_normal = do
    m ← get_object
    if has_terminal_failure p.lib m then pure done else do
      modify (add_finalizer p.lib bare_metal_machine_finalizer)
      reconcile_infrastructure ms.cluster.infrastructure_provisioned

  -- The load balancer membership and the server of a known id: whether the server was deleted.
  unfoldable pub delete_by_id : String → Action Bool
  unfolding ◌>>=◌ emit in_world
  delete_by_id id = if id == "" then pure false else do
    if is_control_plane p.lib ms
        then in_world
            (remove_load_balancer_member p (api_server_load_balancer_id sc.vultr_cluster) id)
        else pure tt
    deleted ← in_world (delete_bare_metal_server p id)
    if deleted then emit normal "ServerDeleted" "Deleted" else pure tt
    pure deleted

  finish_delete : Bool → Action ReconcileResult
  finish_delete deleted = do
    if deleted then pure tt else emit normal "NoServerFound" "NotFound"
    modify (remove_finalizer p.lib bare_metal_machine_finalizer)
    pure done

  -- The switch of `reconcileDelete` on what is still listed.
  delete_remaining : String → Bool → Option BareMetalServer → Action ReconcileResult
  delete_remaining id deleted none = finish_delete deleted
  delete_remaining id deleted (some remaining) =
      if remaining.id == id then pure (requeue_in bare_metal_not_found_requeue) else do
        in_world (delete_bare_metal_server p remaining.id)
        emit normal "ServerDeleted" "Deleted"
        pure (requeue_in bare_metal_not_found_requeue)

  unfoldable pub reconcile_delete : Action ReconcileResult
  unfolding ◌>>=◌ get_object modify in_world set_ready_message delete_remaining finish_delete emit
  reconcile_delete = do
    set_ready_message deleting_reason "Deleting the bare metal server"
    m ← get_object
    let id = get_server_id m
    deleted ← delete_by_id id
    remaining ← in_world (find_bare_metal_server_by_tags p sc m.name (role p ms))
    delete_remaining id deleted remaining

  -- `Close`
  unfoldable pub close : Action (Unit {0})
  unfolding ◌>>=◌ get_object in_world fail_with
  close = do
    m ← get_object
    failure ← in_world (call (p.kube.patch_bare_metal m))
    in_world (fail_with failure)
