-- ===== src/Controller/Cluster.antt =====
-- internal/controller/vultrcluster_controller.go
pub mod Endpoint
pub mod Closing
use cluster_api_provider_vul.Base.{
  ℕ, String, Bool, true, false, not, ◌&&◌, [], ◌∷◌, ◌==◌, string_eq, if◌then◌else◌, Option, none,
  some, wrapf, plain, sprintf, str,
}
use cluster_api_provider_vul.Base.Exec.{Exec, pure, raise, panics, call, on_error, ◌>>=◌, ◌>>◌}
use cluster_api_provider_vul.Base.Int.{int32}
use cluster_api_provider_vul.Api.Status.{power_running}
use cluster_api_provider_vul.Api.LoadBalancer.{HealthCheck, apply_defaults}
use cluster_api_provider_vul.Api.Conditions.{
  ConditionStatus, condition_true, condition_false, Message, formatted, of_error, ready_condition,
  load_balancer_ready_condition, error_fetching_lb_reason, error_creating_lb_reason,
  waiting_for_ip_reason,
}
use cluster_api_provider_vul.Api.Cluster.{
  get_conditions, set_conditions, VultrCluster, cluster_finalizer,
}
use cluster_api_provider_vul.Govultr.{LoadBalancer}
use cluster_api_provider_vul.Kube.{
  CapiCluster, Library, Platform, Env, normal, warning, ReconcileResult, done, requeue_in, Fetched,
  found, missing, failed,
}
use cluster_api_provider_vul.Kube.Actions.{
  get_object, modify, emit, in_world, fail_with, deferring, with_object,
}
use cluster_api_provider_vul.Scope.Cluster.{
  ClusterScope, new_cluster_scope, api_server_loadbalancers, api_server_loadbalancers_ref,
  set_api_server_loadbalancers, set_api_server_loadbalancers_ref, set_ready,
  set_control_plane_endpoint,
}
use cluster_api_provider_vul.Services.LoadBalancer.{
  get_load_balancer, create_load_balancer, delete_load_balancer,
}

abbrev pub waiting_for_ip_requeue : ℕ
waiting_for_ip_requeue = 15

-- `conditions.Set` on the VultrCluster
unfoldable pub set_condition :
    Library → String → ConditionStatus → String → Message → VultrCluster → VultrCluster
set_condition lib type status reason message c =
    set_conditions
      (lib.set_condition
        (record { type = type; status = status; reason = reason; message = message })
        (get_conditions c))
      c

-- The write of `Status.Initialization.Provisioned`
abbrev pub set_provisioned : Bool → VultrCluster → VultrCluster
set_provisioned b c = record c {
  status = record c.status { initialization = record { provisioned = some b } };
}

-- `vlbID`: the id of the specification, or else that of the status
unfoldable pub load_balancer_id : VultrCluster → String
load_balancer_id c =
    if (api_server_loadbalancers c).id == ""
    then (api_server_loadbalancers_ref c).resource_id
    else (api_server_loadbalancers c).id

-- The three writes once there is a load balancer
unfoldable pub record_load_balancer : LoadBalancer → VultrCluster → VultrCluster
record_load_balancer lb c =
    set_api_server_loadbalancers (record (api_server_loadbalancers c) { id = lb.id })
      (set_api_server_loadbalancers_ref
        (record (api_server_loadbalancers_ref c) {
          resource_id = lb.id;
          resource_subscription_status = lb.status;
        })
        c)

module _ {W : Type 0} (p : Platform W) (cluster : CapiCluster) where
  abbrev Action : Type 0 → Type 0
  Action A = Exec (Env W VultrCluster) A

  scope_of : VultrCluster → ClusterScope
  scope_of c = record { cluster = cluster; vultr_cluster = c }

  -- `GetLoadBalancer`, and the condition where it fails
  fetch_load_balancer : String → Action (Option LoadBalancer)
  fetch_load_balancer id =
      on_error (in_world (get_load_balancer p id))
        (λ e. do
          modify (
              set_condition p.lib load_balancer_ready_condition condition_false
                error_fetching_lb_reason (of_error e))
          raise e)
        pure

  create_missing : Action (Option LoadBalancer)
  create_missing = do
    c ← get_object
    on_error (in_world (create_load_balancer p (scope_of c) (api_server_loadbalancers c)))
        (λ e. do
          modify (
              set_condition p.lib load_balancer_ready_condition condition_false
                error_creating_lb_reason
                (formatted (plain "Failed to create load balancer, Payload: %s")))
          raise (
              wrapf
                (sprintf "failed to create load balancer for VultrCluster %s/%s"
                  (str c.namespace ∷ str c.name ∷ []))
                e))
        (λ created. elim created [
          | none ↦ panics
          | some lb ↦ (do emit normal "LoadBalancerCreated" "Created"; pure (some lb))
        ])

  -- `GetLoadBalancer`, and `CreateLoadBalancer` where it finds none
  unfoldable pub fetch_or_create : Action (Option LoadBalancer)
  unfolding ◌>>=◌ on_error get_object modify emit in_world fetch_load_balancer create_missing
      scope_of
  fetch_or_create = do
    c ← get_object
    existing ← fetch_load_balancer (load_balancer_id c)
    elim existing [ some lb ↦ pure (some lb) | none ↦ create_missing ]

  -- The control plane endpoint, whose port is that of the health check.
  set_endpoint : LoadBalancer → Option HealthCheck → Action (Unit {0})
  set_endpoint lb none = panics
  set_endpoint lb (some health) =
      modify (set_control_plane_endpoint (record { host = lb.ipv4; port = int32 health.port }))

  finish_normal : LoadBalancer → Action ReconcileResult
  finish_normal lb = do
    modify (
        set_condition p.lib load_balancer_ready_condition condition_true "LoadBalancerReady"
          (formatted (sprintf "LoadBalancer got an IP Address - %s" (str lb.ipv4 ∷ []))))
    emit normal "LoadBalancerReady" "Ready"
    c ← get_object
    set_endpoint lb (api_server_loadbalancers c).health_check
    modify (
        set_condition p.lib ready_condition condition_true "ClusterReady"
          (formatted (plain "VultrCluster has ready status")))
    modify set_ready
    modify (set_provisioned true)
    emit normal "VultrClusterReady" "Ready"
    pure done

  -- `reconcileNormal` from the load balancer on
  unfoldable pub reconcile_load_balancer : Option LoadBalancer → Action ReconcileResult
  unfolding ◌>>=◌ get_object modify emit record_load_balancer set_endpoint finish_normal
  reconcile_load_balancer none = panics
  reconcile_load_balancer (some lb) = do
    modify (record_load_balancer lb)
    c ← get_object
    if not ((api_server_loadbalancers_ref c).resource_power_status == power_running)
          && lb.ipv4 == ""
        then (do
          modify (set_provisioned false)
          modify (
              set_condition p.lib load_balancer_ready_condition condition_false
                waiting_for_ip_reason (formatted (plain "Waiting for Global IP Address")))
          pure (requeue_in waiting_for_ip_requeue))
        else finish_normal lb

  unfoldable pub reconcile_normal : Action ReconcileResult
  unfolding ◌>>=◌ modify
  reconcile_normal = do
    modify (λ c. record c { finalizers = p.lib.add_finalizer cluster_finalizer c.finalizers })
    modify (λ c. set_api_server_loadbalancers (apply_defaults (api_server_loadbalancers c)) c)
    lb ← fetch_or_create
    reconcile_load_balancer lb

  remove_cluster_finalizer : Action (Unit {0})
  remove_cluster_finalizer =
      modify (λ c. record c { finalizers = p.lib.remove_finalizer cluster_finalizer c.finalizers })

  delete_found : Option LoadBalancer → Action ReconcileResult
  delete_found none = do
    emit warning "NoLoadBalancerFound" "NotFound"
    remove_cluster_finalizer
    pure done
  delete_found (some lb) = do
    c ← get_object
    on_error (in_world (delete_load_balancer p lb.id))
        (λ e. raise (
          wrapf
            (sprintf "error deleting load balancer for VultrCluster %s/%s"
              (str c.namespace ∷ str c.name ∷ []))
            e))
        pure
    emit normal "LoadBalancerDeleted" "Deleted"
    remove_cluster_finalizer
    pure done

  unfoldable pub reconcile_delete : Action ReconcileResult
  unfolding ◌>>=◌ on_error get_object modify emit in_world remove_cluster_finalizer delete_found
  reconcile_delete = do
    c ← get_object
    lb ← in_world (get_load_balancer p (api_server_loadbalancers_ref c).resource_id)
    delete_found lb

  -- `Close`
  unfoldable pub close : Action (Unit {0})
  unfolding ◌>>=◌ get_object in_world fail_with
  close = do
    c ← get_object
    failure ← in_world (call (p.kube.patch_cluster c))
    in_world (fail_with failure)

module _ {W : Type 0} (p : Platform W) where
  reconcile_scoped : CapiCluster → VultrCluster → Exec (Env W (Option VultrCluster)) ReconcileResult
  reconcile_scoped cluster c = if p.kube.is_paused cluster c then pure done else do
    on_error (in_world (new_cluster_scope p (some cluster) (some c)))
        (λ e. raise (wrapf (plain "failed to create scope") e)) pure
    with_object c (
        deferring (close p cluster)
          (if c.deleting then reconcile_delete p cluster else reconcile_normal p cluster))

  reconcile_owned :
      VultrCluster
      → Fetched (Option CapiCluster)
      → Exec (Env W (Option VultrCluster)) ReconcileResult
  reconcile_owned c (missing e) = raise (wrapf (plain "failed to get owner cluster") e)
  reconcile_owned c (failed e) = raise (wrapf (plain "failed to get owner cluster") e)
  reconcile_owned c (found none) = pure done
  reconcile_owned c (found (some cluster)) = reconcile_scoped cluster c

  reconcile_fetched : Fetched VultrCluster → Exec (Env W (Option VultrCluster)) ReconcileResult
  reconcile_fetched (missing e) = pure done
  reconcile_fetched (failed e) = raise e
  reconcile_fetched (found c) = do
    owner ← in_world (call (p.kube.get_owner_cluster c))
    reconcile_owned c owner

  -- `Reconcile`
  unfoldable pub reconcile : String → String → Exec (Env W (Option VultrCluster)) ReconcileResult
  unfolding ◌>>=◌ on_error in_world with_object deferring reconcile_fetched reconcile_owned
      reconcile_scoped
  reconcile namespace name = do
    fetched ← in_world (call (p.kube.get_cluster namespace name))
    reconcile_fetched fetched
