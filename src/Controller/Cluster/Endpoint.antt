-- ===== src/Controller/Cluster/Endpoint.antt =====
-- What a VultrCluster has once it is reconciled, and when it is let go.
use cluster_api_provider_vul.Base.{
  ◌≡◌, ◌≢◌, refl, String, Bool, true, false, Bool-cases, not, ◌&&◌, ◌==◌, string_eq, eq_iff, none,
  some, inl, inr, ◌⊎◌, ok, arith,
}
use cluster_api_provider_vul.Base.Int.{int32}
use cluster_api_provider_vul.Api.Status.{power_running}
use cluster_api_provider_vul.Api.LoadBalancer.{HealthCheck}
use cluster_api_provider_vul.Api.Cluster.{VultrCluster, cluster_finalizer}
use cluster_api_provider_vul.Govultr.{LoadBalancer}
use cluster_api_provider_vul.Kube.{CapiCluster, Platform, Env, done, requeue_in}
use cluster_api_provider_vul.Scope.Cluster.{api_server_loadbalancers, api_server_loadbalancers_ref}
use cluster_api_provider_vul.Services.LoadBalancer.{get_load_balancer, delete_load_balancer}
use cluster_api_provider_vul.Controller.Cluster.{
  reconcile_load_balancer, reconcile_delete, set_condition, record_load_balancer,
}

-- A cluster that is ready with the load balancer `lb`, and its API server port.
pub record IsServedBy (lb : LoadBalancer) (h : HealthCheck) (c : VultrCluster) : Type 0 where
  pub host : c.spec.control_plane_endpoint.host ≡ lb.ipv4
  pub port : c.spec.control_plane_endpoint.port ≡ int32 h.port
  pub spec_id : (api_server_loadbalancers c).id ≡ lb.id
  pub status_id : (api_server_loadbalancers_ref c).resource_id ≡ lb.id
  pub ready : c.status.ready ≡ true
  pub provisioned : c.status.initialization.provisioned ≡ some true

module _ {W : Type 0} where
  -- The power status in the status of the cluster.
  abbrev pub power : Env W VultrCluster → String
  power s = (api_server_loadbalancers_ref s.object).resource_power_status

module _ {W : Type 0} (p : Platform W) (cluster : CapiCluster) where
  waiting_lem :
      (status ip : String)
      → (not (status == power_running) && ip == "") ≡ true
      → (ip ≡ "") × (status ≢ power_running)
  waiting_lem status ip h = ground (arith, eq_iff ip "", eq_iff status power_running)

  served_lem :
      (status ip : String)
      → (not (status == power_running) && ip == "") ≡ false
      → (ip ≢ "") ⊎ (status ≡ power_running)
  served_lem status ip h = elim (Bool-cases (status == power_running)) [
    | inl running ↦ inr ((eq_iff status power_running).0 running)
    | inr stopped ↦ inl (λ e. absurd (ground (arith, h, stopped, (eq_iff ip "").1 e)))
  ]

  -- With a load balancer, and a health check in the specification, a reconcile never panics and
  -- calls nothing. Either the load balancer has no address and the power status in the cluster's
  -- status is not running, and it ends with a requeue and the cluster is not provisioned and as
  -- ready as it was; or the load balancer has an address or that power status is running, and the
  -- cluster is ready and provisioned and has the endpoint of the load balancer.
  pub reconcile_load_balancer-IsServedBy :
      (lb : LoadBalancer) (h : HealthCheck) (s : Env W VultrCluster)
      → (api_server_loadbalancers s.object).health_check ≡ some h
      → let (r, s') = reconcile_load_balancer p cluster (some lb) s in
        (s'.world ≡ s.world)
        × (((r ≡ ok (requeue_in 15))
              × (lb.ipv4 ≡ "")
              × (power s ≢ power_running)
              × (s'.object.status.initialization.provisioned ≡ some false)
              × (s'.object.status.ready ≡ s.object.status.ready))
            ⊎ ((r ≡ ok done)
                × ((lb.ipv4 ≢ "") ⊎ (power s ≡ power_running))
                × IsServedBy lb h s'.object))
  unfolding reconcile_load_balancer set_condition record_load_balancer
  reconcile_load_balancer-IsServedBy lb h s has = elim (Bool-cases still_waiting) [
    | inl waiting ↦ rw waiting (
      refl,
      inl (
        refl,
        (waiting_lem (power s) lb.ipv4 waiting).0,
        (waiting_lem (power s) lb.ipv4 waiting).1,
        refl,
        refl,
      ),
    )
    | inr served ↦
        rw (served, has)
          (
            refl,
            inr (
              refl,
              served_lem (power s) lb.ipv4 served,
              record {
                host = refl;
                port = refl;
                spec_id = refl;
                status_id = refl;
                ready = refl;
                provisioned = refl;
              },
            ),
          )
  ]
    where
      still_waiting : Bool
      still_waiting =
          not ((api_server_loadbalancers_ref s.object).resource_power_status == power_running)
          && lb.ipv4 == ""

  -- When the deletion of a VultrCluster is reconciled, its finalizers stay, or the reconcile ends
  -- without a requeue and the status names no load balancer, or the API found none under its id,
  -- or the one that it found was deleted.
  pub reconcile_delete-Finalizers :
      (s : Env W VultrCluster)
      → let id = (api_server_loadbalancers_ref s.object).resource_id in
        let (r, s') = reconcile_delete p cluster s in
        (s'.object.finalizers ≡ s.object.finalizers)
        ⊎ ((r ≡ ok done)
            × (s'.object.finalizers ≡ p.lib.remove_finalizer cluster_finalizer s.object.finalizers)
            × (((get_load_balancer p id s.world).0 ≡ ok none)
                ⊎ ((lb : LoadBalancer) × ((get_load_balancer p id s.world).0 ≡ ok (some lb))
                    × ((delete_load_balancer p lb.id (get_load_balancer p id s.world).1).0
                        ≡ ok tt))))
  unfolding reconcile_delete
  reconcile_delete-Finalizers s = ground arith

  -- Deleting a VultrCluster whose status names no load balancer removes the finalizer with no call
  -- of the API, whatever load balancer its specification names.
  pub reconcile_delete_without_status :
      (s : Env W VultrCluster)
      → (api_server_loadbalancers_ref s.object).resource_id ≡ ""
      → let (r, s') = reconcile_delete p cluster s in
        (r ≡ ok done)
        × (s'.world ≡ s.world)
        × (s'.object ≡ record s.object {
          finalizers = p.lib.remove_finalizer cluster_finalizer s.object.finalizers;
        })
  unfolding reconcile_delete get_load_balancer
  reconcile_delete_without_status s h = rw h (refl, refl, refl)
