-- ===== src/Tests/Balancers.antt =====
-- The load balancer service and the VultrCluster controller on a concrete account.
use cluster_api_provider_vul.Base.{
  ◌≡◌, ◌≢◌, ◌≢◌, refl, String, ◌==◌, string_eq, true, false, not, ◌&&◌, contains, none, some, [],
  ◌∷◌, ◌⊎◌, ok,
}
use cluster_api_provider_vul.Govultr.{LoadBalancer}
use cluster_api_provider_vul.Api.Cluster.{VultrCluster, zero_vultr_cluster, cluster_finalizer}
use cluster_api_provider_vul.Api.LoadBalancer.{zero_health_check, health_check_defaults}
use cluster_api_provider_vul.Kube.{done, requeue_in}
use cluster_api_provider_vul.Scope.Cluster.{api_server_loadbalancers, set_api_server_loadbalancers}
use cluster_api_provider_vul.Services.LoadBalancer.{
  ensure_load_balancer_member, remove_load_balancer_member, remaining_members, get_load_balancer,
  delete_load_balancer,
}
use cluster_api_provider_vul.Services.LoadBalancer.Members.{
  Stored, StoresMembers, ensure-Member, remove-Member,
}
use cluster_api_provider_vul.Api.Status.{power_running}
use cluster_api_provider_vul.Controller.Cluster.{reconcile_load_balancer, reconcile_delete}
use cluster_api_provider_vul.Controller.Cluster.Endpoint.{
  power, IsServedBy, reconcile_load_balancer-IsServedBy, reconcile_delete-Finalizers,
  reconcile_delete_without_status,
}
use cluster_api_provider_vul.Tests.Sample.{
  Account, account_api, sample, balancer, the_cluster, start, balanced_cluster,
}

abbrev two_members : Account
two_members = record { instances = []; servers = []; members = "i-1" ∷ "i-2" ∷ []; patches = 0 }

account-StoresMembers : StoresMembers account_api "lb-1"
account-StoresMembers = record {
  get-get = λ lb w stored. stored;
  get-update = λ lb l w (fine, value) nonempty ok_update. (refl, cc);
}

ensure_returns : (ensure_load_balancer_member sample "lb-1" "i-3" two_members).0 ≡ ok true
unfolding ensure_load_balancer_member
ensure_returns = refl

ensure-Member_example :
    (lb' : LoadBalancer) × Stored account_api "lb-1" lb'
      (ensure_load_balancer_member sample "lb-1" "i-3" two_members).1
    × (contains lb'.instances "i-3" ≡ true)
    × ((member : String)
        → contains ("i-1" ∷ "i-2" ∷ []) member ≡ true
        → contains lb'.instances member ≡ true)
ensure-Member_example =
    ensure-Member sample "lb-1" "i-3" account-StoresMembers (balancer ("i-1" ∷ "i-2" ∷ []))
      two_members (refl, refl) ensure_returns

remove_returns : (remove_load_balancer_member sample "lb-1" "i-1" two_members).0 ≡ ok tt
unfolding remove_load_balancer_member remaining_members
remove_returns = refl

lb_id-ne : (balancer []).id ≢ ""
lb_id-ne h = cc

remove-Member_example :
    (lb' : LoadBalancer) × Stored account_api "lb-1" lb'
      (remove_load_balancer_member sample "lb-1" "i-1" two_members).1
    × (((member : String)
          → contains lb'.instances member
            ≡ (not ("i-1" == member) && contains ("i-1" ∷ "i-2" ∷ []) member))
        ⊎ ((lb' ≡ balancer ("i-1" ∷ "i-2" ∷ []))
            × (remaining_members "i-1" ("i-1" ∷ "i-2" ∷ []) ≡ [])))
remove-Member_example =
    remove-Member sample "lb-1" "i-1" account-StoresMembers (balancer ("i-1" ∷ "i-2" ∷ []))
      two_members lb_id-ne (refl, refl) remove_returns

-- A new VultrCluster after `ApplyDefaults`.
abbrev checked_cluster : VultrCluster
checked_cluster =
    set_api_server_loadbalancers
      (record (api_server_loadbalancers zero_vultr_cluster) {
        health_check = some (health_check_defaults zero_health_check);
      })
      zero_vultr_cluster

reconcile_load_balancer-IsServedBy_example :
    let (r, s') =
      reconcile_load_balancer sample the_cluster (some (balancer [])) (start checked_cluster) in
    (s'.world ≡ (start checked_cluster).world)
    × (((r ≡ ok (requeue_in 15))
          × ((balancer []).ipv4 ≡ "")
          × (power (start checked_cluster) ≢ power_running)
          × (s'.object.status.initialization.provisioned ≡ some false)
          × (s'.object.status.ready ≡ false))
        ⊎ ((r ≡ ok done)
            × (((balancer []).ipv4 ≢ "") ⊎ (power (start checked_cluster) ≡ power_running))
            × IsServedBy (balancer []) (health_check_defaults zero_health_check) s'.object))
reconcile_load_balancer-IsServedBy_example =
    reconcile_load_balancer-IsServedBy sample the_cluster (balancer [])
      (health_check_defaults zero_health_check) (start checked_cluster) refl

reconcile_delete-Finalizers_example :
    let (r, s') = reconcile_delete sample the_cluster (start balanced_cluster) in
    (s'.object.finalizers ≡ [])
    ⊎ ((r ≡ ok done)
        × (s'.object.finalizers ≡ sample.lib.remove_finalizer cluster_finalizer [])
        × (((get_load_balancer sample "lb-1" (start balanced_cluster).world).0 ≡ ok none)
            ⊎ ((lb : LoadBalancer) × ((get_load_balancer sample "lb-1"
                    (start balanced_cluster).world).0
                  ≡ ok (some lb))
                × ((delete_load_balancer sample lb.id
                      (get_load_balancer sample "lb-1" (start balanced_cluster).world).1).0
                    ≡ ok tt))))
reconcile_delete-Finalizers_example =
    reconcile_delete-Finalizers sample the_cluster (start balanced_cluster)

-- A VultrCluster that is being deleted, whose specification names a load balancer and whose status
-- does not.
abbrev named_cluster : VultrCluster
named_cluster =
    set_api_server_loadbalancers
      (record (api_server_loadbalancers zero_vultr_cluster) { id = "lb-1" })
      (record zero_vultr_cluster { finalizers = cluster_finalizer ∷ []; deleting = true })

reconcile_delete_without_status_example :
    let (r, s') = reconcile_delete sample the_cluster (start named_cluster) in
    (r ≡ ok done)
    × (s'.world ≡ (start named_cluster).world)
    × (s'.object ≡ record named_cluster {
      finalizers = sample.lib.remove_finalizer cluster_finalizer (cluster_finalizer ∷ []);
    })
reconcile_delete_without_status_example =
    reconcile_delete_without_status sample the_cluster (start named_cluster) refl
