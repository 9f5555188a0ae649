-- ===== src/Tests/Ends.antt =====
-- How reconciles and the process end, on concrete inputs.
use mathlib.Core.List.{Memᴰ}
use cluster_api_provider_vul.Base.{
  arith, eq_iff, String, List, [], ◌∷◌, some, ◌≡◌, ◌⊎◌, ◌↔◌, ◌⊎◌, refl, ℕ, ◌+◌, true, not, ◌&&◌,
  ◌==◌, string_eq, select, none, ok, foreign,
}
use cluster_api_provider_vul.Govultr.{Instance}
use cluster_api_provider_vul.Kube.{Platform, done, found}
use cluster_api_provider_vul.Scope.Bootstrap.{machine_role}
use cluster_api_provider_vul.Scope.ProviderId.{provider_id_to_resource_id}
use cluster_api_provider_vul.Scope.Machine.{get_instance_id, get_provider_id}
use cluster_api_provider_vul.Services.Instance.{
  delete_instance, find_instance_for_machine, matching_instances, unique_match,
}
use cluster_api_provider_vul.Services.LoadBalancer.{ensure_load_balancer_member}
use cluster_api_provider_vul.Controller.Machine.{
  persist_id, reconcile_instance, reconcile_delete, reconcile_normal,
}
use cluster_api_provider_vul.Controller.Machine.Progress.{
  IsReady, Joins, active-IsReady, gone-Released,
}
use cluster_api_provider_vul.Controller.Machine.Spec.{Answers, reconcile_normal-spec}
use cluster_api_provider_vul.Controller.Cluster
use cluster_api_provider_vul.Controller.Cluster.Closing.{Closes, reconcile-Closes}
use cluster_api_provider_vul.Controller.Mapping.{
  Request, vultr_cluster_to_vultr_machines, vultr_cluster_to_vultr_bare_metal_machines,
}
use cluster_api_provider_vul.Controller.Mapping.Requests.{Requested, mapped_requests_iff}
use cluster_api_provider_vul.Manager.{Runtime, default_flags, main}
use cluster_api_provider_vul.Manager.Start.{Succeed, after_all, ended, preparations, main-Starts}
use cluster_api_provider_vul.Tests.Machines.{known_machine, an_instance, known-ne, ne_of_eq_false}
use cluster_api_provider_vul.Tests.Sample.{
  find_instance, Account, sample, account_kube, cluster_scope, machine_scope, balanced_cluster,
  empty_account, start,
}

known_stored :
    (persist_id sample cluster_scope machine_scope (an_instance "active") (start known_machine)).0
    ≡ ok tt
unfolding persist_id get_instance_id get_provider_id provider_id_to_resource_id
known_stored = refl

known-Joins :
    Joins sample cluster_scope machine_scope
      (an_instance "active")
      (persist_id sample cluster_scope machine_scope
        (an_instance "active")
        (start known_machine)).1.world
unfolding persist_id get_instance_id get_provider_id provider_id_to_resource_id
    ensure_load_balancer_member
known-Joins control_plane = (ne_of_eq_false "lb-1" "" refl, refl)

active-IsReady_example :
    let (r, s') =
      reconcile_instance sample cluster_scope machine_scope
        (an_instance "active")
        (start known_machine) in
    (r ≡ ok done) × IsReady sample cluster_scope machine_scope (an_instance "active") s'
active-IsReady_example =
    active-IsReady sample cluster_scope machine_scope (an_instance "active") (start known_machine)
      refl known_stored known-Joins

gone : (delete_instance sample (get_instance_id known_machine) empty_account).0 ≡ ok true
unfolding delete_instance get_instance_id get_provider_id provider_id_to_resource_id
gone = refl

none_left :
    (find_instance_for_machine sample cluster_scope "m1" "control-plane"
      (delete_instance sample (get_instance_id known_machine) empty_account).1).0
    ≡ ok none
unfolding delete_instance get_instance_id get_provider_id provider_id_to_resource_id
    find_instance_for_machine matching_instances unique_match select
none_left = refl

gone-Released_example :
    let (r, s') = reconcile_delete sample cluster_scope machine_scope (start known_machine) in
    (r ≡ ok done) × (s'.object.finalizers ≡ [])
unfolding machine_role
gone-Released_example =
    gone-Released sample cluster_scope machine_scope (start known_machine) true known-ne gone
      none_left

-- The VultrCluster exists and its load balancer has an address.
abbrev clustered : Platform Account
clustered = record sample {
  kube = record account_kube { get_cluster = λ namespace name w. (found balanced_cluster, w) };
}

reconcile-Closes_example :
    let s' = (Cluster.reconcile clustered "default" "c1" (start none)).1 in
    (s'.object ≡ none) ⊎ Closes clustered "default" "c1" (start none) s'
reconcile-Closes_example = reconcile-Closes clustered "default" "c1" (start none) refl

abbrev m1 : Request
m1 = record { namespace = "default"; name = "m1" }

mapped_requests_iff_example :
    (Memᴰ m1
        (vultr_cluster_to_vultr_bare_metal_machines sample (some balanced_cluster) empty_account).0
      ↔ Requested sample balanced_cluster empty_account
          (λ m.
            not (m.infrastructure_ref_name == "")
            && m.infrastructure_ref_kind == "VultrBareMetalMachine")
          m1)
    × (Memᴰ m1 (vultr_cluster_to_vultr_machines sample (some balanced_cluster) empty_account).0
        ↔ Requested sample balanced_cluster empty_account
            (λ m. not (m.infrastructure_ref_name == ""))
            m1)
mapped_requests_iff_example = mapped_requests_iff sample balanced_cluster empty_account m1

-- A process whose world counts the calls; the readiness check cannot be added.
abbrev failing_check : Runtime ℕ
failing_check = record {
  builder = record {
    cluster_to_typed_objects_mapper = λ kind n. (none, n + 1);
    complete = λ spec r n. (none, n + 1);
  };
  new_manager = λ options n. (none, n + 1);
  add_healthz_check = λ name n. (none, n + 1);
  add_readyz_check = λ name n. (some (foreign "no port"), n + 1);
  start = λ n. (none, n + 1);
}

main-Starts_example :
    (Succeed (preparations failing_check default_flags) 0
      × (main failing_check default_flags 0
          ≡ ended (failing_check.start (after_all (preparations failing_check default_flags) 0))))
    ⊎ (((main failing_check default_flags 0).0 ≡ 1)
        × (main (record failing_check { start = λ n. (none, 0) }) default_flags 0
            ≡ main failing_check default_flags 0))
main-Starts_example = main-Starts failing_check default_flags 0 (λ n. (none, 0))

stops_at_eight : main failing_check default_flags 0 ≡ (1, 8)
unfolding main
stops_at_eight = refl

found-answers :
    (id : String) (l : List Instance) (i : Instance)
    → (find_instance id l).value ≡ some i
    → i.id ≡ id
found-answers id [] i e = absurd cc
found-answers id (j ∷ l) i e = ground (arith, eq_iff j.id id, e, found-answers id l i)

sample-Answers : Answers sample
sample-Answers id w i e = found-answers id w.instances i e

reconcile_normal-spec_example :
    (reconcile_normal sample cluster_scope machine_scope (start known_machine)).1.object.spec
    ≡ known_machine.spec
reconcile_normal-spec_example =
    reconcile_normal-spec sample cluster_scope machine_scope sample-Answers (start known_machine)
      known-ne
