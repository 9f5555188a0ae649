-- ===== src/Tests/Machines.antt =====
-- The VultrMachine controller on concrete machines.
use cluster_api_provider_vul.Services.LoadBalancer.{ensure_load_balancer_member}
use cluster_api_provider_vul.Controller.Machine.{persist_id, record_details, join_load_balancer}
use cluster_api_provider_vul.Scope.Machine.{get_provider_id, set_ready_condition}
use cluster_api_provider_vul.Base.{
  ◌≡◌, ◌≢◌, refl, pos, String, true, false, Option, none, some, [], ◌⊎◌, ◌==◌, string_eq, ok,
  eq_iff, arith,
}
use cluster_api_provider_vul.Govultr.{Instance, InstanceCreateReq, Reply}
use cluster_api_provider_vul.Api.Machine.{VultrMachine}
use cluster_api_provider_vul.Scope.ProviderId.{provider_id_to_resource_id}
use cluster_api_provider_vul.Scope.Machine.{get_instance_id}
use cluster_api_provider_vul.Controller.Machine.{
  reconcile_normal, reconcile_instance, reconcile_delete, report_status,
}
use cluster_api_provider_vul.Controller.Entry
use cluster_api_provider_vul.Controller.Entry.Closing.{Closed, reconcile-Closed}
use cluster_api_provider_vul.Kube.{found, Platform}
use cluster_api_provider_vul.Tests.Sample.{account_kube, balanced_cluster}
use cluster_api_provider_vul.Controller.Machine.Identity.{with_create, reconcile_normal-with_create}
use cluster_api_provider_vul.Controller.Machine.Deletion.{Releases, reconcile_delete-Releases}
use cluster_api_provider_vul.Controller.Machine.Readiness.{
  BecameReady, reconcile_instance-BecameReady,
}
use cluster_api_provider_vul.Controller.Machine.Progress.{Joins}
use cluster_api_provider_vul.Services.LoadBalancer.{ensure_load_balancer_member}
use cluster_api_provider_vul.Controller.Machine.Terminal.{IsEnded, unexpected_status_final}
use cluster_api_provider_vul.Tests.Sample.{
  Account, sample, list_library-IsLawful, cluster_scope, machine_scope, start, vultr_machine,
  error_reply,
}

pub ne_of_eq_false : (s t : String) → (s == t) ≡ false → s ≢ t
ne_of_eq_false s t h e = ground (arith, eq_iff s t)

abbrev pub known_machine : VultrMachine
known_machine = vultr_machine (some "vultr://i-1")

abbrev pub an_instance : String → Instance
an_instance status = record {
  id = "i-1";
  label = "m1";
  hostname = "m1";
  tags = [];
  status = status;
  vcpu_count = pos 2;
  ram = pos 4096;
  disk = pos 80;
  main_ip = "203.0.113.7";
  internal_ip = "10.0.0.7";
}

abbrev refuse : InstanceCreateReq → Account → Reply (Option Instance) × Account
refuse req w = (error_reply none 500, w)

pub known-ne : get_instance_id known_machine ≢ ""
unfolding get_instance_id provider_id_to_resource_id
known-ne h = cc

fresh-ne : get_instance_id (vultr_machine none) ≢ "i-1"
unfolding get_instance_id provider_id_to_resource_id
fresh-ne = ne_of_eq_false "" "i-1" refl

reconcile_normal-with_create_example :
    reconcile_normal (with_create refuse sample) cluster_scope machine_scope (start known_machine)
    ≡ reconcile_normal sample cluster_scope machine_scope (start known_machine)
reconcile_normal-with_create_example =
    reconcile_normal-with_create sample cluster_scope machine_scope refuse (start known_machine)
      known-ne

reconcile_delete-Releases_example :
    let (r, s') = reconcile_delete sample cluster_scope machine_scope (start known_machine) in
    (s'.object.finalizers ≡ [])
    ⊎ Releases sample cluster_scope machine_scope (start known_machine) s' r
reconcile_delete-Releases_example =
    reconcile_delete-Releases sample cluster_scope machine_scope (start known_machine)

becomes_ready :
    (reconcile_instance sample cluster_scope machine_scope
      (an_instance "active")
      (start known_machine)).1.object.status.ready
    ≡ true
unfolding reconcile_instance persist_id get_instance_id provider_id_to_resource_id record_details
    join_load_balancer ensure_load_balancer_member report_status set_ready_condition
becomes_ready = refl

reconcile_instance-BecameReady_example :
    let (r, s') =
      reconcile_instance sample cluster_scope machine_scope
        (an_instance "active")
        (start known_machine) in
    (false ≡ true) ⊎ BecameReady sample cluster_scope machine_scope (an_instance "active") s' r
reconcile_instance-BecameReady_example =
    reconcile_instance-BecameReady sample cluster_scope machine_scope (an_instance "active")
      (start known_machine) becomes_ready

stopped-ne-pending : (an_instance "stopped").status ≢ "pending"
stopped-ne-pending = ne_of_eq_false "stopped" "pending" refl

stopped-ne-active : (an_instance "stopped").status ≢ "active"
stopped-ne-active = ne_of_eq_false "stopped" "active" refl

stored_id :
    (persist_id sample cluster_scope machine_scope (an_instance "stopped") (start known_machine)).0
    ≡ ok tt
unfolding persist_id get_instance_id get_provider_id provider_id_to_resource_id
stored_id = refl

stopped-Joins :
    Joins sample cluster_scope machine_scope
      (an_instance "stopped")
      (persist_id sample cluster_scope machine_scope
        (an_instance "stopped")
        (start known_machine)).1.world
unfolding persist_id get_instance_id get_provider_id provider_id_to_resource_id
    ensure_load_balancer_member
stopped-Joins control_plane = (ne_of_eq_false "lb-1" "" refl, refl)

unexpected_status_final_example : IsEnded sample cluster_scope machine_scope (
    reconcile_instance sample cluster_scope machine_scope
      (an_instance "stopped")
      (start known_machine))
unexpected_status_final_example =
    unexpected_status_final sample cluster_scope machine_scope (an_instance "stopped")
      (start known_machine) list_library-IsLawful stopped-ne-pending stopped-ne-active stored_id
      stopped-Joins

-- The Kubernetes API has the machine and its VultrCluster.
abbrev stocked : Platform Account
stocked = record sample {
  kube = record account_kube {
    get_machine = λ namespace name w. (found known_machine, w);
    get_cluster = λ namespace name w. (found balanced_cluster, w);
  };
}

reconcile-Closed_example :
    Closed stocked
      (Entry.vultr_machine stocked)
      (Entry.reconcile stocked (Entry.vultr_machine stocked) "default" "m1" (start none))
reconcile-Closed_example =
    reconcile-Closed stocked (Entry.vultr_machine stocked) "default" "m1" (start none) refl
