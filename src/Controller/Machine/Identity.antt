-- ===== src/Controller/Machine/Identity.antt =====
-- Which instance a VultrMachine stands for: one whose id it names is not created again.
use cluster_api_provider_vul.Base.{
  ◌≡◌, ◌≢◌, refl, Option, none, some, String, string_eq, Bool, true, false, Bool-cases,
  eq_false_of_ne, inl, inr,
}
use cluster_api_provider_vul.Base.Exec.{◌>>=◌}
use cluster_api_provider_vul.Api.Machine.{VultrMachine, machine_finalizer}
use cluster_api_provider_vul.Govultr.{Instance, InstanceCreateReq, Reply}
use cluster_api_provider_vul.Kube.{Platform, Env, infrastructure_ready_condition}
use cluster_api_provider_vul.Scope.Cluster.{ClusterScope}
use cluster_api_provider_vul.Scope.Machine.{
  MachineScope, has_terminal_failure, get_instance_id, add_finalizer,
}
use cluster_api_provider_vul.Controller.Machine.{
  find_or_create_instance, reconcile_infrastructure, reconcile_bootstrap, reconcile_bootstrapped,
  reconcile_normal, set_ready_message, record_details, persist_id, reconcile_instance, patch_object,
  join_load_balancer, report_status,
}
use cluster_api_provider_vul.Services.Instance.{get_instance}
use cluster_api_provider_vul.Services.LoadBalancer.{ensure_load_balancer_member}

-- The same platform with another create call.
abbrev pub with_create :
    {W : Type 0} → (InstanceCreateReq → W → Reply (Option Instance) × W) → Platform W → Platform W
with_create create p = record p { api = record p.api { create_instance = create } }

module _ {W : Type 0} (p : Platform W) (sc : ClusterScope) (ms : MachineScope)
    (create : InstanceCreateReq → W → Reply (Option Instance) × W) where
  find-with_create :
      (s : Env W VultrMachine)
      → get_instance_id s.object ≢ ""
      → find_or_create_instance (with_create create p) sc ms s ≡ find_or_create_instance p sc ms s
  unfolding find_or_create_instance get_instance
  find-with_create s known = rw (eq_false_of_ne (get_instance_id s.object) "" known)

  reconcile_instance-with_create :
      (i : Instance)
      → reconcile_instance (with_create create p) sc ms i ≡ reconcile_instance p sc ms i
  unfolding reconcile_instance persist_id patch_object record_details join_load_balancer
      ensure_load_balancer_member report_status
  reconcile_instance-with_create i = refl

  bootstrapped-with_create :
      (s : Env W VultrMachine)
      → get_instance_id s.object ≢ ""
      → reconcile_bootstrapped (with_create create p) sc ms s ≡ reconcile_bootstrapped p sc ms s
  unfolding reconcile_bootstrapped ◌>>=◌ reconcile_instance persist_id patch_object record_details
      join_load_balancer ensure_load_balancer_member report_status
  bootstrapped-with_create s known = rw (find-with_create s known)

  bootstrap-with_create :
      (name : Option String) (s : Env W VultrMachine)
      → get_instance_id s.object ≢ ""
      → reconcile_bootstrap (with_create create p) sc ms name s ≡ reconcile_bootstrap p sc ms name s
  unfolding reconcile_bootstrap set_ready_message ◌>>=◌
  bootstrap-with_create none s known = refl
  bootstrap-with_create (some name) s known = bootstrapped-with_create s known

  infrastructure-with_create :
      (ready : Bool) (s : Env W VultrMachine)
      → get_instance_id s.object ≢ ""
      → reconcile_infrastructure (with_create create p) sc ms ready s
        ≡ reconcile_infrastructure p sc ms ready s
  unfolding reconcile_infrastructure set_ready_message ◌>>=◌
  infrastructure-with_create true s known =
      bootstrap-with_create ms.machine.data_secret_name s known
  infrastructure-with_create false s known = refl

  -- A machine whose provider id names an instance is reconciled with no use of the create call:
  -- any other create call gives the same outcome, object, events and world.
  pub reconcile_normal-with_create :
      (s : Env W VultrMachine)
      → get_instance_id s.object ≢ ""
      → reconcile_normal (with_create create p) sc ms s ≡ reconcile_normal p sc ms s
  unfolding reconcile_normal get_instance_id
  reconcile_normal-with_create s known = elim (Bool-cases (has_terminal_failure p.lib s.object)) [
    | inl failed ↦ rw failed
    | inr sound ↦ rw sound (
        infrastructure-with_create
          (p.lib.is_true ms.cluster.conditions infrastructure_ready_condition)
          (record s { object = add_finalizer p.lib machine_finalizer s.object }) known)
  ]
