-- ===== src/Controller/Machine/Launch.antt =====
-- When a reconcile of a VultrMachine starts an instance.
use cluster_api_provider_vul.Base.{
  ◌≡◌, String, string_eq, Bool, true, false, arith, List, Option, none, some, ok,
}
use cluster_api_provider_vul.Base.Exec.{◌>>=◌, pure, on_error}
use cluster_api_provider_vul.Base.Respects.{bind-at, Respects, pure-Respects}
use cluster_api_provider_vul.Api.Tags.{BuildTagParams}
use cluster_api_provider_vul.Api.Machine.{VultrMachine, machine_finalizer}
use cluster_api_provider_vul.Govultr.{Instance}
use cluster_api_provider_vul.Kube.{Platform, Env, requeue_in, infrastructure_ready_condition}
use cluster_api_provider_vul.Kube.Actions.{get_object, modify, emit, in_world}
use cluster_api_provider_vul.Scope.Bootstrap.{machine_role}
use cluster_api_provider_vul.Scope.Cluster.{ClusterScope, machine_tag_params}
use cluster_api_provider_vul.Scope.Machine.{MachineScope, get_instance_id, add_finalizer}
use cluster_api_provider_vul.Services.Instance.{
  instance_owned_by_machine, create_instance, get_instance, find_instance_for_machine,
}
use cluster_api_provider_vul.Services.Account.{
  run_of_shrinks, Ownership, Run, Run-trans, here, run_order, shrink_order, owned_count,
}
use cluster_api_provider_vul.Services.Instance.Cloud.{IsCloud, instance_owner}
use cluster_api_provider_vul.Services.Instance.Keeps.{
  get_instance-keeps, find_instance_for_machine-keeps,
}
use cluster_api_provider_vul.Services.Instance.Launch.{find_none-owned, create_instance-launch}
use cluster_api_provider_vul.Controller.Machine.Keeps.{reconcile_instance-Respects}
use cluster_api_provider_vul.Controller.Steps.{env_order}
use cluster_api_provider_vul.Controller.Machine.{
  set_ready_message, report_missing, create_new, find_or_create_instance, reconcile_instance,
  reconcile_bootstrapped, reconcile_bootstrap, reconcile_infrastructure, reconcile_normal,
  not_found_requeue,
}

module _ {W : Type 0} (p : Platform W) (sc : ClusterScope) (ms : MachineScope) where
  -- The parameters of the machine's tags, by which it knows its instances.
  abbrev pub tag_params : VultrMachine → BuildTagParams
  tag_params m = machine_tag_params sc m.name (machine_role p ms.machine)

module _ {W : Type 0} (Among : BuildTagParams → Type 0) (p : Platform W)
    (instances : W → List Instance) (cloud : IsCloud p instances) (sc : ClusterScope)
    (ms : MachineScope) where
  abbrev owner : Ownership Instance
  owner = instance_owner Among

  create_new-world :
      (s : Env W VultrMachine)
      → (create_new p sc ms s).1.world ≡ (create_instance p sc ms.machine s.object s.world).1
  unfolding create_new ◌>>=◌ on_error emit get_object modify in_world
  create_new-world s = ground arith

  abbrev Belongs : VultrMachine → Type 0
  Belongs m = Among (tag_params p sc ms m)

  create_new-Run :
      (s : Env W VultrMachine)
      → Belongs s.object
      → owned_count instance_owned_by_machine (tag_params p sc ms s.object) (instances s.world) ≡ 0
      → Run owner (instances s.world) (instances (create_new p sc ms s).1.world)
  create_new-Run s among none_owned = rw (create_new-world s) (
      create_instance-launch p instances cloud Among sc ms.machine s.object s.world among
        none_owned)

  report_missing-world :
      (id : String) (s : Env W VultrMachine) → (report_missing p sc ms id s).1.world ≡ s.world
  unfolding report_missing ◌>>=◌ get_object modify emit
  report_missing-world id s = ground arith

  find_or_create-Run :
      (s : Env W VultrMachine)
      → Belongs s.object
      → Run owner (instances s.world) (instances (find_or_create_instance p sc ms s).1.world)
  unfolding find_or_create_instance shrink_order
  find_or_create-Run s among =
      let id = get_instance_id s.object in
      let m = s.object in
      let role = machine_role p ms.machine in
      let found = find_instance_for_machine p sc m.name role s.world in
      let s' : Env W VultrMachine = record s { world = found.1 } in
      let searched : Run owner (instances s.world) (instances found.1) =
        run_of_shrinks
          ((find_instance_for_machine-keeps p instances cloud sc m.name role).run s.world) in
      let created : found.0 ≡ ok none
          → Run owner (instances s.world) (instances (create_new p sc ms s').1.world) =
        λ e. Run-trans searched (
          create_new-Run s' among
            (find_none-owned p instances cloud Among sc m.name role s.world e)) in
      let read : Run owner (instances s.world) (instances (get_instance p id s.world).1) =
        run_of_shrinks ((get_instance-keeps p instances cloud id).run s.world) in
      ground (
        arith,
        searched,
        created,
        read,
        report_missing-world id (record s { world = (get_instance p id s.world).1 }),
      )

  reconcile_bootstrapped-Run :
      (s : Env W VultrMachine)
      → Belongs s.object
      → Run owner (instances s.world) (instances (reconcile_bootstrapped p sc ms s).1.world)
  unfolding reconcile_bootstrapped run_order
  reconcile_bootstrapped-Run s among =
      bind-at (env_order owner instances) (find_or_create_instance p sc ms) _ s
        (find_or_create-Run s among) (λ found _. (after found).run _)
    where
      after :
          (found : Option Instance)
          → Respects (env_order {O = VultrMachine} owner instances) (elim found [
            | none ↦ pure (requeue_in not_found_requeue)
            | some i ↦ reconcile_instance p sc ms i
          ])
      after none = pure-Respects _
      after (some i) = reconcile_instance-Respects Among p instances cloud sc ms i

  reconcile_bootstrap-Run :
      (name : Option String) (s : Env W VultrMachine)
      → Belongs s.object
      → Run owner (instances s.world) (instances (reconcile_bootstrap p sc ms name s).1.world)
  unfolding reconcile_bootstrap set_ready_message ◌>>=◌ modify
  reconcile_bootstrap-Run none s among = here
  reconcile_bootstrap-Run (some name) s among = reconcile_bootstrapped-Run s among

  reconcile_infrastructure-Run :
      (ready : Bool) (s : Env W VultrMachine)
      → Belongs s.object
      → Run owner (instances s.world) (instances (reconcile_infrastructure p sc ms ready s).1.world)
  unfolding reconcile_infrastructure set_ready_message ◌>>=◌ modify
  reconcile_infrastructure-Run true s among =
      reconcile_bootstrap-Run ms.machine.data_secret_name s among
  reconcile_infrastructure-Run false s among = here

  -- `reconcileNormal` only loses instances or starts one for a machine that owns none at that
  -- moment.
  pub reconcile_normal-Run :
      (s : Env W VultrMachine)
      → Belongs s.object
      → Run owner (instances s.world) (instances (reconcile_normal p sc ms s).1.world)
  unfolding reconcile_normal
  reconcile_normal-Run s among =
      let s' : Env W VultrMachine = record s {
        object = add_finalizer p.lib machine_finalizer s.object;
      } in
      let went =
        reconcile_infrastructure-Run
          (p.lib.is_true ms.cluster.conditions infrastructure_ready_condition) s' among in
      let stayed : Run owner (instances s.world) (instances s.world) = here in
      ground (arith, went, stayed)
