-- ===== src/Controller/BareMetal/Launch.antt =====
-- When a reconcile of a VultrBareMetalMachine starts a server.
use cluster_api_provider_vul.Base.{
  ◌≡◌, String, string_eq, Bool, true, false, arith, List, Option, none, some, ok,
}
use cluster_api_provider_vul.Base.Exec.{◌>>=◌, pure, on_error}
use cluster_api_provider_vul.Base.Respects.{Preorder, Respects, bind-at, pure-Respects}
use cluster_api_provider_vul.Api.Tags.{BuildTagParams}
use cluster_api_provider_vul.Api.BareMetal.{VultrBareMetalMachine, bare_metal_machine_finalizer}
use cluster_api_provider_vul.Govultr.{BareMetalServer}
use cluster_api_provider_vul.Kube.{Platform, Env, requeue_in}
use cluster_api_provider_vul.Kube.Actions.{get_object, modify, emit, in_world}
use cluster_api_provider_vul.Scope.Bootstrap.{machine_role}
use cluster_api_provider_vul.Scope.Cluster.{ClusterScope, machine_tag_params}
use cluster_api_provider_vul.Scope.BareMetal.{BareMetalMachineScope, get_server_id, add_finalizer}
use cluster_api_provider_vul.Services.CloudConfig.Prepend.{Yaml}
use cluster_api_provider_vul.Services.BareMetal.{
  create_bare_metal_server, get_bare_metal_server, find_bare_metal_server_by_tags,
}
use cluster_api_provider_vul.Services.Account.{
  Run, Run-trans, here, run_order, run_of_shrinks, shrink_order, owned_count,
}
use cluster_api_provider_vul.Services.BareMetal.Listing.{server_owned}
use cluster_api_provider_vul.Services.BareMetal.Cloud.{IsServerCloud, server_owner, Harmless}
use cluster_api_provider_vul.Services.BareMetal.Keeps.{get_server-keeps, find_server-keeps}
use cluster_api_provider_vul.Services.BareMetal.Launch.{find_none-owned, create_server-launch}
use cluster_api_provider_vul.Controller.BareMetal.Keeps.{reconcile_server-Respects}
use cluster_api_provider_vul.Controller.Steps.{env_order}
use cluster_api_provider_vul.Controller.BareMetal.{
  set_ready_message, report_missing, create_new, find_or_create_server, reconcile_server,
  reconcile_bootstrapped, reconcile_bootstrap, reconcile_infrastructure, reconcile_normal,
  bare_metal_not_found_requeue,
}

module _ {W : Type 0} (p : Platform W) (sc : ClusterScope) (ms : BareMetalMachineScope) where
  -- The parameters of the machine's tags, by which it knows its servers.
  abbrev pub tag_params : VultrBareMetalMachine → BuildTagParams
  tag_params m = machine_tag_params sc m.name (machine_role p ms.machine)

-- The additional tags of a machine do not make its server another machine's.
abbrev pub HarmlessTags : VultrBareMetalMachine → Type 0
HarmlessTags m = (params : BuildTagParams) → Harmless params m.spec.additional_tags

module _ {W V : Type 0} (p : Platform W) (yaml : Yaml V) (servers : W → List BareMetalServer)
    (cloud : IsServerCloud p servers) (sc : ClusterScope) (ms : BareMetalMachineScope) where
  abbrev order : Preorder (Env W VultrBareMetalMachine)
  order = env_order server_owner servers

  create_new-world :
      (s : Env W VultrBareMetalMachine)
      → (create_new p yaml sc ms s).1.world
        ≡ (create_bare_metal_server p yaml sc ms.machine s.object s.world).1
  unfolding create_new ◌>>=◌ on_error emit get_object modify in_world
  create_new-world s = ground arith

  create_new-Run :
      (s : Env W VultrBareMetalMachine)
      → owned_count server_owned (tag_params p sc ms s.object) (servers s.world) ≡ 0
      → HarmlessTags s.object
      → Run server_owner (servers s.world) (servers (create_new p yaml sc ms s).1.world)
  create_new-Run s none_owned harmless = rw (create_new-world s) (
      create_server-launch p servers cloud yaml sc ms.machine s.object s.world none_owned
        (harmless _))

  report_missing-world :
      (id : String) (s : Env W VultrBareMetalMachine)
      → (report_missing p yaml sc ms id s).1.world ≡ s.world
  unfolding report_missing ◌>>=◌ get_object modify emit
  report_missing-world id s = ground arith

  find_or_create-Run :
      (s : Env W VultrBareMetalMachine)
      → HarmlessTags s.object
      → Run server_owner (servers s.world) (servers (find_or_create_server p yaml sc ms s).1.world)
  unfolding find_or_create_server shrink_order
  find_or_create-Run s harmless =
      let id = get_server_id s.object in
      let m = s.object in
      let role = machine_role p ms.machine in
      let found = find_bare_metal_server_by_tags p sc m.name role s.world in
      let s' : Env W VultrBareMetalMachine = record s { world = found.1 } in
      let searched : Run server_owner (servers s.world) (servers found.1) =
        run_of_shrinks ((find_server-keeps p servers cloud sc m.name role).run s.world) in
      let created : found.0 ≡ ok none
          → Run server_owner (servers s.world) (servers (create_new p yaml sc ms s').1.world) =
        λ e.
          Run-trans searched (
            create_new-Run s' (find_none-owned p servers cloud sc m.name role s.world e)
              harmless) in
      let read : Run server_owner (servers s.world)
          (servers (get_bare_metal_server p id s.world).1) =
        run_of_shrinks ((get_server-keeps p servers cloud id).run s.world) in
      ground (
        arith,
        searched,
        created,
        read,
        report_missing-world id (record s { world = (get_bare_metal_server p id s.world).1 }),
      )

  reconcile_bootstrapped-Run :
      (s : Env W VultrBareMetalMachine)
      → HarmlessTags s.object
      → Run server_owner (servers s.world) (servers (reconcile_bootstrapped p yaml sc ms s).1.world)
  unfolding reconcile_bootstrapped run_order
  reconcile_bootstrapped-Run s harmless =
      bind-at order (find_or_create_server p yaml sc ms) _ s (find_or_create-Run s harmless)
        (λ found _. (after found).run _)
    where
      after :
          (found : Option BareMetalServer)
          → Respects order (elim found [
            | none ↦ pure (requeue_in bare_metal_not_found_requeue)
            | some v ↦ reconcile_server p yaml sc ms v
          ])
      after none = pure-Respects _
      after (some v) = reconcile_server-Respects p yaml servers cloud sc ms v

  reconcile_bootstrap-Run :
      (name : Option String) (s : Env W VultrBareMetalMachine)
      → HarmlessTags s.object
      → Run server_owner
          (servers s.world)
          (servers (reconcile_bootstrap p yaml sc ms name s).1.world)
  unfolding reconcile_bootstrap set_ready_message ◌>>=◌ modify
  reconcile_bootstrap-Run none s harmless = here
  reconcile_bootstrap-Run (some name) s harmless = reconcile_bootstrapped-Run s harmless

  reconcile_infrastructure-Run :
      (ready : Option Bool) (s : Env W VultrBareMetalMachine)
      → HarmlessTags s.object
      → Run server_owner
          (servers s.world)
          (servers (reconcile_infrastructure p yaml sc ms ready s).1.world)
  unfolding reconcile_infrastructure set_ready_message ◌>>=◌ modify
  reconcile_infrastructure-Run (some true) s harmless =
      reconcile_bootstrap-Run ms.machine.data_secret_name s harmless
  reconcile_infrastructure-Run (some false) s harmless = here
  reconcile_infrastructure-Run none s harmless = here

  -- Where the additional tags are harmless, `reconcileNormal` only loses servers or starts one for
  -- a machine that owns none at that moment.
  pub reconcile_normal-Run :
      (s : Env W VultrBareMetalMachine)
      → HarmlessTags s.object
      → Run server_owner (servers s.world) (servers (reconcile_normal p yaml sc ms s).1.world)
  unfolding reconcile_normal
  reconcile_normal-Run s harmless =
      let s' : Env W VultrBareMetalMachine = record s {
        object = add_finalizer p.lib bare_metal_machine_finalizer s.object;
      } in
      let went = reconcile_infrastructure-Run ms.cluster.infrastructure_provisioned s' harmless in
      let stayed : Run server_owner (servers s.world) (servers s.world) = here in
      ground (arith, went, stayed)
