-- ===== src/Tests/Servers.antt =====
-- The VultrBareMetalMachine controller on concrete machines.
use cluster_api_provider_vul.Base.{
  pos, ◌≡◌, ◌≢◌, refl, String, string_eq, true, false, Option, none, some, [], ◌⊎◌, ok,
}
use cluster_api_provider_vul.Govultr.{BareMetalServer, BareMetalCreate, Reply}
use cluster_api_provider_vul.Api.BareMetal.{VultrBareMetalMachine}
use cluster_api_provider_vul.Scope.ProviderId.{provider_id_to_resource_id}
use cluster_api_provider_vul.Scope.BareMetal.{get_server_id, set_provider_id, set_ready_condition}
use cluster_api_provider_vul.Services.CloudConfig.Prepend.{Yaml}
use cluster_api_provider_vul.Services.LoadBalancer.{ensure_load_balancer_member}
use cluster_api_provider_vul.Scope.Cluster.{api_server_load_balancer_id}
use cluster_api_provider_vul.Controller.BareMetal.{
  reconcile_normal, reconcile_delete, reconcile_server, record_details, attach_vpc,
  join_load_balancer, finish_active,
}
use cluster_api_provider_vul.Controller.BareMetal.Identity.{
  with_create_server, reconcile_normal-with_create_server,
}
use cluster_api_provider_vul.Controller.BareMetal.Deletion.{
  ReleasesServer, reconcile_delete-ReleasesServer,
}
use cluster_api_provider_vul.Controller.BareMetal.Readiness.{
  ServerBecameReady, reconcile_server-ServerBecameReady,
}
use cluster_api_provider_vul.Base.{false, string_eq, eq_iff, arith}
use cluster_api_provider_vul.Kube.{done}
use cluster_api_provider_vul.Tests.Sample.{list_library-IsLawful}
use cluster_api_provider_vul.Controller.BareMetal.Terminal.{unexpected_server_status_final}
use cluster_api_provider_vul.Tests.Sample.{
  Account, sample, cluster_scope, bare_metal_scope, start, bare_metal_machine, error_reply,
}

-- A document library that knows only empty maps.
abbrev pub empty_yaml : Yaml String
empty_yaml = record { scalar = λ b. ""; unmarshal = λ b. ok (some []); marshal = λ doc. ok [] }

abbrev known_machine : VultrBareMetalMachine
known_machine = bare_metal_machine (some "vultr://s-1")

abbrev active_server : BareMetalServer
active_server = record {
  id = "s-1";
  label = "b1";
  tags = [];
  status = "active";
  plan = "vbm-4c-32gb";
  cpu_count = pos 8;
  ram = "32768 MB";
  disk = "2x 240GB SSD";
  main_ip = "203.0.113.8";
}

abbrev refuse_server : BareMetalCreate → Account → Reply (Option BareMetalServer) × Account
refuse_server req w = (error_reply none 500, w)

known_server-ne : get_server_id known_machine ≢ ""
unfolding get_server_id provider_id_to_resource_id
known_server-ne h = cc

reconcile_normal-with_create_server_example :
    reconcile_normal
      (with_create_server refuse_server sample)
      empty_yaml
      cluster_scope
      bare_metal_scope
      (start known_machine)
    ≡ reconcile_normal sample empty_yaml cluster_scope bare_metal_scope (start known_machine)
reconcile_normal-with_create_server_example =
    reconcile_normal-with_create_server sample empty_yaml cluster_scope bare_metal_scope
      refuse_server (start known_machine) known_server-ne

reconcile_delete-ReleasesServer_example :
    let (r, s') =
      reconcile_delete sample empty_yaml cluster_scope bare_metal_scope (start known_machine) in
    (s'.object.finalizers ≡ [])
    ⊎ ReleasesServer sample empty_yaml cluster_scope bare_metal_scope (start known_machine) s' r
reconcile_delete-ReleasesServer_example =
    reconcile_delete-ReleasesServer sample empty_yaml cluster_scope bare_metal_scope
      (start known_machine)

server_becomes_ready :
    (reconcile_server sample empty_yaml cluster_scope bare_metal_scope active_server
      (start known_machine)).1.object.status.ready
    ≡ true
unfolding reconcile_server record_details set_provider_id attach_vpc join_load_balancer
    api_server_load_balancer_id ensure_load_balancer_member finish_active set_ready_condition
server_becomes_ready = refl

reconcile_server-ServerBecameReady_example :
    let (r, s') =
      reconcile_server sample empty_yaml cluster_scope bare_metal_scope active_server
        (start known_machine) in
    (false ≡ true)
    ⊎ ServerBecameReady sample empty_yaml cluster_scope bare_metal_scope ""
        (start known_machine).world
        s'
        active_server
        r
reconcile_server-ServerBecameReady_example =
    reconcile_server-ServerBecameReady sample empty_yaml cluster_scope bare_metal_scope
      active_server (start known_machine) server_becomes_ready

abbrev suspended_server : BareMetalServer
suspended_server = record active_server { status = "suspended" }

suspended-ne-pending : suspended_server.status ≢ "pending"
suspended-ne-pending h = ground (arith, eq_iff "suspended" "pending")

suspended-ne-active : suspended_server.status ≢ "active"
suspended-ne-active h = ground (arith, eq_iff "suspended" "active")

unexpected_server_status_final_example :
    let (r, s') =
      reconcile_server sample empty_yaml cluster_scope bare_metal_scope suspended_server
        (start known_machine) in
    (r ≡ ok done)
    × (s'.world ≡ (start known_machine).world)
    × (s'.object.status.ready ≡ false)
    × (reconcile_normal sample empty_yaml cluster_scope bare_metal_scope s' ≡ (ok done, s'))
unexpected_server_status_final_example =
    unexpected_server_status_final sample empty_yaml cluster_scope bare_metal_scope suspended_server
      (start known_machine) list_library-IsLawful suspended-ne-pending suspended-ne-active
