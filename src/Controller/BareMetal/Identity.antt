-- ===== src/Controller/BareMetal/Identity.antt =====
-- Which instance a VultrBareMetalMachine stands for: it is created once, and its id is persisted first.
use cluster_api_provider_vul.Base.{
  ◌≡◌, ◌≢◌, refl, Option, none, some, String, string_eq, Bool, true, false, Bool-cases,
  eq_false_of_ne, inl, inr,
}
use cluster_api_provider_vul.Base.Exec.{◌>>=◌}
use cluster_api_provider_vul.Api.BareMetal.{VultrBareMetalMachine, bare_metal_machine_finalizer}
use cluster_api_provider_vul.Govultr.{BareMetalServer, BareMetalCreate, Reply}
use cluster_api_provider_vul.Kube.{Platform, Env}
use cluster_api_provider_vul.Scope.Cluster.{ClusterScope}
use cluster_api_provider_vul.Scope.BareMetal.{
  BareMetalMachineScope, has_terminal_failure, get_server_id, add_finalizer,
}
use cluster_api_provider_vul.Controller.BareMetal.{
  find_or_create_server, reconcile_infrastructure, reconcile_bootstrap, reconcile_bootstrapped,
  reconcile_normal, set_ready_message, record_details, attach_vpc, reconcile_server,
  join_load_balancer, finish_active,
}
use cluster_api_provider_vul.Services.CloudConfig.Prepend.{Yaml}
use cluster_api_provider_vul.Services.BareMetal.{get_bare_metal_server, ensure_bare_metal_vpc}
use cluster_api_provider_vul.Services.LoadBalancer.{ensure_load_balancer_member}

-- The same platform with another create call.
abbrev pub with_create_server :
    {W : Type 0}
    → (BareMetalCreate → W → Reply (Option BareMetalServer) × W)
    → Platform W
    → Platform W
with_create_server create p = record p { api = record p.api { create_server = create } }

module _ {W V : Type 0} (p : Platform W) (yaml : Yaml V) (sc : ClusterScope)
    (ms : BareMetalMachineScope)
    (create : BareMetalCreate → W → Reply (Option BareMetalServer) × W) where
  find_server-with_create :
      (s : Env W VultrBareMetalMachine)
      → get_server_id s.object ≢ ""
      → find_or_create_server (with_create_server create p) yaml sc ms s
        ≡ find_or_create_server p yaml sc ms s
  unfolding find_or_create_server get_bare_metal_server
  find_server-with_create s known = rw (eq_false_of_ne (get_server_id s.object) "" known)

  reconcile_server-with_create :
      (i : BareMetalServer)
      → reconcile_server (with_create_server create p) yaml sc ms i
        ≡ reconcile_server p yaml sc ms i
  unfolding reconcile_server record_details attach_vpc ensure_bare_metal_vpc join_load_balancer
      ensure_load_balancer_member finish_active
  reconcile_server-with_create i = refl

  bootstrapped-with_create :
      (s : Env W VultrBareMetalMachine)
      → get_server_id s.object ≢ ""
      → reconcile_bootstrapped (with_create_server create p) yaml sc ms s
        ≡ reconcile_bootstrapped p yaml sc ms s
  unfolding reconcile_bootstrapped ◌>>=◌ reconcile_server record_details attach_vpc
      ensure_bare_metal_vpc join_load_balancer ensure_load_balancer_member finish_active
  bootstrapped-with_create s known = rw (find_server-with_create s known)

  bootstrap-with_create :
      (name : Option String) (s : Env W VultrBareMetalMachine)
      → get_server_id s.object ≢ ""
      → reconcile_bootstrap (with_create_server create p) yaml sc ms name s
        ≡ reconcile_bootstrap p yaml sc ms name s
  unfolding reconcile_bootstrap set_ready_message ◌>>=◌
  bootstrap-with_create none s known = refl
  bootstrap-with_create (some name) s known = bootstrapped-with_create s known

  infrastructure-with_create :
      (ready : Option Bool) (s : Env W VultrBareMetalMachine)
      → get_server_id s.object ≢ ""
      → reconcile_infrastructure (with_create_server create p) yaml sc ms ready s
        ≡ reconcile_infrastructure p yaml sc ms ready s
  unfolding reconcile_infrastructure set_ready_message ◌>>=◌
  infrastructure-with_create (some true) s known =
      bootstrap-with_create ms.machine.data_secret_name s known
  infrastructure-with_create (some false) s known = refl
  infrastructure-with_create none s known = refl

  -- A machine whose provider id names a server is reconciled with no use of the create call:
  -- any other create call gives the same outcome, object, events and world.
  pub reconcile_normal-with_create_server :
      (s : Env W VultrBareMetalMachine)
      → get_server_id s.object ≢ ""
      → reconcile_normal (with_create_server create p) yaml sc ms s
        ≡ reconcile_normal p yaml sc ms s
  unfolding reconcile_normal get_server_id
  reconcile_normal-with_create_server s known =
      elim (Bool-cases (has_terminal_failure p.lib s.object)) [
        | inl failed ↦ rw failed
        | inr sound ↦ rw sound (
            infrastructure-with_create (ms.cluster.infrastructure_provisioned)
              (record s { object = add_finalizer p.lib bare_metal_machine_finalizer s.object })
              known)
      ]
