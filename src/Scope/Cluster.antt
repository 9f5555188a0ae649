-- ===== src/Scope/Cluster.antt =====
-- cloud/scope/cluster.go and clients.go
use cluster_api_provider_vul.Base.{
  String, Bool, true, ◌==◌, string_eq, if◌then◌else◌, Option, none, some, errorf, wrapf, plain,
}
use cluster_api_provider_vul.Base.Exec.{Exec, pure, raise, call, on_error, ◌>>=◌, ◌>>◌}
use cluster_api_provider_vul.Api.Status.{VultrResourceReference}
use cluster_api_provider_vul.Api.LoadBalancer.{VultrLoadBalancer}
use cluster_api_provider_vul.Api.Tags.{BuildTagParams}
use cluster_api_provider_vul.Api.Cluster.{VultrCluster, ApiEndpoint}
use cluster_api_provider_vul.Kube.{CapiCluster, Platform}
use cluster_api_provider_vul.Kube.Actions.{fail_with}

pub record ClusterScope : Type 0 where
  pub cluster : CapiCluster
  pub vultr_cluster : VultrCluster

abbrev pub api_server_loadbalancers : VultrCluster → VultrLoadBalancer
api_server_loadbalancers c = c.spec.network.api_server_loadbalancers

abbrev pub api_server_loadbalancers_ref : VultrCluster → VultrResourceReference
api_server_loadbalancers_ref c = c.status.network.api_server_loadbalancers_ref

-- A write through the pointer that `APIServerLoadbalancers` returns.
abbrev pub set_api_server_loadbalancers : VultrLoadBalancer → VultrCluster → VultrCluster
set_api_server_loadbalancers lb c = record c {
  spec = record c.spec { network = record { api_server_loadbalancers = lb } };
}

-- A write through the pointer that `APIServerLoadbalancersRef` returns.
abbrev pub set_api_server_loadbalancers_ref : VultrResourceReference → VultrCluster → VultrCluster
set_api_server_loadbalancers_ref ref c = record c {
  status = record c.status { network = record { api_server_loadbalancers_ref = ref } };
}

-- `APIServerLoadBalancerID`
unfoldable pub api_server_load_balancer_id : VultrCluster → String
api_server_load_balancer_id c =
    let id = (api_server_loadbalancers_ref c).resource_id in
    if id == "" then (api_server_loadbalancers c).id else id

-- `UID`, `Region` and `Name`
abbrev pub uid : ClusterScope → String
uid s = s.cluster.uid

abbrev pub region : ClusterScope → String
region s = s.vultr_cluster.spec.region

abbrev pub name : ClusterScope → String
name s = s.cluster.name

unfoldable pub machine_tag_params : ClusterScope → String → String → BuildTagParams
machine_tag_params s name role = record {
  cluster_name = s.cluster.name;
  cluster_uid = uid s;
  name = name;
  role = role;
}

-- `SetReady`
abbrev pub set_ready : VultrCluster → VultrCluster
set_ready c = record c { status = record c.status { ready = true } }

abbrev pub set_control_plane_endpoint : ApiEndpoint → VultrCluster → VultrCluster
set_control_plane_endpoint endpoint c = record c {
  spec = record c.spec { control_plane_endpoint = endpoint };
}

-- `VPC`
unfoldable pub vpc : VultrCluster → Option String
vpc c = if c.spec.vpc_id == "" then none else some c.spec.vpc_id

module _ {W : Type 0} (p : Platform W) where
  -- `CreateVultrClient` as far as it can fail
  unfoldable pub create_vultr_client : Exec W (Unit {0})
  unfolding pure raise
  create_vultr_client =
      if p.getenv "VULTR_API_KEY" == ""
      then raise (errorf (plain "VULTR_API_KEY is required"))
      else pure tt

  -- `MachineOnly`
  abbrev pub machine_only : Bool
  machine_only = p.getenv "VULTR_MACHINE_ONLY" == "true"

  -- `NewClusterScope`, with the API clients that the created client gives
  unfoldable pub new_cluster_scope : Option CapiCluster → Option VultrCluster → Exec W ClusterScope
  unfolding ◌>>=◌ create_vultr_client fail_with
  new_cluster_scope none vultr_cluster =
      raise (errorf (plain "Cluster is required when creating a ClusterScope"))
  new_cluster_scope (some cluster) none =
      raise (errorf (plain "VultrCluster is required when creating a ClusterScope"))
  new_cluster_scope (some cluster) (some vultr_cluster) = do
    on_error create_vultr_client (λ e. raise (wrapf (plain "failed to create Vultr Client") e)) pure
    failure ← call (p.kube.new_patch_helper vultr_cluster.namespace vultr_cluster.name)
    on_error (fail_with failure) (λ e. raise (wrapf (plain "failed to init patch helper") e)) pure
    pure (record { cluster = cluster; vultr_cluster = vultr_cluster })
