-- ===== src/Controller/Mapping.antt =====
-- The functions that turn an event on a VultrCluster into requests for its machines:
-- `VultrClusterToVultrMachines` and `VultrClusterToVultrBareMetalMachines`. Logged errors end in
-- no requests.
pub mod Requests
use cluster_api_provider_vul.Base.{
  String, Bool, not, ◌&&◌, List, [], map, select, ◌==◌, string_eq, Option, none, some,
}
use cluster_api_provider_vul.Api.Cluster.{VultrCluster}
use cluster_api_provider_vul.Kube.{
  CapiCluster, CapiMachine, Platform, Fetched, found, missing, failed,
}

-- `NamespacedName`
pub record Request : Type 0 where
  pub namespace : String
  pub name : String

unfoldable pub request_for : CapiMachine → Request
request_for m = record { namespace = m.namespace; name = m.infrastructure_ref_name }

-- The tests of the two loops over the cluster's machines.
unfoldable pub has_infrastructure : CapiMachine → Bool
has_infrastructure m = not (m.infrastructure_ref_name == "")

unfoldable pub has_bare_metal_infrastructure : CapiMachine → Bool
has_bare_metal_infrastructure m =
    not (m.infrastructure_ref_name == "") && m.infrastructure_ref_kind == "VultrBareMetalMachine"

module _ {W : Type 0} (p : Platform W) (wanted : CapiMachine → Bool) where
  listed_requests : Fetched (List CapiMachine) × W → List Request × W
  listed_requests (found machines, w) = (map request_for (select wanted machines), w)
  listed_requests (missing e, w) = ([], w)
  listed_requests (failed e, w) = ([], w)

  owned_requests : VultrCluster → Fetched (Option CapiCluster) × W → List Request × W
  owned_requests c (found (some cluster), w) =
      listed_requests (p.kube.list_machines c.namespace cluster.name w)
  owned_requests c (found none, w) = ([], w)
  owned_requests c (missing e, w) = ([], w)
  owned_requests c (failed e, w) = ([], w)

  -- The object is none where it is no VultrCluster.
  unfoldable pub cluster_to_requests : Option VultrCluster → W → List Request × W
  unfolding request_for select listed_requests owned_requests
  cluster_to_requests none w = ([], w)
  cluster_to_requests (some c) w = owned_requests c (p.kube.get_owner_cluster c w)

module _ {W : Type 0} (p : Platform W) where
  unfoldable pub vultr_cluster_to_vultr_machines : Option VultrCluster → W → List Request × W
  unfolding cluster_to_requests has_infrastructure
  vultr_cluster_to_vultr_machines = cluster_to_requests p has_infrastructure

  unfoldable pub vultr_cluster_to_vultr_bare_metal_machines :
      Option VultrCluster → W → List Request × W
  unfolding cluster_to_requests has_bare_metal_infrastructure
  vultr_cluster_to_vultr_bare_metal_machines = cluster_to_requests p has_bare_metal_infrastructure
