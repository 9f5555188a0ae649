-- ===== src/Api/Cluster.antt =====
-- api/v1beta2/vultrcluster_types.go
use cluster_api_provider_vul.Base.{String, Bool, false, Option, none, List, [], ℤ, pos}
use cluster_api_provider_vul.Api.Status.{VultrNetworkResource}
use cluster_api_provider_vul.Api.LoadBalancer.{VultrLoadBalancer, NetworkSpec}
use cluster_api_provider_vul.Api.Conditions.{Condition}

abbrev pub cluster_finalizer : String
cluster_finalizer = "vultrcluster.infrastructure.cluster.x-k8s.io"

-- `clusterv1.APIEndpoint`
pub record ApiEndpoint : Type 0 where
  pub host : String
  pub port : ℤ

pub record VultrClusterSpec : Type 0 where
  pub region : String
  pub network : NetworkSpec
  pub control_plane_endpoint : ApiEndpoint
  pub vpc_id : String

pub record ClusterInitializationStatus : Type 0 where
  pub provisioned : Option Bool

pub record VultrClusterStatus : Type 0 where
  pub ready : Bool
  pub initialization : ClusterInitializationStatus
  pub conditions : List Condition
  pub network : VultrNetworkResource

-- Of the object's metadata, what the provider reads and writes.
pub record VultrCluster : Type 0 where
  pub name : String
  pub namespace : String
  pub finalizers : List String
  pub deleting : Bool
  pub spec : VultrClusterSpec
  pub status : VultrClusterStatus

-- `VultrLoadBalancer{}`
abbrev pub zero_load_balancer : VultrLoadBalancer
zero_load_balancer = record {
  id = "";
  date_created = "";
  region = "";
  label = "";
  status = "";
  ipv4 = "";
  ipv6 = "";
  instances = [];
  nodes = pos 0;
  health_check = none;
  generic_info = none;
  ssl_info = none;
  forwarding_rules = [];
  firewall_rules = [];
}

-- `&VultrCluster{}`
abbrev pub zero_vultr_cluster : VultrCluster
zero_vultr_cluster = record {
  name = "";
  namespace = "";
  finalizers = [];
  deleting = false;
  spec = record {
    region = "";
    network = record { api_server_loadbalancers = zero_load_balancer };
    control_plane_endpoint = record { host = ""; port = pos 0 };
    vpc_id = "";
  };
  status = record {
    ready = false;
    initialization = record { provisioned = none };
    conditions = [];
    network = record {
      api_server_loadbalancers_ref = record {
        resource_id = "";
        resource_subscription_status = "";
        resource_power_status = "";
        resource_server_state = "";
      };
    };
  };
}

-- `GetConditions` and `SetConditions`, by which the `conditions` package reads and writes
abbrev pub get_conditions : VultrCluster → List Condition
get_conditions c = c.status.conditions

abbrev pub set_conditions : List Condition → VultrCluster → VultrCluster
set_conditions conditions c = record c { status = record c.status { conditions = conditions } }
