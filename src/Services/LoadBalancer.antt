-- ===== src/Services/LoadBalancer.antt =====
-- cloud/services/loadbalancer.go
pub mod Members
use cluster_api_provider_vul.Base.{
  String, ◌<>◌, Bool, true, false, not, List, [], ◌∷◌, ◌++◌, map, length, select, contains, ◌==◌,
  nat_eq, string_eq, if◌then◌else◌, Option, none, some, errorf, wrapf, plain, sprintf, str,
}
use cluster_api_provider_vul.Base.Exec.{Exec, pure, raise, panics, call, ◌>>=◌}
use cluster_api_provider_vul.Api.LoadBalancer.{
  VultrLoadBalancer, HealthCheck, GenericInfo, LbFirewallRule,
}
use cluster_api_provider_vul.Govultr
use cluster_api_provider_vul.Govultr.{LoadBalancer, LoadBalancerReq, status}
use cluster_api_provider_vul.Kube.{Platform}
use cluster_api_provider_vul.Scope.Cluster
use cluster_api_provider_vul.Scope.Cluster.{ClusterScope, vpc}

abbrev pub tcp_protocol : String
tcp_protocol = "tcp"

abbrev to_firewall_rule : LbFirewallRule → Govultr.LbFirewallRule
to_firewall_rule r = record { port = r.port; ip_type = r.ip_type; source = r.source }

-- The request of `CreateLoadBalancer`, once the two pointers of the specification are followed.
unfoldable pub create_request :
    ClusterScope → VultrLoadBalancer → HealthCheck → GenericInfo → LoadBalancerReq
unfolding vpc
create_request sc spec health info = record {
  label = Cluster.name sc <> "-" <> Cluster.uid sc;
  region = Cluster.region sc;
  vpc = vpc sc.vultr_cluster;
  forwarding_rules =
      record {
        frontend_protocol = tcp_protocol;
        frontend_port = health.port;
        backend_protocol = tcp_protocol;
        backend_port = health.port;
      }
      ∷ [];
  health_check = some (record {
    protocol = tcp_protocol;
    port = health.port;
    check_interval = health.check_interval;
    response_timeout = health.response_timeout;
    unhealthy_threshold = health.unhealthy_threshold;
    healthy_threshold = health.healthy_threshold;
  });
  balancing_algorithm = info.balancing_algorithm;
  firewall_rules = map to_firewall_rule spec.firewall_rules;
  instances = [];
}

-- A request that names instances alone.
abbrev pub instances_request : List String → LoadBalancerReq
instances_request l = record {
  label = "";
  region = "";
  vpc = none;
  forwarding_rules = [];
  health_check = none;
  balancing_algorithm = "";
  firewall_rules = [];
  instances = l;
}

-- The members that stay when a resource is removed.
unfoldable pub remaining_members : String → List String → List String
unfolding select
remaining_members id members = select (λ member. not (member == id)) members

module _ {W : Type 0} (p : Platform W) where
  unfoldable pub get_load_balancer : String → Exec W (Option LoadBalancer)
  unfolding ◌>>=◌
  get_load_balancer id = if id == "" then pure none else do
    r ← call (p.api.get_load_balancer id)
    elim r.error [ some e ↦ raise e | none ↦ pure r.value ]

  send_create : LoadBalancerReq → Exec W (Option LoadBalancer)
  send_create req = do
    r ← call (p.api.create_load_balancer req)
    elim r.error [ some e ↦ raise e | none ↦ pure r.value ]

  -- A specification with no health check or no generic settings is a nil pointer dereference.
  unfoldable pub create_load_balancer :
      ClusterScope → VultrLoadBalancer → Exec W (Option LoadBalancer)
  unfolding ◌>>=◌ create_request send_create
  create_load_balancer sc spec = elim spec.health_check [
    | none ↦ panics
    | some health ↦ elim spec.generic_info [
      | none ↦ panics
      | some info ↦ send_create (create_request sc spec health info)
    ]
  ]

  unfoldable pub delete_load_balancer : String → Exec W (Unit {0})
  unfolding ◌>>=◌
  delete_load_balancer id = do
    r ← call (p.api.delete_load_balancer id)
    elim r.error [ some e ↦ raise e | none ↦ pure tt ]

  -- The end of `EnsureLoadBalancerMember`: the update that adds the resource.
  append_member : String → String → LoadBalancer → Exec W Bool
  append_member lb_id resource_id lb = do
    r ←
        call
          (p.api.update_load_balancer lb_id (instances_request (lb.instances ++ resource_id ∷ [])))
    elim r.error [
      | none ↦ pure true
      | some e ↦
          if status r == 422
          then pure false
          else raise (
              wrapf
                (sprintf "failed to add %q to load balancer %q" (str resource_id ∷ str lb_id ∷ []))
                e)
    ]

  join : String → String → LoadBalancer → Exec W Bool
  join lb_id resource_id lb =
      if lb.status == "active"
      then if contains lb.instances resource_id
        then pure true
        else append_member lb_id resource_id lb
      else pure false

  unfoldable pub ensure_load_balancer_member : String → String → Exec W Bool
  unfolding ◌>>=◌ join append_member contains
  ensure_load_balancer_member lb_id resource_id =
      if lb_id == "" then raise (errorf (plain "load balancer id is empty")) else do
        r ← call (p.api.get_load_balancer lb_id)
        elim r.error [
          | some e ↦ raise (wrapf (sprintf "failed to get load balancer %q" (str lb_id ∷ [])) e)
          | none ↦ elim r.value [ none ↦ panics | some lb ↦ join lb_id resource_id lb ]
        ]

  -- The update of `RemoveLoadBalancerMember`, which is made only when some members remain.
  send_remaining : String → String → List String → Exec W (Unit {0})
  send_remaining lb_id resource_id [] = pure tt
  send_remaining lb_id resource_id (member ∷ more) = do
    r ← call (p.api.update_load_balancer lb_id (instances_request (member ∷ more)))
    elim r.error [
      | none ↦ pure tt
      | some e ↦ raise (
          wrapf
            (sprintf "failed to remove %q from load balancer %q" (str resource_id ∷ str lb_id ∷ []))
            e)
    ]

  leave : String → String → LoadBalancer → Exec W (Unit {0})
  leave lb_id resource_id lb =
      let remaining = remaining_members resource_id lb.instances in
      if length remaining == length lb.instances
      then pure tt
      else send_remaining lb_id resource_id remaining

  unfoldable pub remove_load_balancer_member : String → String → Exec W (Unit {0})
  unfolding ◌>>=◌ leave send_remaining remaining_members
  remove_load_balancer_member lb_id resource_id = if lb_id == "" then pure tt else do
    r ← call (p.api.get_load_balancer lb_id)
    elim r.error [
      | some e ↦
          if status r == 404
          then pure tt
          else raise (wrapf (sprintf "failed to get load balancer %q" (str lb_id ∷ [])) e)
      | none ↦ elim r.value [ none ↦ panics | some lb ↦ leave lb_id resource_id lb ]
    ]
