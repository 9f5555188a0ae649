-- ===== src/Api/LoadBalancer.antt =====
-- The load balancer of api/v1beta2/types.go, and `ApplyDefaults`.
pub mod Defaults
use cluster_api_provider_vul.Base.{
  String, Bool, Option, none, some, List, ℤ, pos, ◌==◌, string_eq, if◌then◌else◌,
}
use cluster_api_provider_vul.Base.Int.{is_zero}

pub record HealthCheck : Type 0 where
  pub protocol : String
  pub port : ℤ
  pub path : String
  pub check_interval : ℤ
  pub response_timeout : ℤ
  pub unhealthy_threshold : ℤ
  pub healthy_threshold : ℤ

pub record StickySessions : Type 0 where
  pub cookie_name : String

pub record GenericInfo : Type 0 where
  pub balancing_algorithm : String
  pub ssl_redirect : Option Bool
  pub sticky_sessions : Option StickySessions
  pub proxy_protocol : Option Bool
  pub private_network : String
  pub vpc : String

pub record ForwardingRule : Type 0 where
  pub rule_id : String
  pub frontend_protocol : String
  pub frontend_port : ℤ
  pub backend_protocol : String
  pub backend_port : ℤ

pub record LbFirewallRule : Type 0 where
  pub rule_id : String
  pub port : ℤ
  pub ip_type : String
  pub source : String

pub record VultrLoadBalancer : Type 0 where
  pub id : String
  pub date_created : String
  pub region : String
  pub label : String
  pub status : String
  pub ipv4 : String
  pub ipv6 : String
  pub instances : List String
  pub nodes : ℤ
  pub health_check : Option HealthCheck
  pub generic_info : Option GenericInfo
  pub ssl_info : Option Bool
  pub forwarding_rules : List ForwardingRule
  pub firewall_rules : List LbFirewallRule

pub record NetworkSpec : Type 0 where
  pub api_server_loadbalancers : VultrLoadBalancer

abbrev pub default_lb_port : ℤ
default_lb_port = pos 6443

abbrev pub default_lb_algorithm : String
default_lb_algorithm = "roundrobin"

abbrev pub default_lb_health_check_interval : ℤ
default_lb_health_check_interval = pos 15

abbrev pub default_lb_health_check_timeout : ℤ
default_lb_health_check_timeout = pos 5

abbrev pub default_lb_health_check_unhealthy_threshold : ℤ
default_lb_health_check_unhealthy_threshold = pos 5

abbrev pub default_lb_health_check_healthy_threshold : ℤ
default_lb_health_check_healthy_threshold = pos 5

-- `&HealthCheck{}`
abbrev pub zero_health_check : HealthCheck
zero_health_check = record {
  protocol = "";
  port = pos 0;
  path = "";
  check_interval = pos 0;
  response_timeout = pos 0;
  unhealthy_threshold = pos 0;
  healthy_threshold = pos 0;
}

-- `&GenericInfo{}`
abbrev pub zero_generic_info : GenericInfo
zero_generic_info = record {
  balancing_algorithm = "";
  ssl_redirect = none;
  sticky_sessions = none;
  proxy_protocol = none;
  private_network = "";
  vpc = "";
}

abbrev pub or_new {ℓ} : {A : Type ℓ} → A → Option A → A
or_new fresh none = fresh
or_new fresh (some a) = a

-- `if field == 0 { field = default }`
abbrev pub or_default : ℤ → ℤ → ℤ
or_default field default = if is_zero field then default else field

unfoldable pub health_check_defaults : HealthCheck → HealthCheck
health_check_defaults h = record h {
  port = or_default h.port default_lb_port;
  check_interval = or_default h.check_interval default_lb_health_check_interval;
  response_timeout = or_default h.response_timeout default_lb_health_check_timeout;
  unhealthy_threshold =
      or_default h.unhealthy_threshold default_lb_health_check_unhealthy_threshold;
  healthy_threshold = or_default h.healthy_threshold default_lb_health_check_healthy_threshold;
}

unfoldable pub generic_info_defaults : GenericInfo → GenericInfo
generic_info_defaults g = record g {
  balancing_algorithm =
      if g.balancing_algorithm == "" then default_lb_algorithm else g.balancing_algorithm;
}

-- `ApplyDefaults`
unfoldable pub apply_defaults : VultrLoadBalancer → VultrLoadBalancer
unfolding health_check_defaults generic_info_defaults
apply_defaults lb = record lb {
  health_check = some (health_check_defaults (or_new zero_health_check lb.health_check));
  generic_info = some (generic_info_defaults (or_new zero_generic_info lb.generic_info));
}
