-- ===== src/Govultr.antt =====
-- The parts of github.com/vultr/govultr that the provider uses: the resources, the requests and
-- the services. The services are parameters, over a state of the Vultr account and its transport.
use cluster_api_provider_vul.Base.{ℕ, nat_eq, String, Bool, Option, none, some, List, ℤ, GoError}
use cluster_api_provider_vul.Vultrerrors.{captured_status}

pub record Instance : Type 0 where
  pub id : String
  pub label : String
  pub hostname : String
  pub tags : List String
  pub status : String
  pub vcpu_count : ℤ
  pub ram : ℤ
  pub disk : ℤ
  pub main_ip : String
  pub internal_ip : String

pub record InstanceCreateReq : Type 0 where
  pub label : String
  pub hostname : String
  pub region : String
  pub plan : String
  pub ssh_keys : List String
  pub snapshot_id : String
  pub user_data : List ℕ
  pub enable_ipv6 : Option Bool
  pub attach_vpc : List String
  pub tags : List String

pub record BareMetalServer : Type 0 where
  pub id : String
  pub label : String
  pub tags : List String
  pub status : String
  pub plan : String
  pub cpu_count : ℤ
  pub ram : String
  pub disk : String
  pub main_ip : String

pub record BareMetalCreate : Type 0 where
  pub region : String
  pub plan : String
  pub os_id : ℤ
  pub label : String
  pub hostname : String
  pub ssh_key_ids : List String
  pub user_data : List ℕ
  pub mdisk_mode : String
  pub enable_ipv6 : Option Bool
  pub activation_email : Option Bool
  pub tags : List String

pub record VpcInfo : Type 0 where
  pub id : String
  pub ip_address : String
  pub mac_address : String

pub record LoadBalancer : Type 0 where
  pub id : String
  pub label : String
  pub status : String
  pub ipv4 : String
  pub instances : List String

pub record ForwardingRule : Type 0 where
  pub frontend_protocol : String
  pub frontend_port : ℤ
  pub backend_protocol : String
  pub backend_port : ℤ

pub record HealthCheck : Type 0 where
  pub protocol : String
  pub port : ℤ
  pub check_interval : ℤ
  pub response_timeout : ℤ
  pub unhealthy_threshold : ℤ
  pub healthy_threshold : ℤ

pub record LbFirewallRule : Type 0 where
  pub port : ℤ
  pub ip_type : String
  pub source : String

pub record LoadBalancerReq : Type 0 where
  pub label : String
  pub region : String
  pub vpc : Option String
  pub forwarding_rules : List ForwardingRule
  pub health_check : Option HealthCheck
  pub balancing_algorithm : String
  pub firewall_rules : List LbFirewallRule
  pub instances : List String

pub record SshKey : Type 0 where
  pub id : String

-- `ListOptions`; `per_page` is 0 where the source leaves it out.
pub record ListOptions : Type 0 where
  pub per_page : ℕ
  pub tag : String
  pub label : String
  pub cursor : String

-- `Meta`: the next cursor under `Links`, if there are any.
pub record Meta : Type 0 where
  pub links : Option String

-- What a call returns, with the responses that its transport saw.
pub record Reply (A : Type 0) : Type 0 where
  pub value : A
  pub error : Option GoError
  pub response : Option ℕ
  pub meta : Option Meta
  pub rounds : List (Option ℕ)

-- `status()` of the capture made for the call.
abbrev pub status : {A : Type 0} → Reply A → ℕ
status r = captured_status r.rounds

-- `meta.Links.Next`, and "" where a pointer on the way is nil
abbrev pub next_cursor : Option Meta → String
next_cursor none = ""
next_cursor (some m) = elim m.links [ none ↦ "" | some next ↦ next ]

-- `responseCode`
abbrev pub response_code : Option ℕ → ℕ
response_code none = 0
response_code (some code) = code

pub record Api (W : Type 0) : Type 0 where
  pub get_instance : String → W → Reply (Option Instance) × W
  pub list_instances : ListOptions → W → Reply (List Instance) × W
  pub create_instance : InstanceCreateReq → W → Reply (Option Instance) × W
  pub delete_instance : String → W → Reply (Unit {0}) × W
  pub get_server : String → W → Reply (Option BareMetalServer) × W
  pub list_servers : ListOptions → W → Reply (List BareMetalServer) × W
  pub create_server : BareMetalCreate → W → Reply (Option BareMetalServer) × W
  pub delete_server : String → W → Reply (Unit {0}) × W
  pub list_vpc_info : String → W → Reply (List VpcInfo) × W
  pub attach_vpc : String → String → W → Reply (Unit {0}) × W
  pub get_load_balancer : String → W → Reply (Option LoadBalancer) × W
  pub create_load_balancer : LoadBalancerReq → W → Reply (Option LoadBalancer) × W
  pub update_load_balancer : String → LoadBalancerReq → W → Reply (Unit {0}) × W
  pub delete_load_balancer : String → W → Reply (Unit {0}) × W
  pub get_ssh_key : String → W → Reply (Option SshKey) × W
