-- ===== src/Api/Status.antt =====
-- The statuses of api/v1beta2/types.go, which are strings, and the references that hold them.
use cluster_api_provider_vul.Base.{String}

abbrev pub SubscriptionStatus : Type 0
SubscriptionStatus = String

abbrev pub subscription_pending : SubscriptionStatus
subscription_pending = "pending"

abbrev pub subscription_active : SubscriptionStatus
subscription_active = "active"

abbrev pub PowerStatus : Type 0
PowerStatus = String

abbrev pub power_running : PowerStatus
power_running = "running"

abbrev pub ServerState : Type 0
ServerState = String

pub record VultrResourceReference : Type 0 where
  pub resource_id : String
  pub resource_subscription_status : SubscriptionStatus
  pub resource_power_status : PowerStatus
  pub resource_server_state : ServerState

pub record VultrNetworkResource : Type 0 where
  pub api_server_loadbalancers_ref : VultrResourceReference
