-- ===== src/Api/Machine.antt =====
-- api/v1beta2/vultrmachine_types.go
use cluster_api_provider_vul.Base.{String, Bool, Option, List, ℤ}
use cluster_api_provider_vul.Api.Status.{SubscriptionStatus, PowerStatus, ServerState}
use cluster_api_provider_vul.Api.Conditions.{Condition}

abbrev pub machine_finalizer : String
machine_finalizer = "vultrmachine.infrastructure.cluster.x-k8s.io"

pub record VultrMachineSpec : Type 0 where
  pub provider_id : Option String
  pub snapshot : String
  pub plan_id : String
  pub region : String
  pub ssh_key : List String
  pub vpc_id : String
  pub vpc_only : Bool
  pub firewall_group_id : String
  pub vpc2_id : String

-- `corev1.NodeAddress`
pub data NodeAddressType : Type 0 where
  internal_ip external_ip : NodeAddressType

pub record NodeAddress : Type 0 where
  pub type : NodeAddressType
  pub address : String

pub record MachineInitializationStatus : Type 0 where
  pub provisioned : Bool

pub record VultrMachineStatus : Type 0 where
  pub ready : Bool
  pub cpu : ℤ
  pub ram : ℤ
  pub storage : ℤ
  pub initialization : MachineInitializationStatus
  pub addresses : List NodeAddress
  pub subscription_status : Option SubscriptionStatus
  pub power_status : Option PowerStatus
  pub server_state : Option ServerState
  pub conditions : List Condition

-- Of the object's metadata, what the provider reads and writes.
pub record VultrMachine : Type 0 where
  pub name : String
  pub namespace : String
  pub finalizers : List String
  pub deleting : Bool
  pub spec : VultrMachineSpec
  pub status : VultrMachineStatus

-- `GetConditions` and `SetConditions`, by which the `conditions` package reads and writes
abbrev pub get_conditions : VultrMachine → List Condition
get_conditions m = m.status.conditions

abbrev pub set_conditions : List Condition → VultrMachine → VultrMachine
set_conditions conditions m = record m { status = record m.status { conditions = conditions } }
