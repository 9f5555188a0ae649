-- ===== src/Api/BareMetal.antt =====
-- api/v1beta2/vultrbaremetalmachine_types.go
use cluster_api_provider_vul.Base.{String, Bool, Option, List, ℤ}
use cluster_api_provider_vul.Api.Status.{SubscriptionStatus}
use cluster_api_provider_vul.Api.Conditions.{Condition}
use cluster_api_provider_vul.Api.Machine.{NodeAddress}

abbrev pub bare_metal_machine_finalizer : String
bare_metal_machine_finalizer = "vultrbaremetalmachine.infrastructure.cluster.x-k8s.io"

abbrev pub BareMetalDiskMode : Type 0
BareMetalDiskMode = String

pub record VultrBareMetalMachineSpec : Type 0 where
  pub provider_id : Option String
  pub region : String
  pub plan_id : String
  pub os_id : ℤ
  pub ssh_key : List String
  pub vpc_id : String
  pub mdisk_mode : BareMetalDiskMode
  pub enable_ipv6 : Option Bool
  pub additional_tags : List String

pub record VultrBareMetalVpcStatus : Type 0 where
  pub id : String
  pub ip_address : String
  pub mac_address : String

pub record BareMetalMachineInitializationStatus : Type 0 where
  pub provisioned : Option Bool

pub record VultrBareMetalMachineStatus : Type 0 where
  pub ready : Bool
  pub initialization : BareMetalMachineInitializationStatus
  pub addresses : List NodeAddress
  pub cpu : ℤ
  pub ram : String
  pub disk : String
  pub subscription_status : Option SubscriptionStatus
  pub vpc : Option VultrBareMetalVpcStatus
  pub conditions : List Condition

-- Of the object's metadata, what the provider reads and writes.
pub record VultrBareMetalMachine : Type 0 where
  pub name : String
  pub namespace : String
  pub finalizers : List String
  pub deleting : Bool
  pub spec : VultrBareMetalMachineSpec
  pub status : VultrBareMetalMachineStatus

-- `GetConditions` and `SetConditions`, by which the `conditions` package reads and writes
abbrev pub get_conditions : VultrBareMetalMachine → List Condition
get_conditions m = m.status.conditions

abbrev pub set_conditions : List Condition → VultrBareMetalMachine → VultrBareMetalMachine
set_conditions conditions m = record m { status = record m.status { conditions = conditions } }
