-- ===== src/Scope/Machine.antt =====
-- cloud/scope/machine.go. `Library` is a parameter: conditions and finalizers are Cluster API's.
use cluster_api_provider_vul.Base.{
  ℤ, String, Bool, true, false, List, [], ◌∷◌, string_eq, if◌then◌else◌, Option, none, some,
  contains, wrapf, plain,
}
use cluster_api_provider_vul.Base.Exec.{Exec, pure, raise, call, on_error, ◌>>=◌, ◌>>◌}
use cluster_api_provider_vul.Api.Cluster.{VultrCluster}
use cluster_api_provider_vul.Api.Status.{SubscriptionStatus}
use cluster_api_provider_vul.Api.Conditions.{
  Condition, ConditionStatus, condition_false, Message, ready_condition, unexpected_status_reason,
}
use cluster_api_provider_vul.Api.Machine.{get_conditions, set_conditions, VultrMachine, NodeAddress}
use cluster_api_provider_vul.Kube.{CapiMachine, CapiCluster, Library, Platform}
use cluster_api_provider_vul.Kube.Actions.{fail_with, require}
use cluster_api_provider_vul.Scope.Bootstrap.{machine_role}
use cluster_api_provider_vul.Scope.ProviderId.{
  provider_id_to_resource_id, resource_id_to_provider_id,
}

-- The objects of a `MachineScope` that a reconcile only reads.
pub record MachineScope : Type 0 where
  pub machine : CapiMachine
  pub cluster : CapiCluster

-- `terminalMachineReasons`
abbrev pub terminal_machine_reasons : List String
terminal_machine_reasons = unexpected_status_reason ∷ []

abbrev is_condition_false : ConditionStatus → Bool
is_condition_false condition_false = true
is_condition_false _ = false

-- Whether a condition is False with one of the reasons.
abbrev pub fails_with : List String → Option Condition → Bool
fails_with reasons none = false
fails_with reasons (some c) =
    if is_condition_false c.status then contains reasons c.reason else false

-- `SetReady`
abbrev pub set_ready : VultrMachine → VultrMachine
set_ready m = record m { status = record m.status { ready = true } }

-- The write of `Status.Initialization.Provisioned`
abbrev pub set_provisioned : Bool → VultrMachine → VultrMachine
set_provisioned b m = record m {
  status = record m.status { initialization = record { provisioned = b } };
}

module _ (lib : Library) where
  unfoldable pub set_ready_condition :
      ConditionStatus → String → Message → VultrMachine → VultrMachine
  set_ready_condition status reason message m =
      set_conditions
        (lib.set_condition
          (record { type = ready_condition; status = status; reason = reason; message = message })
          (get_conditions m))
        m

  unfoldable pub set_terminal_failure : String → Message → VultrMachine → VultrMachine
  unfolding set_ready_condition
  set_terminal_failure reason message m =
      let m' = set_ready_condition condition_false reason message m in
      record m' {
        status = record m'.status {
          ready = false;
          initialization = record { provisioned = false };
        };
      }

  unfoldable pub has_terminal_failure : VultrMachine → Bool
  unfolding contains
  has_terminal_failure m =
      fails_with terminal_machine_reasons (lib.get_condition (get_conditions m) ready_condition)

  abbrev pub add_finalizer : String → VultrMachine → VultrMachine
  add_finalizer f m = record m { finalizers = lib.add_finalizer f m.finalizers }

  abbrev pub remove_finalizer : String → VultrMachine → VultrMachine
  remove_finalizer f m = record m { finalizers = lib.remove_finalizer f m.finalizers }

-- `GetProviderID`
unfoldable pub get_provider_id : VultrMachine → String
get_provider_id m = elim m.spec.provider_id [ none ↦ "" | some id ↦ id ]

unfoldable pub get_instance_id : VultrMachine → String
unfolding get_provider_id
get_instance_id m = provider_id_to_resource_id (get_provider_id m)

unfoldable pub set_provider_id : String → VultrMachine → VultrMachine
set_provider_id id m = record m {
  spec = record m.spec { provider_id = some (resource_id_to_provider_id id) };
}

abbrev pub set_instance_status : SubscriptionStatus → VultrMachine → VultrMachine
set_instance_status v m = record m { status = record m.status { subscription_status = some v } }

abbrev pub set_addresses : List NodeAddress → VultrMachine → VultrMachine
set_addresses addrs m = record m { status = record m.status { addresses = addrs } }

abbrev pub set_cpu : ℤ → VultrMachine → VultrMachine
set_cpu v m = record m { status = record m.status { cpu = v } }

abbrev pub set_ram : ℤ → VultrMachine → VultrMachine
set_ram v m = record m { status = record m.status { ram = v } }

abbrev pub set_storage : ℤ → VultrMachine → VultrMachine
set_storage v m = record m { status = record m.status { storage = v } }

-- `IsControlPlane` and `Role`
abbrev pub is_control_plane : Library → MachineScope → Bool
is_control_plane lib ms = lib.is_control_plane_machine ms.machine

abbrev pub role : {W : Type 0} → Platform W → MachineScope → String
role p ms = machine_role p ms.machine

-- `MachineScopeParams`; the client is there or it is nil.
pub record MachineScopeParams : Type 0 where
  pub client : Option (Unit {0})
  pub cluster : Option CapiCluster
  pub machine : Option CapiMachine
  pub vultr_cluster : Option VultrCluster
  pub vultr_machine : Option VultrMachine

-- `NewMachineScope`
module _ {W : Type 0} (p : Platform W) where
  unfoldable pub new_machine_scope : MachineScopeParams → Exec W MachineScope
  unfolding ◌>>=◌ fail_with require
  new_machine_scope params = do
    require "Client is required when creating a MachineScope" params.client
    cluster ← require "Cluster is required when creating a MachineScope" params.cluster
    machine ← require "Machine is required when creating a MachineScope" params.machine
    require "VultrCluster is required when creating a MachineScope" params.vultr_cluster
    m ← require "VultrMachine is required when creating a MachineScope" params.vultr_machine
    failure ← call (p.kube.new_patch_helper m.namespace m.name)
    on_error (fail_with failure) (λ e. raise (wrapf (plain "failed to init patch helper") e)) pure
    pure (record { machine = machine; cluster = cluster })
