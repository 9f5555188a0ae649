-- ===== src/Scope/BareMetal.antt =====
-- cloud/scope/baremetal_machine.go
use cluster_api_provider_vul.Base.{
  ℤ, String, Bool, true, false, List, [], ◌∷◌, string_eq, none, some, contains, Option, wrapf,
  plain,
}
use cluster_api_provider_vul.Base.Exec.{Exec, pure, raise, call, on_error, ◌>>=◌, ◌>>◌}
use cluster_api_provider_vul.Api.Cluster.{VultrCluster}
use cluster_api_provider_vul.Api.Status.{SubscriptionStatus}
use cluster_api_provider_vul.Api.Conditions.{
  ConditionStatus, condition_false, Message, ready_condition, unexpected_status_reason,
  vpc_attach_failed_reason,
}
use cluster_api_provider_vul.Api.Machine.{NodeAddress}
use cluster_api_provider_vul.Api.BareMetal.{
  get_conditions, set_conditions, VultrBareMetalMachine, VultrBareMetalVpcStatus,
}
use cluster_api_provider_vul.Kube.{CapiMachine, CapiCluster, Library, Platform}
use cluster_api_provider_vul.Kube.Actions.{fail_with, require}
use cluster_api_provider_vul.Scope.Bootstrap.{machine_role}
use cluster_api_provider_vul.Scope.ProviderId.{
  provider_id_to_resource_id, resource_id_to_provider_id,
}
use cluster_api_provider_vul.Scope.Machine.{fails_with}

-- The objects of a `BareMetalMachineScope` that a reconcile only reads.
pub record BareMetalMachineScope : Type 0 where
  pub machine : CapiMachine
  pub cluster : CapiCluster

-- `terminalBareMetalReasons`
abbrev pub terminal_bare_metal_reasons : List String
terminal_bare_metal_reasons = unexpected_status_reason ∷ vpc_attach_failed_reason ∷ []

unfoldable pub get_provider_id : VultrBareMetalMachine → String
get_provider_id m = elim m.spec.provider_id [ none ↦ "" | some id ↦ id ]

unfoldable pub get_server_id : VultrBareMetalMachine → String
unfolding get_provider_id
get_server_id m = provider_id_to_resource_id (get_provider_id m)

unfoldable pub set_provider_id : String → VultrBareMetalMachine → VultrBareMetalMachine
set_provider_id id m = record m {
  spec = record m.spec { provider_id = some (resource_id_to_provider_id id) };
}

abbrev pub set_ready : VultrBareMetalMachine → VultrBareMetalMachine
set_ready m = record m { status = record m.status { ready = true } }

abbrev pub set_provisioned : VultrBareMetalMachine → VultrBareMetalMachine
set_provisioned m = record m {
  status = record m.status { initialization = record { provisioned = some true } };
}

abbrev pub set_addresses : List NodeAddress → VultrBareMetalMachine → VultrBareMetalMachine
set_addresses addrs m = record m { status = record m.status { addresses = addrs } }

abbrev pub set_server_status : SubscriptionStatus → VultrBareMetalMachine → VultrBareMetalMachine
set_server_status v m = record m { status = record m.status { subscription_status = some v } }

abbrev pub set_hardware : ℤ → String → String → VultrBareMetalMachine → VultrBareMetalMachine
set_hardware cpu ram disk m = record m {
  status = record m.status { cpu = cpu; ram = ram; disk = disk };
}

abbrev pub set_vpc : VultrBareMetalVpcStatus → VultrBareMetalMachine → VultrBareMetalMachine
set_vpc vpc m = record m { status = record m.status { vpc = some vpc } }

module _ (lib : Library) where
  unfoldable pub set_ready_condition :
      ConditionStatus → String → Message → VultrBareMetalMachine → VultrBareMetalMachine
  set_ready_condition status reason message m =
      set_conditions
        (lib.set_condition
          (record { type = ready_condition; status = status; reason = reason; message = message })
          (get_conditions m))
        m

  unfoldable pub set_terminal_failure :
      String → Message → VultrBareMetalMachine → VultrBareMetalMachine
  unfolding set_ready_condition
  set_terminal_failure reason message m =
      let m' = set_ready_condition condition_false reason message m in
      record m' { status = record m'.status { ready = false } }

  unfoldable pub has_terminal_failure : VultrBareMetalMachine → Bool
  unfolding contains
  has_terminal_failure m =
      fails_with terminal_bare_metal_reasons (lib.get_condition (get_conditions m) ready_condition)

  abbrev pub add_finalizer : String → VultrBareMetalMachine → VultrBareMetalMachine
  add_finalizer f m = record m { finalizers = lib.add_finalizer f m.finalizers }

  abbrev pub remove_finalizer : String → VultrBareMetalMachine → VultrBareMetalMachine
  remove_finalizer f m = record m { finalizers = lib.remove_finalizer f m.finalizers }

-- `IsControlPlane` and `Role`
abbrev pub is_control_plane : Library → BareMetalMachineScope → Bool
is_control_plane lib ms = lib.is_control_plane_machine ms.machine

abbrev pub role : {W : Type 0} → Platform W → BareMetalMachineScope → String
role p ms = machine_role p ms.machine

-- `BareMetalMachineScopeParams`; the client is there or it is nil.
pub record BareMetalMachineScopeParams : Type 0 where
  pub client : Option (Unit {0})
  pub cluster : Option CapiCluster
  pub machine : Option CapiMachine
  pub vultr_cluster : Option VultrCluster
  pub vultr_bare_metal_machine : Option VultrBareMetalMachine

-- `NewBareMetalMachineScope`
module _ {W : Type 0} (p : Platform W) where
  unfoldable pub new_bare_metal_machine_scope :
      BareMetalMachineScopeParams → Exec W BareMetalMachineScope
  unfolding ◌>>=◌ fail_with require
  new_bare_metal_machine_scope params = do
    require "Client is required when creating a BareMetalMachineScope" params.client
    cluster ← require "Cluster is required when creating a BareMetalMachineScope" params.cluster
    machine ← require "Machine is required when creating a BareMetalMachineScope" params.machine
    require "VultrCluster is required when creating a BareMetalMachineScope" params.vultr_cluster
    m ←
        require "VultrBareMetalMachine is required when creating a BareMetalMachineScope"
          params.vultr_bare_metal_machine
    failure ← call (p.kube.new_patch_helper m.namespace m.name)
    on_error (fail_with failure) (λ e. raise (wrapf (plain "failed to init patch helper") e)) pure
    pure (record { machine = machine; cluster = cluster })
