-- ===== src/Controller/Entry.antt =====
-- `Reconcile` of internal/controller/vultrmachine_controller.go and of
-- vultrbaremetalmachine_controller.go. The two are the same but for the object's type and the
-- machine scope.
pub mod Bounds
pub mod Closing
pub mod Keeps
pub mod Requeue
pub mod Worlds
use cluster_api_provider_vul.Base.{
  String, Bool, ◌||◌, string_eq, if◌then◌else◌, Option, none, some, wrapf, plain,
}
use cluster_api_provider_vul.Base.Exec.{Exec, pure, raise, call, on_error, ◌>>=◌, ◌>>◌}
use cluster_api_provider_vul.Api.Cluster.{VultrCluster, zero_vultr_cluster}
use cluster_api_provider_vul.Api.Machine.{VultrMachine}
use cluster_api_provider_vul.Api.BareMetal.{VultrBareMetalMachine}
use cluster_api_provider_vul.Kube.{
  CapiCluster, CapiMachine, Platform, Env, Paused, ReconcileResult, done, Fetched, found, missing,
  failed,
}
use cluster_api_provider_vul.Kube.Actions.{in_world, fail_with, deferring, with_object}
use cluster_api_provider_vul.Scope.Cluster.{ClusterScope, new_cluster_scope, machine_only}
use cluster_api_provider_vul.Scope.Machine.{MachineScope, new_machine_scope}
use cluster_api_provider_vul.Scope.BareMetal.{BareMetalMachineScope, new_bare_metal_machine_scope}
use cluster_api_provider_vul.Services.CloudConfig.Prepend.{Yaml}
use cluster_api_provider_vul.Controller.Machine
use cluster_api_provider_vul.Controller.BareMetal

-- The VultrCluster, or the empty one where a missing one does not matter; none is a return.
unfoldable pub cluster_or_empty : Bool → Fetched VultrCluster → Option VultrCluster
cluster_or_empty needless (found c) = some c
cluster_or_empty needless (missing e) = if needless then some zero_vultr_cluster else none
cluster_or_empty needless (failed e) = if needless then some zero_vultr_cluster else none

-- What differs between the two objects.
pub record Kind (W O S : Type 0) : Type 0 where
  pub get : String → String → W → Fetched O × W
  pub name_of : O → String
  pub namespace_of : O → String
  pub is_deleting : O → Bool
  pub scope_failure : String
  pub new_scope : CapiCluster → CapiMachine → VultrCluster → O → Exec W S
  pub close : ClusterScope → S → Exec (Env W O) (Unit {0})
  pub normal : ClusterScope → S → Exec (Env W O) ReconcileResult
  pub delete : ClusterScope → S → Exec (Env W O) ReconcileResult

module _ {W O S : Type 0} (p : Platform W) (kind : Kind W O S) where
  abbrev Action : Type 0 → Type 0
  Action A = Exec (Env W (Option O)) A

  reconcile_in : O → CapiMachine → CapiCluster → VultrCluster → Action ReconcileResult
  reconcile_in o machine cluster c = do
    sc ←
        on_error (in_world (new_cluster_scope p (some cluster) (some c)))
          (λ e. raise (wrapf (plain "failed to create scope") e)) pure
    ms ←
        on_error (in_world (kind.new_scope cluster machine c o))
          (λ e. raise (wrapf (plain kind.scope_failure) e)) pure
    with_object o (
        deferring (kind.close sc ms)
          (if kind.is_deleting o then kind.delete sc ms else kind.normal sc ms))

  reconcile_for : O → CapiMachine → CapiCluster → Option VultrCluster → Action ReconcileResult
  reconcile_for o machine cluster none = pure done
  reconcile_for o machine cluster (some c) = reconcile_in o machine cluster c

  -- An object whose condition is up to date is not changed by `EnsurePausedCondition`.
  reconcile_unless_paused : O → CapiMachine → CapiCluster → Paused → Action ReconcileResult
  reconcile_unless_paused o machine cluster paused = elim paused.error [
    | some e ↦ raise e
    | none ↦ if paused.is_paused || paused.requeue then pure done else do
      c ← in_world (call (p.kube.get_cluster (kind.namespace_of o) cluster.infrastructure_ref_name))
      reconcile_for o machine cluster (cluster_or_empty (machine_only p || kind.is_deleting o) c)
  ]

  reconcile_clustered : O → CapiMachine → Fetched CapiCluster → Action ReconcileResult
  reconcile_clustered o machine (missing e) = pure done
  reconcile_clustered o machine (failed e) = pure done
  reconcile_clustered o machine (found cluster) = do
    paused ←
        in_world
          (call (p.kube.ensure_paused_condition cluster (kind.namespace_of o) (kind.name_of o)))
    reconcile_unless_paused o machine cluster paused

  reconcile_owned : O → Fetched (Option CapiMachine) → Action ReconcileResult
  reconcile_owned o (missing e) = raise e
  reconcile_owned o (failed e) = raise e
  reconcile_owned o (found none) = pure done
  reconcile_owned o (found (some machine)) = do
    cluster ← in_world (call (p.kube.get_cluster_from_metadata machine))
    reconcile_clustered o machine cluster

  reconcile_fetched : Fetched O → Action ReconcileResult
  reconcile_fetched (missing e) = pure done
  reconcile_fetched (failed e) = raise e
  reconcile_fetched (found o) = do
    owner ← in_world (call (p.kube.get_owner_machine (kind.namespace_of o) (kind.name_of o)))
    reconcile_owned o owner

  -- `Reconcile`
  unfoldable pub reconcile : String → String → Action ReconcileResult
  unfolding ◌>>=◌ on_error in_world fail_with with_object deferring reconcile_fetched
      reconcile_owned reconcile_clustered reconcile_unless_paused reconcile_for reconcile_in
      cluster_or_empty
  reconcile namespace name = do
    fetched ← in_world (call (kind.get namespace name))
    reconcile_fetched fetched

module _ {W : Type 0} (p : Platform W) where
  abbrev pub vultr_machine : Kind W VultrMachine MachineScope
  vultr_machine = record {
    get = p.kube.get_machine;
    name_of = λ m. m.name;
    namespace_of = λ m. m.namespace;
    is_deleting = λ m. m.deleting;
    scope_failure = "failed to create machine scope";
    new_scope = λ cluster machine c m. new_machine_scope p (record {
      client = some tt;
      cluster = some cluster;
      machine = some machine;
      vultr_cluster = some c;
      vultr_machine = some m;
    });
    close = Machine.patch_object p;
    normal = Machine.reconcile_normal p;
    delete = Machine.reconcile_delete p;
  }

  abbrev pub vultr_bare_metal_machine :
      {V : Type 0} → Yaml V → Kind W VultrBareMetalMachine BareMetalMachineScope
  vultr_bare_metal_machine yaml = record {
    get = p.kube.get_bare_metal;
    name_of = λ m. m.name;
    namespace_of = λ m. m.namespace;
    is_deleting = λ m. m.deleting;
    scope_failure = "failed to create bare metal machine scope";
    new_scope = λ cluster machine c m. new_bare_metal_machine_scope p (record {
      client = some tt;
      cluster = some cluster;
      machine = some machine;
      vultr_cluster = some c;
      vultr_bare_metal_machine = some m;
    });
    close = BareMetal.close p yaml;
    normal = BareMetal.reconcile_normal p yaml;
    delete = BareMetal.reconcile_delete p yaml;
  }
