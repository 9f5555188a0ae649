-- ===== src/Controller/Watches.antt =====
-- `SetupWithManager` of the three reconcilers: the objects that a controller watches, how their
-- events become requests, and the filters of the events. The builder of controller-runtime is a
-- parameter, `Builder`.
use cluster_api_provider_vul.Base.{
  ℤ, String, List, [], ◌∷◌, Option, none, some, GoError, wrapf, plain,
}
use cluster_api_provider_vul.Base.Exec.{Exec, pure, raise, on_error, ◌>>=◌}
use cluster_api_provider_vul.Kube.Actions.{fail_with, returned}

-- The predicates of Cluster API.
pub data Predicate : Type 0 where
  resource_not_paused cluster_unpaused cluster_paused_transitions_or_infrastructure_provisioned :
      Predicate

-- The functions from an object to requests that are enqueued for its events.
pub data MapFunc : Type 0 where
  -- `MachineToInfrastructureMapFunc` and `ClusterToInfrastructureMapFunc`, of a kind
  machine_to_infrastructure cluster_to_infrastructure : String → MapFunc
  -- What `ClusterToTypedObjectsMapper` returned for a kind of list
  cluster_to_typed_objects : String → MapFunc
  vultr_cluster_to_vultr_machines vultr_cluster_to_vultr_bare_metal_machines : MapFunc

-- `Watches`
pub record Watch : Type 0 where
  pub kind : String
  pub enqueue : MapFunc
  pub predicate : Option Predicate

-- What `NewControllerManagedBy` is told before `Complete`.
pub record ControllerSpec : Type 0 where
  pub for_kind : String
  pub event_filter : Option Predicate
  pub watches : List Watch

-- The fields of a reconciler.
pub record Reconciler : Type 0 where
  pub recorder : String
  pub reconcile_timeout : ℤ

-- `ClusterToTypedObjectsMapper`, by the kind of the list, and `Complete`.
pub record Builder (W : Type 0) : Type 0 where
  pub cluster_to_typed_objects_mapper : String → W → Option GoError × W
  pub complete : ControllerSpec → Reconciler → W → Option GoError × W

unfoldable pub cluster_controller : ControllerSpec
cluster_controller = record {
  for_kind = "VultrCluster";
  event_filter = some resource_not_paused;
  watches =
      record {
        kind = "Cluster";
        enqueue = cluster_to_infrastructure "VultrCluster";
        predicate = some cluster_unpaused;
      }
      ∷ [];
}

-- The watches of the two machine controllers, which differ in their kind and in the function that
-- maps a VultrCluster.
unfoldable pub machine_watches : String → String → MapFunc → List Watch
machine_watches kind list_kind from_cluster =
    record { kind = "Machine"; enqueue = machine_to_infrastructure kind; predicate = none }
    ∷ record { kind = "VultrCluster"; enqueue = from_cluster; predicate = none }
    ∷ record {
      kind = "Cluster";
      enqueue = cluster_to_typed_objects list_kind;
      predicate = some cluster_paused_transitions_or_infrastructure_provisioned;
    }
    ∷ []

unfoldable pub machine_controller : ControllerSpec
unfolding machine_watches
machine_controller = record {
  for_kind = "VultrMachine";
  event_filter = none;
  watches = machine_watches "VultrMachine" "VultrMachineList" vultr_cluster_to_vultr_machines;
}

unfoldable pub bare_metal_machine_controller : ControllerSpec
unfolding machine_watches
bare_metal_machine_controller = record {
  for_kind = "VultrBareMetalMachine";
  event_filter = none;
  watches =
      machine_watches "VultrBareMetalMachine" "VultrBareMetalMachineList"
        vultr_cluster_to_vultr_bare_metal_machines;
}

module _ {W : Type 0} (b : Builder W) where
  -- `SetupWithManager` of a `VultrClusterReconciler`
  unfoldable pub setup_cluster : Reconciler → Exec W (Unit {0})
  unfolding ◌>>=◌ on_error fail_with cluster_controller
  setup_cluster r =
      on_error (returned (b.complete cluster_controller r))
        (λ e. raise (wrapf (plain "failed to build controller") e)) pure

  -- `SetupWithManager` of a `VultrMachineReconciler`
  unfoldable pub setup_machine : Reconciler → Exec W (Unit {0})
  unfolding ◌>>=◌ on_error fail_with machine_controller
  setup_machine r =
      on_error (returned (b.cluster_to_typed_objects_mapper "VultrMachineList"))
        (λ e. raise (wrapf (plain "failed to create mapper for Cluster to VultrMachines") e))
        (λ _. returned (b.complete machine_controller r))

  -- `SetupWithManager` of a `VultrBareMetalMachineReconciler`
  unfoldable pub setup_bare_metal_machine : Reconciler → Exec W (Unit {0})
  unfolding ◌>>=◌ on_error fail_with bare_metal_machine_controller
  setup_bare_metal_machine r =
      on_error (returned (b.cluster_to_typed_objects_mapper "VultrBareMetalMachineList"))
        (λ e.
          raise (wrapf (plain "failed to create mapper for Cluster to VultrBareMetalMachines") e))
        (λ _. returned (b.complete bare_metal_machine_controller r))
