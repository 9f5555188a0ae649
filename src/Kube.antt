-- ===== src/Kube.antt =====
-- What the provider uses of Kubernetes, Cluster API and controller-runtime: the objects that it
-- reads, and their functions, which are parameters.
pub mod Actions
use cluster_api_provider_vul.Base.{
  ℕ, String, Bool, Option, none, some, List, ◌==◌, ◌||◌, ◌&&◌, not, string_eq, true, false,
  contains, ◌≡◌, GoError, if◌then◌else◌,
}
use cluster_api_provider_vul.Api.Conditions.{Condition}
use cluster_api_provider_vul.Api.Cluster.{VultrCluster}
use cluster_api_provider_vul.Api.Machine.{VultrMachine}
use cluster_api_provider_vul.Api.BareMetal.{VultrBareMetalMachine}
use cluster_api_provider_vul.Govultr.{Api}

-- `clusterv1.Cluster`
pub record CapiCluster : Type 0 where
  pub name : String
  pub uid : String
  pub infrastructure_ref_name : String
  pub infrastructure_provisioned : Option Bool
  pub conditions : List Condition

-- `clusterv1.Machine`
pub record CapiMachine : Type 0 where
  pub namespace : String
  pub labels : List (String × String)
  pub data_secret_name : Option String
  pub infrastructure_ref_name : String
  pub infrastructure_ref_kind : String

abbrev pub infrastructure_ready_condition : String
infrastructure_ready_condition = "InfrastructureReady"

-- `secret.Data`
abbrev pub SecretData : Type 0
SecretData = List (String × List ℕ)

-- The result of a `Get`: an object, the error that `IsNotFound` accepts, or another error.
pub data Fetched (A : Type 0) : Type 0 where
  found : A → Fetched A
  missing : GoError → Fetched A
  failed : GoError → Fetched A

-- What `EnsurePausedCondition` returns.
pub record Paused : Type 0 where
  pub is_paused : Bool
  pub requeue : Bool
  pub error : Option GoError

-- The pure functions of the libraries: `conditions`, `controllerutil`, `util`, and the text of an
-- error.
pub record Library : Type 0 where
  pub set_condition : Condition → List Condition → List Condition
  pub get_condition : List Condition → String → Option Condition
  pub is_true : List Condition → String → Bool
  pub is_false : List Condition → String → Bool
  pub get_reason : List Condition → String → String
  pub add_finalizer : String → List String → List String
  pub remove_finalizer : String → List String → List String
  pub is_control_plane_machine : CapiMachine → Bool
  pub error_text : GoError → String

-- What their documentation says of the functions that the proofs use.
pub record IsLawful (lib : Library) : Type 0 where
  pub get-set :
      (c : Condition) (l : List Condition) (t : String)
      → lib.get_condition (lib.set_condition c l) t
        ≡ (if c.type == t then some c else lib.get_condition l t)
  pub contains-add :
      (f g : String) (l : List String)
      → contains (lib.add_finalizer f l) g ≡ (f == g || contains l g)
  pub contains-remove :
      (f g : String) (l : List String)
      → contains (lib.remove_finalizer f l) g ≡ (not (f == g) && contains l g)

-- The calls of the Kubernetes API, over a state of the world.
pub record Kube (W : Type 0) : Type 0 where
  pub get_secret : String → String → W → Fetched SecretData × W
  pub get_cluster : String → String → W → Fetched VultrCluster × W
  pub get_machine : String → String → W → Fetched VultrMachine × W
  pub get_bare_metal : String → String → W → Fetched VultrBareMetalMachine × W
  pub get_owner_cluster : VultrCluster → W → Fetched (Option CapiCluster) × W
  pub get_owner_machine : String → String → W → Fetched (Option CapiMachine) × W
  pub get_cluster_from_metadata : CapiMachine → W → Fetched CapiCluster × W
  pub is_paused : CapiCluster → VultrCluster → Bool
  pub ensure_paused_condition : CapiCluster → String → String → W → Paused × W
  pub new_patch_helper : String → String → W → Option GoError × W
  pub patch_cluster : VultrCluster → W → Option GoError × W
  pub patch_machine : VultrMachine → W → Option GoError × W
  pub patch_bare_metal : VultrBareMetalMachine → W → Option GoError × W
  pub list_machines : String → String → W → Fetched (List CapiMachine) × W

-- All that a reconcile runs against. `fuel` bounds the pages that a listing reads.
pub record Platform (W : Type 0) : Type 0 where
  pub lib : Library
  pub api : Api W
  pub kube : Kube W
  pub getenv : String → String
  pub fuel : ℕ

pub data EventType : Type 0 where
  normal warning : EventType

-- An event that the recorder was given, without its note.
pub record Event : Type 0 where
  pub type : EventType
  pub reason : String
  pub action : String

-- The state of one reconcile: the world, the object in memory, and the events so far.
pub record Env (W O : Type 0) : Type 0 where
  pub world : W
  pub object : O
  pub events : List Event

-- `ctrl.Result`: the seconds of `RequeueAfter`, 0 for none.
pub record ReconcileResult : Type 0 where
  pub requeue_after : ℕ

abbrev pub done : ReconcileResult
done = record { requeue_after = 0 }

abbrev pub requeue_in : ℕ → ReconcileResult
requeue_in seconds = record { requeue_after = seconds }
