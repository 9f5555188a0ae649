-- ===== src/Manager.antt =====
-- cmd/main.go: the process. The flags of controller-runtime's logger are left out.
pub mod Start
use cluster_api_provider_vul.Base.{
  ℕ, ℤ, String, Bool, true, false, Option, none, some, GoError, Outcome, ok, err, panic,
  out_of_fuel,
}
use cluster_api_provider_vul.Base.Exec.{Exec, call, ◌>>=◌, ◌>>◌}
use cluster_api_provider_vul.Kube.Actions.{returned}
use cluster_api_provider_vul.Controller.Reconciler.{default_loop_timeout}
use cluster_api_provider_vul.Controller.Watches.{
  Builder, Reconciler, setup_cluster, setup_machine, setup_bare_metal_machine,
}

-- The flags, and their values when the command line is empty.
pub record Flags : Type 0 where
  pub metrics_bind_address : String
  pub health_probe_bind_address : String
  pub leader_elect : Bool
  pub metrics_secure : Bool
  pub enable_http2 : Bool
  pub reconcile_timeout : ℤ

abbrev pub default_flags : Flags
default_flags = record {
  metrics_bind_address = ":8080";
  health_probe_bind_address = ":9440";
  leader_elect = false;
  metrics_secure = false;
  enable_http2 = false;
  reconcile_timeout = default_loop_timeout;
}

-- `ctrl.Options`, as far as they are set
pub record ManagerOptions : Type 0 where
  pub bind_address : String
  pub secure_serving : Bool
  pub health_probe_bind_address : String
  pub leader_election : Bool
  pub leader_election_id : String

unfoldable pub manager_options : Flags → ManagerOptions
manager_options f = record {
  bind_address = f.metrics_bind_address;
  secure_serving = f.metrics_secure;
  health_probe_bind_address = f.health_probe_bind_address;
  leader_election = f.leader_elect;
  leader_election_id = "836d4a75.cluster.x-k8s.io";
}

-- What the process calls of controller-runtime.
pub record Runtime (W : Type 0) : Type 0 where
  pub builder : Builder W
  pub new_manager : ManagerOptions → W → Option GoError × W
  pub add_healthz_check : String → W → Option GoError × W
  pub add_readyz_check : String → W → Option GoError × W
  pub start : W → Option GoError × W

module _ {W : Type 0} (r : Runtime W) (flags : Flags) where
  abbrev pub reconciler : String → Reconciler
  reconciler recorder = record { recorder = recorder; reconcile_timeout = flags.reconcile_timeout }

  -- `main` up to its first error, which is logged
  unfoldable pub run : Exec W (Unit {0})
  unfolding ◌>>=◌ returned manager_options setup_cluster setup_machine setup_bare_metal_machine
  run = do
    returned (r.new_manager (manager_options flags))
    setup_cluster r.builder (reconciler "vultrcluster-controller")
    setup_machine r.builder (reconciler "vultrmachine-controller")
    setup_bare_metal_machine r.builder (reconciler "vultrbaremetalmachine-controller")
    returned (r.add_healthz_check "healthz")
    returned (r.add_readyz_check "readyz")
    returned r.start

  abbrev exit_code : Outcome (Unit {0}) → ℕ
  exit_code (ok u) = 0
  exit_code _ = 1

  -- `main`: the exit code of the process. An `os.Exit` comes right after the error.
  unfoldable pub main : W → ℕ × W
  unfolding run
  main w = let (o, w') = run w in (exit_code o, w')
