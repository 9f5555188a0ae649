-- ===== src/Controller/BareMetal/History.antt =====
-- Reconciles of any VultrBareMetalMachines, one after another, and the servers of the account.
use cluster_api_provider_vul.Base.{◌≡◌, String, List, [], Option, none, wrapf, plain}
use cluster_api_provider_vul.Base.Respects.{
  Respects, call-Respects, bind-Respects, on_error-Respects, raise-Respects, pure-Respects,
}
use cluster_api_provider_vul.Api.BareMetal.{VultrBareMetalMachine}
use cluster_api_provider_vul.Api.Cluster.{VultrCluster}
use cluster_api_provider_vul.Govultr.{BareMetalServer}
use cluster_api_provider_vul.Kube.{Platform, Env, CapiMachine, CapiCluster, found}
use cluster_api_provider_vul.Kube.Actions.{require}
use cluster_api_provider_vul.Scope.BareMetal.{new_bare_metal_machine_scope}
use cluster_api_provider_vul.Services.CloudConfig.Prepend.{Yaml}
use cluster_api_provider_vul.Services.Account.{
  Shrinks, Run, run_of_shrinks, run_order, AtMostOne, Run-AtMostOne,
}
use cluster_api_provider_vul.Services.BareMetal.Listing.{server_owned}
use cluster_api_provider_vul.Services.BareMetal.Cloud.{
  IsServerCloud, server_owner, server_owner-Separates,
}
use cluster_api_provider_vul.Controller.Entry.{reconcile, vultr_bare_metal_machine}
use cluster_api_provider_vul.Controller.Entry.Worlds.{on_world, fail_with-Respects}
use cluster_api_provider_vul.Controller.Entry.Keeps.{IsKept, reconcile-Respects}
use cluster_api_provider_vul.Controller.BareMetal.Keeps.{reconcile_delete-Respects, close-Respects}
use cluster_api_provider_vul.Controller.BareMetal.Launch.{HarmlessTags, reconcile_normal-Run}

-- The state in which `Reconcile` is called: the world, and no object yet.
abbrev pub called_in : {W : Type 0} → W → Env W (Option VultrBareMetalMachine)
called_in w = record { world = w; object = none; events = [] }

-- What the calls that read Kubernetes objects do to the servers: they start none. The machines
-- that they return have additional tags that name no other machine or cluster.
pub record IsServerReading {W : Type 0} (p : Platform W) (servers : W → List BareMetalServer)
    : Type 0 where
  pub get_bare_metal :
      (namespace name : String) (w : W)
      → Shrinks server_owned (servers w) (servers (p.kube.get_bare_metal namespace name w).1)
  pub harmless :
      (namespace name : String) (w : W) (m : VultrBareMetalMachine)
      → (p.kube.get_bare_metal namespace name w).0 ≡ found m
      → HarmlessTags m
  pub get_owner_machine :
      (namespace name : String) (w : W)
      → Shrinks server_owned (servers w) (servers (p.kube.get_owner_machine namespace name w).1)
  pub get_cluster_from_metadata :
      (machine : CapiMachine) (w : W)
      → Shrinks server_owned (servers w) (servers (p.kube.get_cluster_from_metadata machine w).1)
  pub ensure_paused_condition :
      (cluster : CapiCluster) (namespace name : String) (w : W)
      → Shrinks server_owned
          (servers w)
          (servers (p.kube.ensure_paused_condition cluster namespace name w).1)
  pub get_cluster :
      (namespace name : String) (w : W)
      → Shrinks server_owned (servers w) (servers (p.kube.get_cluster namespace name w).1)
  pub new_patch_helper :
      (namespace name : String) (w : W)
      → Shrinks server_owned (servers w) (servers (p.kube.new_patch_helper namespace name w).1)

module _ {W V : Type 0} (p : Platform W) (yaml : Yaml V) (servers : W → List BareMetalServer) where
  -- Reconciles that follow each other, and between them whatever starts no server: a user or the
  -- API deletes one, another controller works.
  pub data ServerHistory (w : W) : W → Type 0 where
    start : ServerHistory w w
    reconciled :
        {w' w'' : W} (namespace name : String)
        → ServerHistory w w'
        → w''
          ≡ (reconcile p (vultr_bare_metal_machine p yaml) namespace name (called_in w')).1.world
        → ServerHistory w w''
    elsewhere :
        {w' w'' : W}
        → ServerHistory w w'
        → Shrinks server_owned (servers w') (servers w'')
        → ServerHistory w w''

  module _ (cloud : IsServerCloud p servers) (reading : IsServerReading p servers) where
    machine_scope-Respects :
        (cluster : CapiCluster) (machine : CapiMachine) (c : VultrCluster)
        (m : VultrBareMetalMachine)
        → Respects
            (run_order server_owner servers)
            ((vultr_bare_metal_machine p yaml).new_scope cluster machine c m)
    unfolding new_bare_metal_machine_scope require run_order
    machine_scope-Respects cluster machine c m =
        let one : (w : W)
            → Run server_owner (servers w)
                (servers (p.kube.new_patch_helper m.namespace m.name w).1) =
          λ w. run_of_shrinks (reading.new_patch_helper m.namespace m.name w) in
        bind-Respects _ _ (call-Respects (p.kube.new_patch_helper m.namespace m.name) one)
          (λ failure.
            bind-Respects _ _
              (on_error-Respects _ _ _ (fail_with-Respects (run_order server_owner servers) failure)
                (λ e. raise-Respects (wrapf (plain "failed to init patch helper") e))
                (λ _. pure-Respects tt))
              (λ _. pure-Respects (record { machine = machine; cluster = cluster })))

    machine-IsKept :
        IsKept p
          (vultr_bare_metal_machine p yaml)
          (run_order server_owner servers)
          (λ cluster. HarmlessTags)
    unfolding run_order on_world
    machine-IsKept = record {
      get = λ namespace name w. run_of_shrinks (reading.get_bare_metal namespace name w);
      owner = λ namespace name w. run_of_shrinks (reading.get_owner_machine namespace name w);
      metadata = λ machine w. run_of_shrinks (reading.get_cluster_from_metadata machine w);
      paused = λ cluster namespace name w.
          run_of_shrinks (reading.ensure_paused_condition cluster namespace name w);
      cluster = λ namespace name w. run_of_shrinks (reading.get_cluster namespace name w);
      helper = λ namespace name w. run_of_shrinks (reading.new_patch_helper namespace name w);
      new_scope = machine_scope-Respects;
      sound = λ namespace name w m e w' machine own w'' cluster of_cluster.
          reading.harmless namespace name w m e;
      close = λ sc ms. record { run = (close-Respects p yaml servers cloud sc ms).run };
      normal = reconcile_normal-Run p yaml servers cloud;
      delete = λ sc ms. record { run = (reconcile_delete-Respects p yaml servers cloud sc ms).run };
    }

    server_reconcile-Run :
        (namespace name : String) (w : W)
        → Run server_owner (servers w) (
            servers
              (reconcile p (vultr_bare_metal_machine p yaml) namespace name (called_in w)).1.world)
    unfolding run_order on_world
    server_reconcile-Run namespace name w =
        (reconcile-Respects p (vultr_bare_metal_machine p yaml) (run_order server_owner servers)
            (λ cluster. HarmlessTags) machine-IsKept namespace name).run
          (called_in w)

    -- Where the APIs act on the servers as documented and the additional tags of no machine name
    -- another machine or cluster, no sequence of reconciles of any VultrBareMetalMachines, whatever
    -- errors they meet and whatever servers disappear in between, gives a machine a second server:
    -- if every machine owns at most one at the start, so it is ever after.
    pub ServerHistory-AtMostOne :
        {w w' : W}
        → ServerHistory w w'
        → AtMostOne server_owner (servers w)
        → AtMostOne server_owner (servers w')
    ServerHistory-AtMostOne start one = one
    ServerHistory-AtMostOne (reconciled {w'} namespace name h same) one = rw same (
        Run-AtMostOne server_owner-Separates (server_reconcile-Run namespace name w')
          (ServerHistory-AtMostOne h one))
    ServerHistory-AtMostOne (elsewhere h fewer) one =
        Run-AtMostOne server_owner-Separates (run_of_shrinks fewer) (ServerHistory-AtMostOne h one)
