-- ===== src/Controller/Machine/History.antt =====
-- Reconciles of any VultrMachines, one after another, and the instances of the account.
use cluster_api_provider_vul.Base.{
  ◌≡◌, refl, ap, ◌∙◌, some, String, List, [], none, Option, wrapf, plain,
}
use cluster_api_provider_vul.Base.Respects.{
  Respects, call-Respects, bind-Respects, on_error-Respects, raise-Respects, pure-Respects,
}
use cluster_api_provider_vul.Api.Machine.{VultrMachine}
use cluster_api_provider_vul.Govultr.{Instance}
use cluster_api_provider_vul.Kube.{Platform, Env, CapiMachine, CapiCluster, found}
use cluster_api_provider_vul.Services.Account.{
  run_of_shrinks, Ownership, Shrinks, Run, run_order, AtMostOne, Run-AtMostOne,
}
use cluster_api_provider_vul.Services.Instance.Cloud.{
  IsCloud, instance_owner, instance_owner-Separates, OfCluster,
}
use cluster_api_provider_vul.Services.Instance.{instance_owned_by_machine}
use cluster_api_provider_vul.Api.Tags.{BuildTagParams}
use cluster_api_provider_vul.Scope.Cluster.{ClusterScope, machine_tag_params}
use cluster_api_provider_vul.Controller.Entry.{reconcile, vultr_machine}
use cluster_api_provider_vul.Controller.Entry.Worlds.{on_world, fail_with-Respects}
use cluster_api_provider_vul.Controller.Entry.Keeps.{IsKept, reconcile-Respects}
use cluster_api_provider_vul.Api.Cluster.{VultrCluster}
use cluster_api_provider_vul.Kube.Actions.{require}
use cluster_api_provider_vul.Scope.Machine.{new_machine_scope}
use cluster_api_provider_vul.Controller.Machine.Keeps.{
  patch_object-Respects, reconcile_delete-Respects,
}
use cluster_api_provider_vul.Controller.Machine.Launch.{reconcile_normal-Run}

-- The state in which `Reconcile` is called: the world, and no object yet.
abbrev pub called_in : {W : Type 0} → W → Env W (Option VultrMachine)
called_in w = record { world = w; object = none; events = [] }

-- What the calls that read Kubernetes objects do to the instances: they start none.
pub record IsReading {W : Type 0} (p : Platform W) (instances : W → List Instance) : Type 0 where
  pub get_machine :
      (namespace name : String) (w : W)
      → Shrinks instance_owned_by_machine
          (instances w)
          (instances (p.kube.get_machine namespace name w).1)
  pub get_owner_machine :
      (namespace name : String) (w : W)
      → Shrinks instance_owned_by_machine
          (instances w)
          (instances (p.kube.get_owner_machine namespace name w).1)
  pub get_cluster_from_metadata :
      (machine : CapiMachine) (w : W)
      → Shrinks instance_owned_by_machine
          (instances w)
          (instances (p.kube.get_cluster_from_metadata machine w).1)
  pub ensure_paused_condition :
      (cluster : CapiCluster) (namespace name : String) (w : W)
      → Shrinks instance_owned_by_machine
          (instances w)
          (instances (p.kube.ensure_paused_condition cluster namespace name w).1)
  pub get_cluster :
      (namespace name : String) (w : W)
      → Shrinks instance_owned_by_machine
          (instances w)
          (instances (p.kube.get_cluster namespace name w).1)
  pub new_patch_helper :
      (namespace name : String) (w : W)
      → Shrinks instance_owned_by_machine
          (instances w)
          (instances (p.kube.new_patch_helper namespace name w).1)

module _ {W : Type 0} (p : Platform W) where
  -- The owners of all machines of one name are in one cluster.
  pub record OneCluster (cluster_of : String → String) : Type 0 where
    pub uid :
        (namespace name : String) (machine : CapiMachine) (w w' : W) (cluster : CapiCluster)
        → (p.kube.get_owner_machine namespace name w).0 ≡ found (some machine)
        → (p.kube.get_cluster_from_metadata machine w').0 ≡ found cluster
        → cluster.uid ≡ cluster_of name

module _ {W : Type 0} (p : Platform W) (instances : W → List Instance) where
  -- Reconciles that follow each other, and between them whatever starts no instance: a user or the
  -- API deletes one, another controller works.
  pub data History (w : W) : W → Type 0 where
    start : History w w
    reconciled :
        {w' w'' : W} (namespace name : String)
        → History w w'
        → w'' ≡ (reconcile p (vultr_machine p) namespace name (called_in w')).1.world
        → History w w''
    elsewhere :
        {w' w'' : W}
        → History w w'
        → Shrinks instance_owned_by_machine (instances w') (instances w'')
        → History w w''

  module _ (cloud : IsCloud p instances) (reading : IsReading p instances)
      (Among : BuildTagParams → Type 0) where
    abbrev owner : Ownership Instance
    owner = instance_owner Among

    -- A reconcile of an object with the cluster of its owner is that of a machine of the account.
    abbrev AmongUs : CapiCluster → VultrMachine → Type 0
    AmongUs cluster m =
        (sc : ClusterScope) (role : String)
        → sc.cluster ≡ cluster
        → Among (machine_tag_params sc m.name role)

    abbrev MachinesAmong : Type 0
    MachinesAmong =
        (m : VultrMachine) (w w' : W) (machine : CapiMachine) (cluster : CapiCluster)
        → (p.kube.get_owner_machine m.namespace m.name w).0 ≡ found (some machine)
        → (p.kube.get_cluster_from_metadata machine w').0 ≡ found cluster
        → AmongUs cluster m

    machine_scope-Respects :
        (cluster : CapiCluster) (machine : CapiMachine) (c : VultrCluster) (m : VultrMachine)
        → Respects (run_order owner instances) ((vultr_machine p).new_scope cluster machine c m)
    unfolding new_machine_scope require run_order
    machine_scope-Respects cluster machine c m =
        let one : (w : W)
            → Run owner (instances w) (instances (p.kube.new_patch_helper m.namespace m.name w).1) =
          λ w. run_of_shrinks (reading.new_patch_helper m.namespace m.name w) in
        bind-Respects _ _ (call-Respects (p.kube.new_patch_helper m.namespace m.name) one)
          (λ failure.
            bind-Respects _ _
              (on_error-Respects _ _ _ (fail_with-Respects (run_order owner instances) failure)
                (λ e. raise-Respects (wrapf (plain "failed to init patch helper") e))
                (λ _. pure-Respects tt))
              (λ _. pure-Respects (record { machine = machine; cluster = cluster })))

    machine-IsKept : MachinesAmong → IsKept p (vultr_machine p) (run_order owner instances) AmongUs
    unfolding run_order on_world
    machine-IsKept machines = record {
      get = λ namespace name w. run_of_shrinks (reading.get_machine namespace name w);
      owner = λ namespace name w. run_of_shrinks (reading.get_owner_machine namespace name w);
      metadata = λ machine w. run_of_shrinks (reading.get_cluster_from_metadata machine w);
      paused = λ cluster namespace name w.
          run_of_shrinks (reading.ensure_paused_condition cluster namespace name w);
      cluster = λ namespace name w. run_of_shrinks (reading.get_cluster namespace name w);
      helper = λ namespace name w. run_of_shrinks (reading.new_patch_helper namespace name w);
      new_scope = machine_scope-Respects;
      sound = λ namespace name w m _ w' machine own w'' cluster e.
          machines m w' w'' machine cluster own e;
      close = λ sc ms. record { run = (patch_object-Respects Among p instances cloud sc ms).run };
      normal =
          λ sc ms s sound. reconcile_normal-Run Among p instances cloud sc ms s (sound sc _ refl);
      delete =
          λ sc ms. record { run = (reconcile_delete-Respects Among p instances cloud sc ms).run };
    }

    reconcile_among-Run :
        MachinesAmong
        → (namespace name : String) (w : W)
        → Run owner
            (instances w)
            (instances (reconcile p (vultr_machine p) namespace name (called_in w)).1.world)
    unfolding run_order on_world
    reconcile_among-Run machines namespace name w =
        (reconcile-Respects p (vultr_machine p) (run_order owner instances) AmongUs
            (machine-IsKept machines) namespace name).run
          (called_in w)

  module _ (cloud : IsCloud p instances) (reading : IsReading p instances) where
    -- A whole reconcile, whatever its path and its outcome, refines the abstract view of the
    -- account: where the APIs act on the instances as documented, it only loses instances or
    -- starts one for a machine that owns none at that moment. That one has the machine's label,
    -- and it has the machine's tags or, where the tag step of the create failed, no tags and the
    -- machine's name as hostname.
    pub reconcile-Run :
        (namespace name : String) (w : W)
        → Run
            (instance_owner (λ params. Unit {0}))
            (instances w)
            (instances (reconcile p (vultr_machine p) namespace name (called_in w)).1.world)
    reconcile-Run =
        reconcile_among-Run cloud reading (λ params. Unit {0})
          (λ m w w' machine cluster own e sc role same. tt)

    -- Where the APIs act on the instances as documented, tag steps that fail included, and no two
    -- clusters have machines of one name, no sequence of reconciles of any machines, whatever
    -- errors they meet and whatever instances disappear in between, gives a machine a second
    -- instance: if every machine of these clusters owns at most one at the start, so it is ever
    -- after.
    pub History-AtMostOne :
        (cluster_of : String → String)
        → OneCluster p cluster_of
        → {w w' : W} → History w w'
        → AtMostOne (instance_owner (OfCluster cluster_of)) (instances w)
        → AtMostOne (instance_owner (OfCluster cluster_of)) (instances w')
    unfolding machine_tag_params
    History-AtMostOne cluster_of alone start one = one
    History-AtMostOne cluster_of alone (reconciled {w'} namespace name h same) one = rw same (
        Run-AtMostOne (instance_owner-Separates cluster_of)
          (reconcile_among-Run cloud reading (OfCluster cluster_of)
            (λ m w1 w2 machine cluster own e sc role of_cluster.
              ap (λ (k : CapiCluster). k.uid) of_cluster
              ∙ alone.uid m.namespace m.name machine w1 w2 cluster own e)
            namespace name w')
          (History-AtMostOne cluster_of alone h one))
    History-AtMostOne cluster_of alone (elsewhere h s) one =
        Run-AtMostOne (instance_owner-Separates cluster_of) (run_of_shrinks s)
          (History-AtMostOne cluster_of alone h one)
