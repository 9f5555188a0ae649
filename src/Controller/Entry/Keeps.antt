-- ===== src/Controller/Entry/Keeps.antt =====
-- What a whole `Reconcile` does to the world, from what its calls and its two branches do.
use mathlib.Core.Path.{subst}
use cluster_api_provider_vul.Base.{
  ◌≡◌, refl, sym, arith, ok, if◌then◌else◌, String, string_eq, ◌==◌, ◌||◌, Option, none, some,
  GoError, wrapf, plain,
}
use cluster_api_provider_vul.Base.Exec.{Exec, call, on_error, raise, pure, ◌>>=◌}
use cluster_api_provider_vul.Base.Respects.{
  Preorder, Respects, pure-Respects, raise-Respects, call-Respects, if-Respects, option-Respects,
  bind-Respects, on_error-Respects, bind-at,
}
use cluster_api_provider_vul.Api.Cluster.{VultrCluster}
use cluster_api_provider_vul.Kube.{
  Platform, Env, CapiMachine, CapiCluster, Fetched, found, missing, failed, Paused, done,
}
use cluster_api_provider_vul.Kube.Actions.{in_world, fail_with, deferring}
use cluster_api_provider_vul.Scope.Cluster.{
  ClusterScope, new_cluster_scope, create_vultr_client, machine_only,
}
use cluster_api_provider_vul.Controller.Entry.Worlds.{
  on_world, in_world-Respects, fail_with-Respects, with_object-Respects, deferring-at,
}
use cluster_api_provider_vul.Controller.Entry.{
  Kind, reconcile, reconcile_fetched, reconcile_owned, reconcile_clustered, reconcile_unless_paused,
  reconcile_for, reconcile_in, cluster_or_empty,
}

module _ {W O S : Type 0} (p : Platform W) (kind : Kind W O S) (o : Preorder W)
    (Sound : CapiCluster → O → Type 0) where
  -- The calls of a `Reconcile` keep the order, whatever they return, and so do its branches, for
  -- the objects that the API returns with the clusters of their owners.
  pub record IsKept : Type 0 where
    pub get : (namespace name : String) (w : W) → o.rel w (kind.get namespace name w).1
    pub owner :
        (namespace name : String) (w : W) → o.rel w (p.kube.get_owner_machine namespace name w).1
    pub metadata :
        (machine : CapiMachine) (w : W) → o.rel w (p.kube.get_cluster_from_metadata machine w).1
    pub paused :
        (cluster : CapiCluster) (namespace name : String) (w : W)
        → o.rel w (p.kube.ensure_paused_condition cluster namespace name w).1
    pub cluster :
        (namespace name : String) (w : W) → o.rel w (p.kube.get_cluster namespace name w).1
    pub helper :
        (namespace name : String) (w : W) → o.rel w (p.kube.new_patch_helper namespace name w).1
    pub new_scope :
        (cluster : CapiCluster) (machine : CapiMachine) (c : VultrCluster) (x : O)
        → Respects o (kind.new_scope cluster machine c x)
    pub close : (sc : ClusterScope) (ms : S) → Respects (on_world o) (kind.close sc ms)
    pub sound :
        (namespace name : String) (w : W) (x : O)
        → (kind.get namespace name w).0 ≡ found x
        → (w' : W) (machine : CapiMachine)
        → (p.kube.get_owner_machine (kind.namespace_of x) (kind.name_of x) w').0
          ≡ found (some machine)
        → (w'' : W) (cluster : CapiCluster)
        → (p.kube.get_cluster_from_metadata machine w'').0 ≡ found cluster
        → Sound cluster x
    pub normal :
        (sc : ClusterScope) (ms : S) (s : Env W O)
        → Sound sc.cluster s.object
        → o.rel s.world (kind.normal sc ms s).1.world
    pub delete : (sc : ClusterScope) (ms : S) → Respects (on_world o) (kind.delete sc ms)

  module _ (kept : IsKept) where
    abbrev order : Preorder (Env W (Option O))
    order = on_world o

    asked :
        {A : Type 0} (f : W → A × W)
        → ((w : W) → o.rel w (f w).1)
        → Respects order (in_world (call f))
    asked f h = in_world-Respects o (call f) (call-Respects f h)

    -- What comes after a call may rely on what the call returned.
    asked_then :
        {A B : Type 0} (f : W → A × W) (g : A → Exec (Env W (Option O)) B)
        → ((w : W) → o.rel w (f w).1)
        → ((w : W) → Respects order (g (f w).0))
        → Respects order (in_world (call f) >>= g)
    unfolding ◌>>=◌ in_world on_world
    asked_then f g h rest = record {
      run = λ s.
          o.transitive s.world (f s.world).1 _ (h s.world)
            ((rest s.world).run (record s { world = (f s.world).1 }));
    }

    create_vultr_client-Respects : Respects o (create_vultr_client p)
    unfolding create_vultr_client
    create_vultr_client-Respects =
        if-Respects (p.getenv "VULTR_API_KEY" == "") _ _ (raise-Respects _) (pure-Respects tt)

    new_cluster_scope-Respects :
        (cluster : CapiCluster) (c : VultrCluster)
        → Respects o (new_cluster_scope p (some cluster) (some c))
    unfolding new_cluster_scope
    new_cluster_scope-Respects cluster c =
        bind-Respects _ _
          (on_error-Respects _ _ _ create_vultr_client-Respects (λ e. raise-Respects _)
            (λ _. pure-Respects tt))
          (λ _. bind-Respects _ _ (call-Respects _ (kept.helper c.namespace c.name)) (λ failure.
            bind-Respects _ _
              (on_error-Respects _ _ _ (fail_with-Respects o failure)
                (λ e. raise-Respects (wrapf (plain "failed to init patch helper") e))
                (λ _. pure-Respects tt))
              (λ _. pure-Respects (record { cluster = cluster; vultr_cluster = c }))))

    -- The branch that the object takes.
    branch_lem :
        (x : O) (sc : ClusterScope) (ms : S) (s : Env W O)
        → Sound sc.cluster s.object
        → o.rel s.world
            ((if kind.is_deleting x then kind.delete sc ms else kind.normal sc ms) s).1.world
    unfolding on_world
    branch_lem x sc ms s sound =
        let deleted : o.rel s.world (kind.delete sc ms s).1.world = (kept.delete sc ms).run s in
        let normal = kept.normal sc ms s sound in ground (arith, deleted, normal)

    closed_branch_lem :
        (x : O) (sc : ClusterScope) (ms : S) (s : Env W O)
        → Sound sc.cluster s.object
        → o.rel s.world
            (deferring
              (kind.close sc ms)
              (if kind.is_deleting x then kind.delete sc ms else kind.normal sc ms)
              s).1.world
    unfolding on_world
    closed_branch_lem x sc ms s sound =
        deferring-at (on_world o) (kind.close sc ms) _ s (kept.close sc ms)
          (branch_lem x sc ms s sound)

    -- The scope is that of the cluster.
    scope_cluster_lem :
        (cluster : CapiCluster) (c : VultrCluster) (w : W) (sc : ClusterScope)
        → (new_cluster_scope p (some cluster) (some c) w).0 ≡ ok sc
        → sc.cluster ≡ cluster
    unfolding new_cluster_scope create_vultr_client fail_with ◌>>=◌ on_error
    scope_cluster_lem cluster c w sc e = ground arith

    create_scope-at :
        {B : Type 0} (cluster : CapiCluster) (c : VultrCluster) (g : GoError → GoError)
        (f : ClusterScope → Exec (Env W (Option O)) B)
        → ((sc : ClusterScope) → sc.cluster ≡ cluster → Respects order (f sc))
        → Respects order (
            on_error
              (in_world (new_cluster_scope p (some cluster) (some c)))
              (λ e. raise (g e))
              pure
            >>= f)
    unfolding on_error in_world
    create_scope-at cluster c g f rest = record {
      run = λ s.
          bind-at order create f s (create-keeps.run s)
            (λ sc ran. (rest sc (same s sc ran)).run (create s).1);
    }
      where
        create : Exec (Env W (Option O)) ClusterScope
        create =
            on_error (in_world (new_cluster_scope p (some cluster) (some c))) (λ e. raise (g e))
              pure

        create-keeps : Respects order create
        create-keeps =
            on_error-Respects _ _ _ (in_world-Respects o _ (new_cluster_scope-Respects cluster c))
              (λ e. raise-Respects _) (λ sc. pure-Respects sc)

        created :
            (s : Env W (Option O)) (sc : ClusterScope)
            → (create s).0 ≡ ok sc
            → (new_cluster_scope p (some cluster) (some c) s.world).0 ≡ ok sc
        created s sc ran = ground (arith, ran)

        same :
            (s : Env W (Option O)) (sc : ClusterScope) → (create s).0 ≡ ok sc → sc.cluster ≡ cluster
        same s sc ran = scope_cluster_lem cluster c s.world sc (created s sc ran)

    reconcile_in-Respects :
        (x : O) (machine : CapiMachine) (cluster : CapiCluster)
        → Sound cluster x
        → (c : VultrCluster) → Respects order (reconcile_in p kind x machine cluster c)
    unfolding reconcile_in
    reconcile_in-Respects x machine cluster sound c =
        create_scope-at cluster c _ _ (λ sc of_cluster.
          bind-Respects _ _
            (on_error-Respects _ _ _ (in_world-Respects o _ (kept.new_scope cluster machine c x))
              (λ e. raise-Respects _) (λ ms. pure-Respects ms))
            (λ ms. with_object-Respects o x _ (λ s same. closed_branch_lem x sc ms s (
              subst (λ k. Sound k s.object) (sym of_cluster)
                (subst (Sound cluster) (sym same) sound)))))

    reconcile_for-Respects :
        (x : O) (machine : CapiMachine) (cluster : CapiCluster)
        → Sound cluster x
        → (c : Option VultrCluster) → Respects order (reconcile_for p kind x machine cluster c)
    unfolding reconcile_for
    reconcile_for-Respects x machine cluster sound none = pure-Respects done
    reconcile_for-Respects x machine cluster sound (some c) =
        reconcile_in-Respects x machine cluster sound c

    reconcile_unless_paused-Respects :
        (x : O) (machine : CapiMachine) (cluster : CapiCluster)
        → Sound cluster x
        → (paused : Paused)
        → Respects order (reconcile_unless_paused p kind x machine cluster paused)
    unfolding reconcile_unless_paused
    reconcile_unless_paused-Respects x machine cluster sound paused =
        option-Respects paused.error _ _
          (if-Respects (paused.is_paused || paused.requeue) _ _ (pure-Respects done) (
            bind-Respects _ _ (asked _ (kept.cluster _ _)) (λ c.
              reconcile_for-Respects x machine cluster sound
                (cluster_or_empty (machine_only p || kind.is_deleting x) c))))
          (λ e. raise-Respects e)

    reconcile_clustered-Respects :
        (x : O) (machine : CapiMachine) (cluster : Fetched CapiCluster)
        → ((k : CapiCluster) → cluster ≡ found k → Sound k x)
        → Respects order (reconcile_clustered p kind x machine cluster)
    unfolding reconcile_clustered
    reconcile_clustered-Respects x machine (missing e) sound = pure-Respects done
    reconcile_clustered-Respects x machine (failed e) sound = pure-Respects done
    reconcile_clustered-Respects x machine (found cluster) sound =
        bind-Respects _ _ (asked _ (kept.paused cluster _ _))
          (λ paused. reconcile_unless_paused-Respects x machine cluster (sound cluster refl) paused)

    reconcile_owned-Respects :
        (x : O) (owner : Fetched (Option CapiMachine))
        → ((machine : CapiMachine)
            → owner ≡ found (some machine)
            → (w : W) (k : CapiCluster) → (p.kube.get_cluster_from_metadata machine w).0 ≡ found k
            → Sound k x)
        → Respects order (reconcile_owned p kind x owner)
    unfolding reconcile_owned
    reconcile_owned-Respects x (missing e) sound = raise-Respects e
    reconcile_owned-Respects x (failed e) sound = raise-Respects e
    reconcile_owned-Respects x (found none) sound = pure-Respects done
    reconcile_owned-Respects x (found (some machine)) sound =
        asked_then (p.kube.get_cluster_from_metadata machine) _ (kept.metadata machine)
          (λ w. reconcile_clustered-Respects x machine _ (λ k e. sound machine refl w k e))

    reconcile_fetched-Respects :
        (x : Fetched O)
        → ((y : O)
            → x ≡ found y
            → (w' : W) (machine : CapiMachine)
            → (p.kube.get_owner_machine (kind.namespace_of y) (kind.name_of y) w').0
              ≡ found (some machine)
            → (w'' : W) (k : CapiCluster)
            → (p.kube.get_cluster_from_metadata machine w'').0 ≡ found k
            → Sound k y)
        → Respects order (reconcile_fetched p kind x)
    unfolding reconcile_fetched
    reconcile_fetched-Respects (missing e) sound = pure-Respects done
    reconcile_fetched-Respects (failed e) sound = raise-Respects e
    reconcile_fetched-Respects (found x) sound =
        asked_then (p.kube.get_owner_machine (kind.namespace_of x) (kind.name_of x)) _
          (kept.owner _ _)
          (λ w. reconcile_owned-Respects x _ (λ machine e. sound x refl w machine e))

    -- Then the whole of `Reconcile` keeps the order, on every path and for every outcome.
    pub reconcile-Respects :
        (namespace name : String) → Respects order (reconcile p kind namespace name)
    unfolding reconcile
    reconcile-Respects namespace name =
        asked_then (kind.get namespace name) (reconcile_fetched p kind) (kept.get namespace name)
          (λ w. reconcile_fetched-Respects _ (kept.sound namespace name w))
