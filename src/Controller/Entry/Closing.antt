-- ===== src/Controller/Entry/Closing.antt =====
-- The patch that ends a `Reconcile` of the two machines.
use cluster_api_provider_vul.Base.{
  ◌≡◌, refl, ap, ◌∙◌, String, Bool, true, false, ◌||◌, Option, none, some, inl, inr, ◌⊎◌,
  if◌then◌else◌, GoError, Outcome, arith, plain, wrapf,
}
use cluster_api_provider_vul.Base.Exec.{Exec, ◌>>=◌, pure, raise, call, on_error, bind-rule}
use cluster_api_provider_vul.Api.Cluster.{VultrCluster}
use cluster_api_provider_vul.Kube.{
  CapiCluster, CapiMachine, Platform, Env, Fetched, found, missing, failed, Paused, ReconcileResult,
  done,
}
use cluster_api_provider_vul.Kube.Actions.{in_world, deferring, with_object}
use cluster_api_provider_vul.Scope.Cluster.{ClusterScope, new_cluster_scope}
use cluster_api_provider_vul.Controller.Entry.{
  Kind, reconcile, reconcile_fetched, reconcile_owned, reconcile_clustered, reconcile_unless_paused,
  reconcile_for, reconcile_in,
}

module _ {S A : Type 0} where
  pub state-deferring :
      (close : Exec S (Unit {0})) (m : Exec S A) (s : S)
      → (deferring close m s).1 ≡ (close (m s).1).1
  unfolding deferring
  state-deferring close m s = ground arith

module _ {W O A : Type 0} where
  object-in_world : (m : Exec W A) (s : Env W O) → (in_world m s).1.object ≡ s.object
  unfolding in_world
  object-in_world m s = refl

  pub object-on_error :
      (m : Exec W A) (wrap : GoError → GoError) (s : Env W O)
      → (on_error (in_world m) (λ e. raise {A = A} (wrap e)) pure s).1.object ≡ s.object
  unfolding on_error in_world
  object-on_error m wrap s = ground arith

module _ {W O S : Type 0} (p : Platform W) (kind : Kind W O S) where
  -- A reconcile ended with no object to keep, or with the closing patch of the object in memory:
  -- the object and the world are those right after it.
  abbrev pub Closed : Outcome ReconcileResult × Env W (Option O) → Type 0
  Closed x =
      (x.1.object ≡ none)
      ⊎ ((sc : ClusterScope) × (ms : S) × (t : Env W O) × (x.1.world ≡ (kind.close sc ms t).1.world)
          × (x.1.object ≡ some (kind.close sc ms t).1.object))

  stopped_lem :
      (before after : Env W (Option O)) (x : Outcome ReconcileResult × Env W (Option O))
      → before.object ≡ none
      → after.object ≡ before.object
      → x.1 ≡ after
      → Closed x
  stopped_lem before after x empty same stopped =
      inl (ap (λ (s : Env W (Option O)). s.object) stopped ∙ same ∙ empty)

  with_object-Closed :
      (o : O) (sc : ClusterScope) (ms : S) (m : Exec (Env W O) ReconcileResult)
      (s : Env W (Option O))
      → Closed (with_object o (deferring (kind.close sc ms) m) s)
  unfolding with_object
  with_object-Closed o sc ms m s =
      let s' : Env W O = record { world = s.world; object = o; events = s.events } in
      let same = state-deferring (kind.close sc ms) m s' in
      inr (
        sc,
        ms,
        (m s').1,
        ap (λ (t : Env W O). t.world) same,
        ap (λ (t : Env W O). some t.object) same,
      )

  reconcile_in-Closed :
      (o : O) (machine : CapiMachine) (cluster : CapiCluster) (c : VultrCluster)
      (s : Env W (Option O))
      → s.object ≡ none
      → Closed (reconcile_in p kind o machine cluster c s)
  unfolding reconcile_in in_world
  reconcile_in-Closed o machine cluster c s empty =
      bind-rule create_scope _ s Closed (λ sc _. after_scope sc (create_scope s).1 (scope_same s))
        (λ x stopped _. stopped_lem s (create_scope s).1 x empty (scope_same s) stopped)
    where
      create_scope : Exec (Env W (Option O)) ClusterScope
      create_scope =
          on_error (in_world (new_cluster_scope p (some cluster) (some c)))
            (λ e. raise (wrapf (plain "failed to create scope") e)) pure

      scope_same : (t : Env W (Option O)) → (create_scope t).1.object ≡ t.object
      scope_same t =
          object-on_error (new_cluster_scope p (some cluster) (some c))
            (wrapf (plain "failed to create scope")) t

      create_machine_scope : Exec (Env W (Option O)) S
      create_machine_scope =
          on_error (in_world (kind.new_scope cluster machine c o))
            (λ e. raise (wrapf (plain kind.scope_failure) e)) pure

      after_scope :
          (sc : ClusterScope) (t : Env W (Option O))
          → t.object ≡ s.object
          → Closed (
              (create_machine_scope >>= λ ms. with_object o (
                  deferring
                    (kind.close sc ms)
                    (if kind.is_deleting o then kind.delete sc ms else kind.normal sc ms)))
                t)
      after_scope sc t same =
          bind-rule create_machine_scope _ t Closed (λ ms _. with_object-Closed o sc ms _ _)
            (λ x stopped _.
              stopped_lem s _ x empty
                (object-on_error (kind.new_scope cluster machine c o)
                    (wrapf (plain kind.scope_failure)) t
                  ∙ same)
                stopped)

  for-Closed :
      (o : O) (machine : CapiMachine) (cluster : CapiCluster) (c : Option VultrCluster)
      (s : Env W (Option O))
      → s.object ≡ none
      → Closed (reconcile_for p kind o machine cluster c s)
  unfolding reconcile_for pure
  for-Closed o machine cluster none s empty = inl empty
  for-Closed o machine cluster (some c) s empty = reconcile_in-Closed o machine cluster c s empty

  pick-Closed :
      (e : Option GoError) (stop : Bool) (m : Exec (Env W (Option O)) ReconcileResult)
      (s : Env W (Option O))
      → s.object ≡ none
      → Closed (m s)
      → (let rest : Exec (Env W (Option O)) ReconcileResult = elim e [
        | some x ↦ raise x
        | none ↦ if stop then pure done else m
      ] in
          Closed (rest s))
  unfolding pure raise
  pick-Closed (some x) stop m s empty h = inl empty
  pick-Closed none true m s empty h = inl empty
  pick-Closed none false m s empty h = h

  unless_paused-Closed :
      (o : O) (machine : CapiMachine) (cluster : CapiCluster) (paused : Paused)
      (s : Env W (Option O))
      → s.object ≡ none
      → Closed (reconcile_unless_paused p kind o machine cluster paused s)
  unfolding reconcile_unless_paused in_world
  unless_paused-Closed o machine cluster paused s empty =
      pick-Closed paused.error (paused.is_paused || paused.requeue) _ s empty (
        bind-rule
          (in_world
            (call (p.kube.get_cluster (kind.namespace_of o) cluster.infrastructure_ref_name)))
          _ s Closed (λ c _. for-Closed o machine cluster _ _ empty)
          (λ x stopped _. stopped_lem s _ x empty refl stopped))

  clustered-Closed :
      (o : O) (machine : CapiMachine) (c : Fetched CapiCluster) (s : Env W (Option O))
      → s.object ≡ none
      → Closed (reconcile_clustered p kind o machine c s)
  unfolding reconcile_clustered pure in_world
  clustered-Closed o machine (missing e) s empty = inl empty
  clustered-Closed o machine (failed e) s empty = inl empty
  clustered-Closed o machine (found cluster) s empty =
      bind-rule
        (in_world
          (call (p.kube.ensure_paused_condition cluster (kind.namespace_of o) (kind.name_of o))))
        _ s Closed (λ paused _. unless_paused-Closed o machine cluster paused _ empty)
        (λ x stopped _. stopped_lem s _ x empty refl stopped)

  owned-Closed :
      (o : O) (owner : Fetched (Option CapiMachine)) (s : Env W (Option O))
      → s.object ≡ none
      → Closed (reconcile_owned p kind o owner s)
  unfolding reconcile_owned pure raise in_world
  owned-Closed o (missing e) s empty = inl empty
  owned-Closed o (failed e) s empty = inl empty
  owned-Closed o (found none) s empty = inl empty
  owned-Closed o (found (some machine)) s empty =
      bind-rule (in_world (call (p.kube.get_cluster_from_metadata machine))) _ s Closed
        (λ c _. clustered-Closed o machine c _ empty)
        (λ x stopped _. stopped_lem s _ x empty refl stopped)

  fetched-Closed :
      (fetched : Fetched O) (s : Env W (Option O))
      → s.object ≡ none
      → Closed (reconcile_fetched p kind fetched s)
  unfolding reconcile_fetched pure raise in_world
  fetched-Closed (missing e) s empty = inl empty
  fetched-Closed (failed e) s empty = inl empty
  fetched-Closed (found o) s empty =
      bind-rule (in_world (call (p.kube.get_owner_machine (kind.namespace_of o) (kind.name_of o))))
        _ s Closed (λ owner _. owned-Closed o owner _ empty)
        (λ x stopped _. stopped_lem s _ x empty refl stopped)

  -- However the `Reconcile` of a VultrMachine or a VultrBareMetalMachine ends, also with an error or a panic, either it ends before
  -- the scopes are built, with no object to keep, or the closing patch of the object in memory is
  -- the last that it does to the world.
  pub reconcile-Closed :
      (namespace name : String) (s : Env W (Option O))
      → s.object ≡ none
      → Closed (reconcile p kind namespace name s)
  unfolding reconcile in_world
  reconcile-Closed namespace name s empty =
      bind-rule (in_world (call (kind.get namespace name))) (reconcile_fetched p kind) s Closed
        (λ fetched _. fetched-Closed fetched (in_world (call (kind.get namespace name)) s).1 empty)
        (λ x stopped _. stopped_lem s _ x empty refl stopped)
