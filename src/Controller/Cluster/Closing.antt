-- ===== src/Controller/Cluster/Closing.antt =====
-- How a `Reconcile` of a VultrCluster ends: paused clusters, and the closing patch.
use cluster_api_provider_vul.Base.{
  ◌≡◌, refl, ap, ◌∙◌, String, Bool, true, false, Option, none, some, inl, inr, ◌⊎◌, if◌then◌else◌,
  plain, wrapf,
}
use cluster_api_provider_vul.Base.Exec.{Exec, ◌>>=◌, pure, raise, call, on_error, bind-rule}
use cluster_api_provider_vul.Api.Cluster.{VultrCluster}
use cluster_api_provider_vul.Kube.{
  CapiCluster, Platform, Env, Fetched, found, missing, failed, ReconcileResult, done,
}
use cluster_api_provider_vul.Kube.Actions.{in_world, deferring, with_object}
use cluster_api_provider_vul.Scope.Cluster.{ClusterScope, new_cluster_scope}
use cluster_api_provider_vul.Controller.Entry.Closing.{state-deferring, object-on_error}
use cluster_api_provider_vul.Controller.Cluster.{
  close, reconcile, reconcile_fetched, reconcile_owned, reconcile_scoped, reconcile_normal,
  reconcile_delete,
}

module _ {W : Type 0} (p : Platform W) where
  abbrev State : Type 0
  State = Env W (Option VultrCluster)

  -- A reconcile that had an object in memory: the VultrCluster was fetched with its owner, they
  -- are not paused, and the closing patch came last.
  pub record Closes (namespace name : String) (s s' : State) : Type 0 where
    pub owner : CapiCluster
    pub fetched : VultrCluster
    pub at_fetch : (p.kube.get_cluster namespace name s.world).0 ≡ found fetched
    pub at_owner :
        (p.kube.get_owner_cluster fetched (p.kube.get_cluster namespace name s.world).1).0
        ≡ found (some owner)
    pub running : p.kube.is_paused owner fetched ≡ false
    pub before : Env W VultrCluster
    pub world : s'.world ≡ (close p owner before).1.world
    pub object : s'.object ≡ some (close p owner before).1.object

  -- No object, or the closing patch last, from the scope on.
  abbrev Scoped : CapiCluster → VultrCluster → State → Type 0
  Scoped cluster c s' =
      (s'.object ≡ none)
      ⊎ ((p.kube.is_paused cluster c ≡ false)
          × ((t : Env W VultrCluster) × (s'.world ≡ (close p cluster t).1.world)
              × (s'.object ≡ some (close p cluster t).1.object)))

  reconcile_scoped-Scoped :
      (cluster : CapiCluster) (c : VultrCluster) (s : State)
      → s.object ≡ none
      → Scoped cluster c (reconcile_scoped p cluster c s).1
  unfolding reconcile_scoped pure with_object
  reconcile_scoped-Scoped cluster c s empty = at (p.kube.is_paused cluster c) refl
    where
      create_scope : Exec State ClusterScope
      create_scope =
          on_error (in_world (new_cluster_scope p (some cluster) (some c)))
            (λ e. raise (wrapf (plain "failed to create scope") e)) pure

      scope_same : (create_scope s).1.object ≡ s.object
      scope_same =
          object-on_error (new_cluster_scope p (some cluster) (some c))
            (wrapf (plain "failed to create scope")) s

      work : Exec (Env W VultrCluster) ReconcileResult
      work = if c.deleting then reconcile_delete p cluster else reconcile_normal p cluster

      at :
          (paused : Bool)
          → p.kube.is_paused cluster c ≡ paused
          → Scoped cluster c
              ((if paused
                  then pure done
                  else create_scope >>= λ _. with_object c (deferring (close p cluster) work))
                s).1
      at true e = inl empty
      at false e =
          bind-rule create_scope (λ _. with_object c (deferring (close p cluster) work)) s
            (λ x. Scoped cluster c x.1)
            (λ sc _.
              let t : Env W VultrCluster = record {
                world = (create_scope s).1.world;
                object = c;
                events = (create_scope s).1.events;
              } in
              let same = state-deferring (close p cluster) work t in
              inr (
                e,
                (
                  (work t).1,
                  ap (λ (u : Env W VultrCluster). u.world) same,
                  ap (λ (u : Env W VultrCluster). some u.object) same,
                ),
              ))
            (λ x stopped _. inl (ap (λ (t : State). t.object) stopped ∙ scope_same ∙ empty))

  module _ (namespace name : String) (s : State) (empty : s.object ≡ none) where
    abbrev get : Exec State (Fetched VultrCluster)
    get = in_world (call (p.kube.get_cluster namespace name))

    abbrev Result : State → Type 0
    Result s' = (s'.object ≡ none) ⊎ Closes namespace name s s'

    owned-lem :
        (c : VultrCluster)
        → (p.kube.get_cluster namespace name s.world).0 ≡ found c
        → (owner : Fetched (Option CapiCluster))
        → (p.kube.get_owner_cluster c (p.kube.get_cluster namespace name s.world).1).0 ≡ owner
        → (t : State) → t.object ≡ none
        → Result (reconcile_owned p c owner t).1
    unfolding reconcile_owned pure raise
    owned-lem c at_fetch (missing e) at_owner t none_yet = inl none_yet
    owned-lem c at_fetch (failed e) at_owner t none_yet = inl none_yet
    owned-lem c at_fetch (found none) at_owner t none_yet = inl none_yet
    owned-lem c at_fetch (found (some cluster)) at_owner t none_yet =
        elim (reconcile_scoped-Scoped cluster c t none_yet) [
          | inl no_object ↦ inl no_object
          | inr (running, (before, world, object)) ↦ inr (record {
            owner = cluster;
            fetched = c;
            at_fetch = at_fetch;
            at_owner = at_owner;
            running = running;
            before = before;
            world = world;
            object = object;
          })
        ]

    fetched-lem :
        (x : Fetched VultrCluster)
        → (p.kube.get_cluster namespace name s.world).0 ≡ x
        → Result (reconcile_fetched p x (get s).1).1
    unfolding reconcile_fetched reconcile_owned pure raise in_world call ◌>>=◌
    fetched-lem (missing e) at_fetch = inl empty
    fetched-lem (failed e) at_fetch = inl empty
    fetched-lem (found c) at_fetch =
        owned-lem c at_fetch (p.kube.get_owner_cluster c (get s).1.world).0 refl
          (in_world (call (p.kube.get_owner_cluster c)) (get s).1).1 empty

    -- However the `Reconcile` of a VultrCluster ends, also with an error or a panic, either it ends
    -- with no object to keep, or the VultrCluster was fetched and has an owner, neither is paused,
    -- and the closing patch of the object in memory is the last that it does to the world.
    pub reconcile-Closes : Result (reconcile p namespace name s).1
    unfolding reconcile in_world ◌>>=◌
    reconcile-Closes = fetched-lem (p.kube.get_cluster namespace name s.world).0 refl
