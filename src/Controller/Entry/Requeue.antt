-- ===== src/Controller/Entry/Requeue.antt =====
-- When a `Reconcile` of the two machines asks to be called again.
use cluster_api_provider_vul.Base.{
  ◌≡◌, refl, ◌≤◌, ◌⊎◌, inl, String, string_eq, ◌||◌, Option, none, some, Outcome, ok, err, panic,
  out_of_fuel,
}
use cluster_api_provider_vul.Base.Exec.{Exec, call}
use cluster_api_provider_vul.Base.Returns.{
  Returns, pure-Returns, raise-Returns, if-Returns, bind-Returns, option-Returns,
}
use cluster_api_provider_vul.Api.Cluster.{VultrCluster}
use cluster_api_provider_vul.Kube.{
  Platform, Env, CapiMachine, CapiCluster, Fetched, found, missing, failed, Paused, ReconcileResult,
  done,
}
use cluster_api_provider_vul.Kube.Actions.{deferring, after_close, with_object, in_world}
use cluster_api_provider_vul.Scope.Cluster.{ClusterScope, machine_only}
use cluster_api_provider_vul.Controller.Entry.{
  Kind, reconcile, reconcile_fetched, reconcile_owned, reconcile_clustered, reconcile_unless_paused,
  reconcile_for, reconcile_in, cluster_or_empty,
}

-- No requeue, or one in ten seconds to half a minute.
abbrev pub Soon : ReconcileResult → Type 0
Soon r = (r.requeue_after ≡ 0) ⊎ ((10 ≤ r.requeue_after) × (r.requeue_after ≤ 30))

pub done-Soon : Soon done
done-Soon = inl refl

module _ {W O : Type 0} where
  deferring-Returns :
      (close : Exec (Env W O) (Unit {0})) (m : Exec (Env W O) ReconcileResult)
      → Returns Soon m
      → Returns Soon (deferring close m)
  unfolding deferring
  deferring-Returns close m hm = record {
    holds = λ s r e. hm.holds s r (at (m s).0 (close (m s).1) r e);
  }
    where
      at :
          (o : Outcome ReconcileResult) (x : Outcome (Unit {0}) × Env W O) (r : ReconcileResult)
          → (after_close o x).0 ≡ ok r
          → o ≡ ok r
      at (ok a) (ok u, s) r e = e
      at (ok a) (err x, s) r e = absurd cc
      at (ok a) (panic, s) r e = absurd cc
      at (ok a) (out_of_fuel, s) r e = absurd cc
      at (err x) y r e = absurd cc
      at panic y r e = absurd cc
      at out_of_fuel y r e = absurd cc

  with_object-Returns :
      (x : O) (m : Exec (Env W O) ReconcileResult) → Returns Soon m → Returns Soon (with_object x m)
  unfolding with_object
  with_object-Returns x m hm = record {
    holds = λ s. hm.holds (record { world = s.world; object = x; events = s.events });
  }

module _ {W O S : Type 0} (p : Platform W) (kind : Kind W O S)
    (normal : (sc : ClusterScope) (ms : S) → Returns Soon (kind.normal sc ms))
    (delete : (sc : ClusterScope) (ms : S) → Returns Soon (kind.delete sc ms)) where
  in-Returns :
      (x : O) (machine : CapiMachine) (cluster : CapiCluster) (c : VultrCluster)
      → Returns Soon (reconcile_in p kind x machine cluster c)
  unfolding reconcile_in
  in-Returns x machine cluster c = bind-Returns _ _ (λ sc. bind-Returns _ _ (λ ms.
      with_object-Returns x _ (
        deferring-Returns _ _ (if-Returns (kind.is_deleting x) _ _ (delete sc ms) (normal sc ms)))))

  for-Returns :
      (x : O) (machine : CapiMachine) (cluster : CapiCluster) (c : Option VultrCluster)
      → Returns Soon (reconcile_for p kind x machine cluster c)
  unfolding reconcile_for
  for-Returns x machine cluster none = pure-Returns done done-Soon
  for-Returns x machine cluster (some c) = in-Returns x machine cluster c

  unless_paused-Returns :
      (x : O) (machine : CapiMachine) (cluster : CapiCluster) (paused : Paused)
      → Returns Soon (reconcile_unless_paused p kind x machine cluster paused)
  unfolding reconcile_unless_paused
  unless_paused-Returns x machine cluster paused =
      option-Returns paused.error _ _
        (if-Returns (paused.is_paused || paused.requeue) _ _ (pure-Returns done done-Soon) (
          bind-Returns _ _ (λ c.
            for-Returns x machine cluster
              (cluster_or_empty (machine_only p || kind.is_deleting x) c))))
        (λ e. raise-Returns e)

  clustered-Returns :
      (x : O) (machine : CapiMachine) (cluster : Fetched CapiCluster)
      → Returns Soon (reconcile_clustered p kind x machine cluster)
  unfolding reconcile_clustered
  clustered-Returns x machine (missing e) = pure-Returns done done-Soon
  clustered-Returns x machine (failed e) = pure-Returns done done-Soon
  clustered-Returns x machine (found cluster) =
      bind-Returns _ _ (λ paused. unless_paused-Returns x machine cluster paused)

  owned-Returns :
      (x : O) (owner : Fetched (Option CapiMachine)) → Returns Soon (reconcile_owned p kind x owner)
  unfolding reconcile_owned
  owned-Returns x (missing e) = raise-Returns e
  owned-Returns x (failed e) = raise-Returns e
  owned-Returns x (found none) = pure-Returns done done-Soon
  owned-Returns x (found (some machine)) =
      bind-Returns _ _ (λ cluster. clustered-Returns x machine cluster)

  fetched-Returns : (x : Fetched O) → Returns Soon (reconcile_fetched p kind x)
  unfolding reconcile_fetched
  fetched-Returns (missing e) = pure-Returns done done-Soon
  fetched-Returns (failed e) = raise-Returns e
  fetched-Returns (found x) = bind-Returns _ _ (λ owner. owned-Returns x owner)

  -- If the two branches of a kind ask for no later requeue, neither does its whole `Reconcile`.
  pub reconcile-Returns : (namespace name : String) → Returns Soon (reconcile p kind namespace name)
  unfolding reconcile
  reconcile-Returns namespace name =
      bind-Returns (in_world (call (kind.get namespace name))) _ (λ x. fetched-Returns x)
