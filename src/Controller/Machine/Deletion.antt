-- ===== src/Controller/Machine/Deletion.antt =====
-- When a VultrMachine gives up its finalizer.
use cluster_api_provider_vul.Base.{
  ◌≡◌, refl, sym, ap, ◌∙◌, none, String, string_eq, Bool, inl, inr, ◌⊎◌, eq_iff, arith, plain,
  Outcome, ok,
}
use cluster_api_provider_vul.Base.Exec.{◌>>=◌, bind-cases}
use cluster_api_provider_vul.Api.Conditions.{condition_false, deleting_reason, formatted}
use cluster_api_provider_vul.Api.Machine.{VultrMachine, machine_finalizer}
use cluster_api_provider_vul.Kube.{Platform, Env, ReconcileResult, done}
use cluster_api_provider_vul.Kube.Actions.{emit, in_world, modify}
use cluster_api_provider_vul.Scope.Bootstrap.{machine_role}
use cluster_api_provider_vul.Scope.Cluster.{ClusterScope}
use cluster_api_provider_vul.Scope.Machine.{MachineScope, get_instance_id, set_ready_condition}
use cluster_api_provider_vul.Services.Instance.{delete_instance, find_instance_for_machine}
use cluster_api_provider_vul.Controller.Machine.{
  delete_by_id, finish_delete, delete_remaining, reconcile_delete,
}

module _ {W : Type 0} (p : Platform W) (sc : ClusterScope) (ms : MachineScope) where
  -- Deleting by id leaves the object alone, and its outcome is that of the call.
  object-delete_by_id :
      (id : String) (s : Env W VultrMachine)
      → ((delete_by_id p sc ms id s).1.object ≡ s.object)
        × ((id ≡ "") ⊎ ((delete_by_id p sc ms id s).0 ≡ (delete_instance p id s.world).0))
  unfolding delete_by_id
  object-delete_by_id id s = ground (arith, eq_iff id "")

  -- The rest of `reconcileDelete`, from the listing on.
  abbrev list_then :
      String → String → Bool → Env W VultrMachine → Outcome ReconcileResult × Env W VultrMachine
  list_then name id gone t =
      (in_world (find_instance_for_machine p sc name (machine_role p ms.machine))
          >>= delete_remaining p sc ms id gone)
        t

  list_then_lem :
      (name id : String) (gone : Bool) (t : Env W VultrMachine)
      → ((list_then name id gone t).1.object.finalizers ≡ t.object.finalizers)
        ⊎ (((list_then name id gone t).0 ≡ ok done)
            × ((list_then name id gone t).1.object.finalizers
                ≡ p.lib.remove_finalizer machine_finalizer t.object.finalizers)
            × ((find_instance_for_machine p sc name (machine_role p ms.machine) t.world).0
                ≡ ok none)
            × ((list_then name id gone t).1.world
                ≡ (find_instance_for_machine p sc name (machine_role p ms.machine) t.world).1))
  unfolding ◌>>=◌ in_world delete_remaining finish_delete modify emit
  list_then_lem name id gone t = ground arith

  -- A reconcile of a deletion that goes on from `s` and ends in `s'` with the outcome `r` released
  -- the machine: it finished, the instance of its id was deleted or is missing, and the instances
  -- that were listed after that hold none of the machine's.
  pub record Releases (s s' : Env W VultrMachine) (r : Outcome ReconcileResult) : Type 0 where
    pub finished : r ≡ ok done
    pub removed :
        s'.object.finalizers ≡ p.lib.remove_finalizer machine_finalizer s.object.finalizers
    pub deleted :
        (get_instance_id s.object ≡ "")
        ⊎ ((gone : Bool) × ((delete_instance p (get_instance_id s.object) s.world).0 ≡ ok gone))
    pub before_list : W
    pub none_listed :
        find_instance_for_machine p sc s.object.name (machine_role p ms.machine) before_list
        ≡ (ok none, s'.world)

  -- The state after the Ready condition says that the instance is being deleted.
  abbrev marked : Env W VultrMachine → Env W VultrMachine
  marked s = record s {
    object =
        set_ready_condition p.lib condition_false deleting_reason
          (formatted (plain "Deleting the instance")) s.object;
  }

  reconcile_delete_lem :
      (s : Env W VultrMachine)
      → reconcile_delete p sc ms s
        ≡ (delete_by_id p sc ms (get_instance_id s.object)
              >>= list_then s.object.name (get_instance_id s.object))
            (marked s)
  unfolding reconcile_delete set_ready_condition get_instance_id
  reconcile_delete_lem s = refl

  finalizers-marked : (s : Env W VultrMachine) → (marked s).object.finalizers ≡ s.object.finalizers
  unfolding set_ready_condition
  finalizers-marked s = refl

  after_delete :
      (s : Env W VultrMachine) (gone : Bool)
      → (delete_by_id p sc ms (get_instance_id s.object) (marked s)).0 ≡ ok gone
      → let t = (delete_by_id p sc ms (get_instance_id s.object) (marked s)).1 in
        let run = list_then s.object.name (get_instance_id s.object) gone t in
        (run.1.object.finalizers ≡ s.object.finalizers) ⊎ Releases s run.1 run.0
  after_delete s gone e =
      let id : String = get_instance_id s.object in
      let t : Env W VultrMachine = (delete_by_id p sc ms id (marked s)).1 in
      let (kept, outcome) = object-delete_by_id id (marked s) in
      let same : t.object.finalizers ≡ s.object.finalizers =
        ap (λ (m : VultrMachine). m.finalizers) kept ∙ finalizers-marked s in
      elim (list_then_lem s.object.name id gone t) [
        | inl stays ↦ inl (stays ∙ same)
        | inr (finished, removed, none_left, world_after) ↦ inr (record {
          finished = finished;
          removed = removed ∙ ap (p.lib.remove_finalizer machine_finalizer) same;
          deleted = elim outcome [
            | inl no_id ↦ inl no_id
            | inr called ↦ inr (gone, sym called ∙ e)
          ];
          before_list = t.world;
          none_listed = λ i. (none_left i, sym world_after i);
        })
      ]

  -- When a deletion is reconciled, the finalizer stays, or the machine is released: no error, no
  -- requeue and no instance that is still listed lets the object go.
  pub reconcile_delete-Releases :
      (s : Env W VultrMachine)
      → ((reconcile_delete p sc ms s).1.object.finalizers ≡ s.object.finalizers)
        ⊎ Releases s (reconcile_delete p sc ms s).1 (reconcile_delete p sc ms s).0
  reconcile_delete-Releases s =
      let id : String = get_instance_id s.object in
      rw (reconcile_delete_lem s)
        (elim (bind-cases (delete_by_id p sc ms id) (list_then s.object.name id) (marked s)) [
          | inr (stopped, _) ↦ inl (
              ap (λ (t : Env W VultrMachine). t.object.finalizers) stopped
              ∙ ap (λ (m : VultrMachine). m.finalizers) (object-delete_by_id id (marked s)).0
              ∙ finalizers-marked s)
          | inl (gone, e, rest) ↦ rw rest (after_delete s gone e)
        ])
