-- ===== src/Controller/BareMetal/Deletion.antt =====
-- When a VultrBareMetalMachine gives up its finalizer.
use cluster_api_provider_vul.Base.{
  ◌≡◌, refl, sym, ap, ◌∙◌, none, String, string_eq, Bool, inl, inr, ◌⊎◌, eq_iff, arith, plain,
  Outcome, ok, if◌then◌else◌, true,
}
use cluster_api_provider_vul.Base.Exec.{◌>>=◌, bind-cases}
use cluster_api_provider_vul.Api.Conditions.{condition_false, deleting_reason, formatted}
use cluster_api_provider_vul.Api.BareMetal.{VultrBareMetalMachine, bare_metal_machine_finalizer}
use cluster_api_provider_vul.Kube.{Platform, Env, ReconcileResult, done}
use cluster_api_provider_vul.Kube.Actions.{emit, in_world, modify}
use cluster_api_provider_vul.Scope.Bootstrap.{machine_role}
use cluster_api_provider_vul.Scope.Cluster.{ClusterScope, api_server_load_balancer_id}
use cluster_api_provider_vul.Scope.BareMetal.{
  BareMetalMachineScope, get_server_id, set_ready_condition,
}
use cluster_api_provider_vul.Services.LoadBalancer.{remove_load_balancer_member}
use cluster_api_provider_vul.Services.CloudConfig.Prepend.{Yaml}
use cluster_api_provider_vul.Services.BareMetal.{
  delete_bare_metal_server, find_bare_metal_server_by_tags,
}
use cluster_api_provider_vul.Controller.BareMetal.{
  delete_by_id, finish_delete, delete_remaining, reconcile_delete,
}

module _ {W V : Type 0} (p : Platform W) (yaml : Yaml V) (sc : ClusterScope)
    (ms : BareMetalMachineScope) where
  -- The call by which a control plane server leaves the load balancer that the VultrCluster names.
  abbrev leaves : String → W → Outcome (Unit {0}) × W
  leaves id w = remove_load_balancer_member p (api_server_load_balancer_id sc.vultr_cluster) id w

  abbrev is_control_plane : Bool
  is_control_plane = p.lib.is_control_plane_machine ms.machine

  abbrev before_delete : String → W → W
  before_delete id w = if is_control_plane then (leaves id w).1 else w

  -- The server of an id was deleted or is missing, after `RemoveLoadBalancerMember` returned no
  -- error if it is a control plane's.
  pub record DeletedById (id : String) (w : W) : Type 0 where
    pub gone : Bool
    pub left : is_control_plane ≡ true → (leaves id w).0 ≡ ok tt
    pub deleted : (delete_bare_metal_server p id (before_delete id w)).0 ≡ ok gone

  object-delete_by_id :
      (id : String) (s : Env W VultrBareMetalMachine)
      → (delete_by_id p yaml sc ms id s).1.object ≡ s.object
  unfolding delete_by_id
  object-delete_by_id id s = ground arith

  delete_ok :
      (id : String) (s : Env W VultrBareMetalMachine) (gone : Bool)
      → (delete_by_id p yaml sc ms id s).0 ≡ ok gone
      → (id ≡ "")
        ⊎ ((is_control_plane ≡ true → (leaves id s.world).0 ≡ ok tt)
            × ((delete_bare_metal_server p id (before_delete id s.world)).0 ≡ ok gone))
  unfolding delete_by_id
  delete_ok id s gone e = ground (arith, eq_iff id "")

  -- The rest of `reconcileDelete`, from the listing on.
  abbrev list_then :
      String
      → String
      → Bool
      → Env W VultrBareMetalMachine
      → Outcome ReconcileResult × Env W VultrBareMetalMachine
  list_then name id gone t =
      (in_world (find_bare_metal_server_by_tags p sc name (machine_role p ms.machine))
          >>= delete_remaining p yaml sc ms id gone)
        t

  list_then_lem :
      (name id : String) (gone : Bool) (t : Env W VultrBareMetalMachine)
      → ((list_then name id gone t).1.object.finalizers ≡ t.object.finalizers)
        ⊎ (((list_then name id gone t).0 ≡ ok done)
            × ((list_then name id gone t).1.object.finalizers
                ≡ p.lib.remove_finalizer bare_metal_machine_finalizer t.object.finalizers)
            × ((find_bare_metal_server_by_tags p sc name (machine_role p ms.machine) t.world).0
                ≡ ok none)
            × ((list_then name id gone t).1.world
                ≡ (find_bare_metal_server_by_tags p sc name (machine_role p ms.machine) t.world).1))
  unfolding ◌>>=◌ in_world delete_remaining finish_delete modify emit
  list_then_lem name id gone t = ground arith

  -- A reconcile of a deletion that goes on from `s` and ends in `s'` with the outcome `r` released
  -- the machine: it finished, the server of its id was deleted or is missing, and the servers
  -- that were listed after that hold none of the machine's.
  pub record ReleasesServer (s s' : Env W VultrBareMetalMachine) (r : Outcome ReconcileResult)
      : Type 0 where
    pub finished : r ≡ ok done
    pub removed :
        s'.object.finalizers
        ≡ p.lib.remove_finalizer bare_metal_machine_finalizer s.object.finalizers
    pub deleted : (get_server_id s.object ≡ "") ⊎ DeletedById (get_server_id s.object) s.world
    pub before_list : W
    pub none_listed :
        find_bare_metal_server_by_tags p sc s.object.name (machine_role p ms.machine) before_list
        ≡ (ok none, s'.world)

  -- The state after the Ready condition says that the server is being deleted.
  abbrev marked : Env W VultrBareMetalMachine → Env W VultrBareMetalMachine
  marked s = record s {
    object =
        set_ready_condition p.lib condition_false deleting_reason
          (formatted (plain "Deleting the bare metal server")) s.object;
  }

  reconcile_delete_lem :
      (s : Env W VultrBareMetalMachine)
      → reconcile_delete p yaml sc ms s
        ≡ (delete_by_id p yaml sc ms (get_server_id s.object)
              >>= list_then s.object.name (get_server_id s.object))
            (marked s)
  unfolding reconcile_delete set_ready_condition get_server_id
  reconcile_delete_lem s = refl

  finalizers-marked :
      (s : Env W VultrBareMetalMachine) → (marked s).object.finalizers ≡ s.object.finalizers
  unfolding set_ready_condition
  finalizers-marked s = refl

  after_delete :
      (s : Env W VultrBareMetalMachine) (gone : Bool)
      → (delete_by_id p yaml sc ms (get_server_id s.object) (marked s)).0 ≡ ok gone
      → let t = (delete_by_id p yaml sc ms (get_server_id s.object) (marked s)).1 in
        let run = list_then s.object.name (get_server_id s.object) gone t in
        (run.1.object.finalizers ≡ s.object.finalizers) ⊎ ReleasesServer s run.1 run.0
  after_delete s gone e =
      let id : String = get_server_id s.object in
      let t : Env W VultrBareMetalMachine = (delete_by_id p yaml sc ms id (marked s)).1 in
      let same : t.object.finalizers ≡ s.object.finalizers =
        ap (λ (m : VultrBareMetalMachine). m.finalizers) (object-delete_by_id id (marked s))
        ∙ finalizers-marked s in
      elim (list_then_lem s.object.name id gone t) [
        | inl stays ↦ inl (stays ∙ same)
        | inr (finished, removed, none_left, world_after) ↦ inr (record {
          finished = finished;
          removed = removed ∙ ap (p.lib.remove_finalizer bare_metal_machine_finalizer) same;
          deleted = elim (delete_ok id (marked s) gone e) [
            | inl no_id ↦ inl no_id
            | inr (left, deleted) ↦ inr (record { gone = gone; left = left; deleted = deleted })
          ];
          before_list = t.world;
          none_listed = λ i. (none_left i, sym world_after i);
        })
      ]

  -- When a deletion is reconciled, the finalizers stay, or the machine is released: it ends with no
  -- error and no requeue, the server of its id was deleted or is missing, a listing after that found
  -- no server of the machine, and only the provider's finalizer is removed. If the machine is a
  -- control plane's, `RemoveLoadBalancerMember` for the load balancer that the VultrCluster names,
  -- if any, returned no error before the server was deleted.
  pub reconcile_delete-ReleasesServer :
      (s : Env W VultrBareMetalMachine)
      → ((reconcile_delete p yaml sc ms s).1.object.finalizers ≡ s.object.finalizers)
        ⊎ ReleasesServer s (reconcile_delete p yaml sc ms s).1 (reconcile_delete p yaml sc ms s).0
  reconcile_delete-ReleasesServer s =
      let id : String = get_server_id s.object in
      rw (reconcile_delete_lem s)
        (elim (bind-cases (delete_by_id p yaml sc ms id) (list_then s.object.name id) (marked s)) [
          | inr (stopped, _) ↦ inl (
              ap (λ (t : Env W VultrBareMetalMachine). t.object.finalizers) stopped
              ∙ ap (λ (m : VultrBareMetalMachine). m.finalizers) (object-delete_by_id id (marked s))
              ∙ finalizers-marked s)
          | inl (gone, e, rest) ↦ rw rest (after_delete s gone e)
        ])
