-- ===== src/Controller/Machine/Progress.antt =====
-- What brings a VultrMachine to its end: readiness, and the release of its finalizer.
use cluster_api_provider_vul.Base.{
  ◌≡◌, ◌≢◌, refl, ◌∙◌, String, string_eq, eq_iff, Bool, true, arith, none, ok,
}
use cluster_api_provider_vul.Base.Exec.{◌>>=◌, on_error, bind-ok}
use cluster_api_provider_vul.Api.Machine.{VultrMachine, machine_finalizer}
use cluster_api_provider_vul.Govultr.{Instance}
use cluster_api_provider_vul.Kube.{Platform, Env, done}
use cluster_api_provider_vul.Kube.Actions.{get_object, modify, emit, in_world}
use cluster_api_provider_vul.Scope.Bootstrap.{machine_role}
use cluster_api_provider_vul.Scope.Cluster.{ClusterScope, api_server_loadbalancers_ref}
use cluster_api_provider_vul.Scope.Machine.{
  MachineScope, set_ready_condition, get_instance_id, get_provider_id,
}
use cluster_api_provider_vul.Services.Instance.{
  get_instance_address, delete_instance, find_instance_for_machine,
}
use cluster_api_provider_vul.Services.LoadBalancer.{ensure_load_balancer_member}
use cluster_api_provider_vul.Controller.Machine.Readiness.{after_join}
use cluster_api_provider_vul.Controller.Machine.{
  reconcile_delete, set_ready_message, delete_by_id, delete_remaining, finish_delete, persist_id,
  record_details, join_load_balancer, report_status, reconcile_instance,
}

module _ {W : Type 0} (p : Platform W) (sc : ClusterScope) (ms : MachineScope) where
  abbrev lb_id : String
  lb_id = (api_server_loadbalancers_ref sc.vultr_cluster).resource_id

  -- The load balancer takes the instance, where it has to, in the world `w`.
  abbrev pub Joins : Instance → W → Type 0
  Joins i w =
      p.lib.is_control_plane_machine ms.machine ≡ true
      → (lb_id ≢ "") × ((ensure_load_balancer_member p lb_id i.id w).0 ≡ ok true)

  join-lem :
      (i : Instance) (s : Env W VultrMachine)
      → Joins i s.world
      → (join_load_balancer p sc ms i s).0 ≡ ok true
  unfolding join_load_balancer
  join-lem i s joins = ground (arith, joins, eq_iff lb_id "")

  -- The outcome of a reconcile that made the machine ready.
  pub record IsReady (i : Instance) (s : Env W VultrMachine) : Type 0 where
    pub ready : s.object.status.ready ≡ true
    pub provisioned : s.object.status.initialization.provisioned ≡ true
    pub addresses : s.object.status.addresses ≡ get_instance_address i

  report-lem :
      (i : Instance) (s : Env W VultrMachine)
      → i.status ≡ "active"
      → ((report_status p sc ms i s).0 ≡ ok done) × IsReady i (report_status p sc ms i s).1
  unfolding report_status set_ready_condition ◌>>=◌ modify
  report-lem i s active =
      rw active (refl, record { ready = refl; provisioned = refl; addresses = refl })

  -- If the id could be stored and the load balancer took the instance, the reconcile ends with the
  -- switch on the status.
  pub joined-ends :
      (i : Instance) (s : Env W VultrMachine)
      → (persist_id p sc ms i s).0 ≡ ok tt
      → Joins i (persist_id p sc ms i s).1.world
      → let recorded = (record_details p sc ms i (persist_id p sc ms i s).1).1 in
        reconcile_instance p sc ms i s
        ≡ report_status p sc ms i (join_load_balancer p sc ms i recorded).1
  unfolding reconcile_instance record_details
  joined-ends i s stored joins =
      let s1 : Env W VultrMachine = (persist_id p sc ms i s).1 in
      let s2 : Env W VultrMachine = (record_details p sc ms i s1).1 in
      bind-ok (persist_id p sc ms i) _ s tt stored
      ∙ bind-ok (record_details p sc ms i)
          (λ _. join_load_balancer p sc ms i >>= after_join p sc ms i) s1 tt refl
      ∙ bind-ok (join_load_balancer p sc ms i) (after_join p sc ms i) s2 true (join-lem i s2 joins)

  -- A reconcile that finds an active instance makes progress to the end: if the id could be stored
  -- and, for a control plane, the load balancer took the instance, the reconcile ends without an
  -- error and without a requeue, and the machine is ready and provisioned with the addresses of
  -- the instance.
  pub active-IsReady :
      (i : Instance) (s : Env W VultrMachine)
      → i.status ≡ "active"
      → (persist_id p sc ms i s).0 ≡ ok tt
      → Joins i (persist_id p sc ms i s).1.world
      → ((reconcile_instance p sc ms i s).0 ≡ ok done)
        × IsReady i (reconcile_instance p sc ms i s).1
  active-IsReady i s active stored joins = rw (joined-ends i s stored joins) (report-lem i _ active)

  -- A deletion makes progress to the end too: if the instance of the machine's id was deleted or
  -- is missing, and a listing after that finds no instance of the machine, the reconcile ends
  -- without an error and without a requeue, and the provider's finalizer is removed.
  pub gone-Released :
      (s : Env W VultrMachine) (deleted : Bool)
      → let id = get_instance_id s.object in
        let after_delete = delete_instance p id s.world in
        id ≢ ""
        → after_delete.0 ≡ ok deleted
        → (find_instance_for_machine p sc s.object.name
            (machine_role p ms.machine)
            after_delete.1).0
          ≡ ok none
        → ((reconcile_delete p sc ms s).0 ≡ ok done)
          × ((reconcile_delete p sc ms s).1.object.finalizers
              ≡ p.lib.remove_finalizer machine_finalizer s.object.finalizers)
  unfolding reconcile_delete set_ready_message delete_by_id delete_remaining finish_delete
      set_ready_condition get_instance_id get_provider_id ◌>>=◌ on_error modify emit get_object
      in_world
  gone-Released s deleted known gone none_left =
      ground (arith, eq_iff (get_instance_id s.object) "")
