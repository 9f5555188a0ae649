-- ===== src/Controller/Machine/Requeue.antt =====
-- What the reconciles of a VultrMachine ask for.
use cluster_api_provider_vul.Base.{
  arith, Option, none, some, String, ◌==◌, string_eq, Bool, true, false,
}
use cluster_api_provider_vul.Base.Exec.{pure}
use cluster_api_provider_vul.Base.Returns.{Returns, pure-Returns, if-Returns, bind-Returns}
use cluster_api_provider_vul.Api.Machine.{VultrMachine, machine_finalizer}
use cluster_api_provider_vul.Govultr.{Instance}
use cluster_api_provider_vul.Kube.{Platform, Env, done, requeue_in, infrastructure_ready_condition}
use cluster_api_provider_vul.Kube.Actions.{get_object, modify, in_world}
use cluster_api_provider_vul.Scope.Cluster.{ClusterScope}
use cluster_api_provider_vul.Scope.Machine.{
  MachineScope, role, get_instance_id, add_finalizer, has_terminal_failure,
}
use cluster_api_provider_vul.Api.Conditions.{deleting_reason}
use cluster_api_provider_vul.Services.Instance.{find_instance_for_machine}
use cluster_api_provider_vul.Controller.Entry.Requeue.{Soon, done-Soon}
use cluster_api_provider_vul.Controller.Machine.{
  set_ready_message, persist_id, record_details, join_load_balancer, delete_by_id,
  reconcile_instance, report_status, reconcile_bootstrapped, reconcile_bootstrap,
  reconcile_infrastructure, reconcile_normal, finish_delete, delete_remaining, reconcile_delete,
  not_found_requeue, load_balancer_requeue,
}

module _ {W : Type 0} (p : Platform W) (sc : ClusterScope) (ms : MachineScope) where
  ends : Returns Soon (pure {S = Env W VultrMachine} done)
  ends = pure-Returns done done-Soon

  report_status-Returns : (i : Instance) → Returns Soon (report_status p sc ms i)
  unfolding report_status
  report_status-Returns i = record { holds = λ s r e. ground arith }

  reconcile_instance-Returns : (i : Instance) → Returns Soon (reconcile_instance p sc ms i)
  unfolding reconcile_instance
  reconcile_instance-Returns i = bind-Returns (persist_id p sc ms i) _ (λ _.
      bind-Returns (record_details p sc ms i) _ (λ _.
        bind-Returns (join_load_balancer p sc ms i) _ (λ joined.
          if-Returns joined _ _ (report_status-Returns i)
            (pure-Returns (requeue_in load_balancer_requeue) (ground arith)))))

  reconcile_bootstrapped-Returns : Returns Soon (reconcile_bootstrapped p sc ms)
  unfolding reconcile_bootstrapped
  reconcile_bootstrapped-Returns = bind-Returns _ _ after
    where
      after :
          (found : Option Instance)
          → Returns {S = Env W VultrMachine} Soon (elim found [
            | none ↦ pure (requeue_in not_found_requeue)
            | some i ↦ reconcile_instance p sc ms i
          ])
      after none = pure-Returns (requeue_in not_found_requeue) (ground arith)
      after (some i) = reconcile_instance-Returns i

  reconcile_bootstrap-Returns :
      (name : Option String) → Returns Soon (reconcile_bootstrap p sc ms name)
  unfolding reconcile_bootstrap
  reconcile_bootstrap-Returns none = bind-Returns _ _ (λ _. ends)
  reconcile_bootstrap-Returns (some name) = reconcile_bootstrapped-Returns

  reconcile_infrastructure-Returns :
      (ready : Bool) → Returns Soon (reconcile_infrastructure p sc ms ready)
  unfolding reconcile_infrastructure
  reconcile_infrastructure-Returns true = reconcile_bootstrap-Returns ms.machine.data_secret_name
  reconcile_infrastructure-Returns false = bind-Returns _ _ (λ _. ends)

  pub reconcile_normal-Returns : Returns Soon (reconcile_normal p sc ms)
  unfolding reconcile_normal
  reconcile_normal-Returns = bind-Returns get_object _ (λ m.
      if-Returns (has_terminal_failure p.lib m) _ _ ends (
        bind-Returns (modify (add_finalizer p.lib machine_finalizer)) _ (λ _.
          reconcile_infrastructure-Returns
            (p.lib.is_true ms.cluster.conditions infrastructure_ready_condition))))

  finish_delete-Returns : (deleted : Bool) → Returns Soon (finish_delete p sc ms deleted)
  unfolding finish_delete
  finish_delete-Returns deleted = bind-Returns _ _ (λ _. bind-Returns _ _ (λ _. ends))

  delete_remaining-Returns :
      (id : String) (deleted : Bool) (left : Option Instance)
      → Returns Soon (delete_remaining p sc ms id deleted left)
  unfolding delete_remaining
  delete_remaining-Returns id deleted none = finish_delete-Returns deleted
  delete_remaining-Returns id deleted (some i) =
      let later : Returns {S = Env W VultrMachine} Soon (pure (requeue_in not_found_requeue)) =
        pure-Returns (requeue_in not_found_requeue) (ground arith) in
      if-Returns (i.id == id) _ _ later (bind-Returns _ _ (λ _. bind-Returns _ _ (λ _. later)))

  pub reconcile_delete-Returns : Returns Soon (reconcile_delete p sc ms)
  unfolding reconcile_delete
  reconcile_delete-Returns =
      bind-Returns (set_ready_message p sc ms deleting_reason "Deleting the instance") _ (λ _.
        bind-Returns get_object _ (λ m.
          bind-Returns (delete_by_id p sc ms (get_instance_id m)) _ (λ deleted.
            bind-Returns (in_world (find_instance_for_machine p sc m.name (role p ms))) _
              (λ left. delete_remaining-Returns (get_instance_id m) deleted left))))
