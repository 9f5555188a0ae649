-- ===== src/Controller/Machine/Keeps.antt =====
-- The parts of a reconcile of a VultrMachine that start no instance.
use cluster_api_provider_vul.Base.{
  ◌≡◌, refl, String, ◌==◌, string_eq, Bool, true, false, arith, List, Option, none, some, [], ◌∷◌,
  wrapf, sprintf, str,
}
use cluster_api_provider_vul.Base.Exec.{◌>>=◌}
use cluster_api_provider_vul.Base.Respects.{
  Respects, pure-Respects, raise-Respects, if-Respects, bind-Respects, on_error-Respects,
}
use cluster_api_provider_vul.Api.Conditions.{deleting_reason}
use cluster_api_provider_vul.Api.Tags.{BuildTagParams}
use cluster_api_provider_vul.Api.Machine.{VultrMachine}
use cluster_api_provider_vul.Govultr.{Instance}
use cluster_api_provider_vul.Kube.{Platform, Env, done}
use cluster_api_provider_vul.Kube.Actions.{modify}
use cluster_api_provider_vul.Scope.Bootstrap.{machine_role}
use cluster_api_provider_vul.Scope.Cluster.{ClusterScope, api_server_loadbalancers_ref}
use cluster_api_provider_vul.Scope.Machine.{MachineScope, get_instance_id}
use cluster_api_provider_vul.Services.Account.{Ownership, here, next, lose, run_order}
use cluster_api_provider_vul.Services.Keeps.{ensure_load_balancer_member-keeps}
use cluster_api_provider_vul.Services.Instance.Cloud.{IsCloud, instance_owner}
use cluster_api_provider_vul.Services.Instance.Keeps.{
  delete_instance-keeps, find_instance_for_machine-keeps,
}
use cluster_api_provider_vul.Controller.Steps.{
  env_order, quiet-Respects, get-Respects, modify-Respects, emit-Respects, in_world-Respects,
}
use cluster_api_provider_vul.Controller.Machine.{
  set_ready_message, patch_object, persist_id, record_details, wait_for_load_balancer, join_known,
  join_load_balancer, report_status, reconcile_instance, delete_by_id, finish_delete,
  delete_remaining, reconcile_delete,
}

module _ {W : Type 0} (Among : BuildTagParams → Type 0) (p : Platform W)
    (instances : W → List Instance) (cloud : IsCloud p instances) (sc : ClusterScope)
    (ms : MachineScope) where
  abbrev owner : Ownership Instance
  owner = instance_owner Among

  patch_object-world :
      (s : Env W VultrMachine)
      → (patch_object p sc ms s).1.world ≡ (p.kube.patch_machine s.object s.world).1
  unfolding patch_object
  patch_object-world s = ground arith

  pub patch_object-Respects : Respects (env_order owner instances) (patch_object p sc ms)
  unfolding run_order
  patch_object-Respects = record {
    run = λ s. rw (patch_object-world s) (next here (lose (cloud.patch s.object s.world)));
  }

  persist_id-Respects : (i : Instance) → Respects (env_order owner instances) (persist_id p sc ms i)
  unfolding persist_id
  persist_id-Respects i = bind-Respects _ _ (get-Respects owner instances) (λ m.
      if-Respects (get_instance_id m == i.id) _ _ (pure-Respects tt) (
        bind-Respects _ _ (modify-Respects owner instances _) (λ _.
          on_error-Respects _ _ _ patch_object-Respects
            (λ e.
              raise-Respects
                (wrapf (sprintf "failed to persist provider ID for instance %s" (str i.id ∷ [])) e))
            (λ _. pure-Respects tt))))

  record_details-Respects :
      (i : Instance) → Respects (env_order owner instances) (record_details p sc ms i)
  unfolding record_details
  record_details-Respects i = quiet-Respects owner instances _ (λ s. refl)

  report_status-Respects :
      (i : Instance) → Respects (env_order owner instances) (report_status p sc ms i)
  unfolding report_status
  report_status-Respects i = quiet-Respects owner instances _ (λ s. ground arith)

  set_ready_message-Respects :
      (reason message : String)
      → Respects (env_order owner instances) (set_ready_message p sc ms reason message)
  unfolding set_ready_message
  set_ready_message-Respects reason message = modify-Respects owner instances _

  wait-Respects :
      (message : String)
      → Respects (env_order owner instances) (wait_for_load_balancer p sc ms message)
  unfolding wait_for_load_balancer set_ready_message ◌>>=◌ modify
  wait-Respects message =
      quiet-Respects owner instances (wait_for_load_balancer p sc ms message) (λ s. refl)

  join_known-Respects :
      (lb_id : String) (i : Instance)
      → Respects (env_order owner instances) (join_known p sc ms lb_id i)
  unfolding join_known
  join_known-Respects lb_id i =
      bind-Respects _ _
        (on_error-Respects _ _ _
          (in_world-Respects owner instances _
            (ensure_load_balancer_member-keeps cloud.keeping lb_id i.id))
          (λ e. bind-Respects _ _ (emit-Respects owner instances _ _ _) (λ _. raise-Respects e))
          (λ b. pure-Respects b))
        (λ member. if-Respects member _ _ (pure-Respects true) (wait-Respects _))

  join_load_balancer-Respects :
      (i : Instance) → Respects (env_order owner instances) (join_load_balancer p sc ms i)
  unfolding join_load_balancer
  join_load_balancer-Respects i =
      let id = (api_server_loadbalancers_ref sc.vultr_cluster).resource_id in
      if-Respects (p.lib.is_control_plane_machine ms.machine) _ _
        (if-Respects (id == "") _ _ (wait-Respects _) (join_known-Respects id i))
        (pure-Respects true)

  pub reconcile_instance-Respects :
      (i : Instance) → Respects (env_order owner instances) (reconcile_instance p sc ms i)
  unfolding reconcile_instance
  reconcile_instance-Respects i = bind-Respects _ _ (persist_id-Respects i) (λ _.
      bind-Respects _ _ (record_details-Respects i) (λ _.
        bind-Respects _ _ (join_load_balancer-Respects i)
          (λ joined. if-Respects joined _ _ (report_status-Respects i) (pure-Respects _))))

  delete_by_id-Respects :
      (id : String) → Respects (env_order owner instances) (delete_by_id p sc ms id)
  unfolding delete_by_id
  delete_by_id-Respects id = if-Respects (id == "") _ _ (pure-Respects false) (
      bind-Respects _ _
        (on_error-Respects _ _ _
          (in_world-Respects owner instances _ (delete_instance-keeps p instances cloud id))
          (λ e. bind-Respects _ _ (emit-Respects owner instances _ _ _) (λ _. raise-Respects e))
          (λ b. pure-Respects b))
        (λ deleted.
          bind-Respects _ _
            (if-Respects deleted _ _ (emit-Respects owner instances _ _ _) (pure-Respects tt))
            (λ _. pure-Respects deleted)))

  finish_delete-Respects :
      (deleted : Bool) → Respects (env_order owner instances) (finish_delete p sc ms deleted)
  unfolding finish_delete
  finish_delete-Respects deleted =
      bind-Respects _ _
        (if-Respects deleted _ _ (pure-Respects tt) (emit-Respects owner instances _ _ _))
        (λ _. bind-Respects _ _ (modify-Respects owner instances _) (λ _. pure-Respects done))

  delete_remaining-Respects :
      (id : String) (deleted : Bool) (left : Option Instance)
      → Respects (env_order owner instances) (delete_remaining p sc ms id deleted left)
  unfolding delete_remaining
  delete_remaining-Respects id deleted none = finish_delete-Respects deleted
  delete_remaining-Respects id deleted (some i) = if-Respects (i.id == id) _ _ (pure-Respects _) (
      bind-Respects _ _
        (in_world-Respects owner instances _ (delete_instance-keeps p instances cloud i.id))
        (λ _. bind-Respects _ _ (emit-Respects owner instances _ _ _) (λ _. pure-Respects _)))

  pub reconcile_delete-Respects : Respects (env_order owner instances) (reconcile_delete p sc ms)
  unfolding reconcile_delete
  reconcile_delete-Respects =
      bind-Respects _ _ (set_ready_message-Respects deleting_reason "Deleting the instance") (λ _.
        bind-Respects _ _ (get-Respects owner instances) (λ m.
          bind-Respects _ _ (delete_by_id-Respects (get_instance_id m)) (λ deleted.
            bind-Respects _ _
              (in_world-Respects owner instances _ (
                find_instance_for_machine-keeps p instances cloud sc m.name
                  (machine_role p ms.machine)))
              (λ left. delete_remaining-Respects (get_instance_id m) deleted left))))
