-- ===== src/Controller/BareMetal/Keeps.antt =====
-- The parts of a reconcile of a VultrBareMetalMachine that start no server.
use cluster_api_provider_vul.Base.{
  ◌≡◌, refl, String, ◌==◌, string_eq, Bool, true, false, arith, List, Option, none, some, [], ◌∷◌,
  GoError, sprintf, str,
}
use cluster_api_provider_vul.Base.Exec.{◌>>=◌}
use cluster_api_provider_vul.Base.Respects.{
  Preorder, Respects, pure-Respects, raise-Respects, if-Respects, bind-Respects, on_error-Respects,
}
use cluster_api_provider_vul.Api.Conditions.{
  deleting_reason, formatted, server_pending_reason, unexpected_status_reason,
}
use cluster_api_provider_vul.Api.Status.{subscription_pending, subscription_active}
use cluster_api_provider_vul.Api.BareMetal.{VultrBareMetalMachine}
use cluster_api_provider_vul.Govultr.{BareMetalServer, VpcInfo}
use cluster_api_provider_vul.Kube.{Platform, Env, warning, done, requeue_in}
use cluster_api_provider_vul.Kube.Actions.{get_object, in_world, fail_with}
use cluster_api_provider_vul.Scope.Bootstrap.{machine_role}
use cluster_api_provider_vul.Scope.Cluster.{ClusterScope, api_server_load_balancer_id}
use cluster_api_provider_vul.Scope.BareMetal.{
  BareMetalMachineScope, get_server_id, set_terminal_failure, is_control_plane,
}
use cluster_api_provider_vul.Services.CloudConfig.Prepend.{Yaml}
use cluster_api_provider_vul.Services.BareMetal.{is_terminal_vpc_attach_error}
use cluster_api_provider_vul.Services.Account.{run_order, run_of_shrinks}
use cluster_api_provider_vul.Services.Keeps.{
  ensure_load_balancer_member-keeps, remove_load_balancer_member-keeps,
}
use cluster_api_provider_vul.Services.BareMetal.Cloud.{IsServerCloud, server_owner}
use cluster_api_provider_vul.Services.BareMetal.Keeps.{
  delete_server-keeps, ensure_vpc-keeps, find_server-keeps,
}
use cluster_api_provider_vul.Controller.Steps.{
  env_order, quiet-Respects, get-Respects, modify-Respects, emit-Respects, in_world-Respects,
}
use cluster_api_provider_vul.Controller.BareMetal.{
  Attachment, returns, continues, set_ready_message, record_details, attach_failed, attach_outcome,
  attach_vpc, wait_for_load_balancer, join_known, join_load_balancer, finish_active,
  after_attachment, reconcile_active, reconcile_server, bare_metal_pending_requeue, delete_by_id,
  finish_delete, delete_remaining, reconcile_delete, close,
}

module _ {W V : Type 0} (p : Platform W) (yaml : Yaml V) (servers : W → List BareMetalServer)
    (cloud : IsServerCloud p servers) (sc : ClusterScope) (ms : BareMetalMachineScope) where
  abbrev order : Preorder (Env W VultrBareMetalMachine)
  order = env_order server_owner servers

  set_ready_message-Respects :
      (reason message : String) → Respects order (set_ready_message p yaml sc ms reason message)
  unfolding set_ready_message
  set_ready_message-Respects reason message = modify-Respects server_owner servers _

  record_details-Respects : (v : BareMetalServer) → Respects order (record_details p yaml sc ms v)
  unfolding record_details
  record_details-Respects v =
      quiet-Respects server_owner servers (record_details p yaml sc ms v) (λ s. refl)

  attach_failed-Respects : (e : GoError) → Respects order (attach_failed p yaml sc ms e)
  unfolding attach_failed
  attach_failed-Respects e =
      if-Respects (is_terminal_vpc_attach_error p.lib e) _ _
        (bind-Respects _ _ (emit-Respects server_owner servers _ _ _)
          (λ _. bind-Respects _ _ (modify-Respects server_owner servers _) (λ _. pure-Respects _)))
        (raise-Respects e)

  attach_outcome-Respects :
      (found : Option VpcInfo) → Respects order (attach_outcome p yaml sc ms found)
  unfolding attach_outcome
  attach_outcome-Respects none =
      bind-Respects _ _ (set_ready_message-Respects _ _) (λ _. pure-Respects _)
  attach_outcome-Respects (some info) =
      bind-Respects _ _ (modify-Respects server_owner servers _) (λ _. pure-Respects _)

  attach_vpc-Respects : (v : BareMetalServer) → Respects order (attach_vpc p yaml sc ms v)
  unfolding attach_vpc
  attach_vpc-Respects v = bind-Respects _ _ (get-Respects server_owner servers) (λ m.
      if-Respects (m.spec.vpc_id == "") _ _ (pure-Respects _) (
        on_error-Respects _ _ _
          (in_world-Respects server_owner servers _
            (ensure_vpc-keeps p servers cloud v.id m.spec.vpc_id))
          attach_failed-Respects attach_outcome-Respects))

  wait-Respects : (message : String) → Respects order (wait_for_load_balancer p yaml sc ms message)
  unfolding wait_for_load_balancer
  wait-Respects message =
      bind-Respects _ _ (set_ready_message-Respects _ _) (λ _. pure-Respects false)

  join_known-Respects :
      (lb_id : String) (v : BareMetalServer) → Respects order (join_known p yaml sc ms lb_id v)
  unfolding join_known
  join_known-Respects lb_id v =
      bind-Respects _ _
        (on_error-Respects _ _ _
          (in_world-Respects server_owner servers _
            (ensure_load_balancer_member-keeps cloud.keeping lb_id v.id))
          (λ e.
            bind-Respects _ _ (emit-Respects server_owner servers _ _ _) (λ _. raise-Respects e))
          (λ b. pure-Respects b))
        (λ member. if-Respects member _ _ (pure-Respects true) (wait-Respects _))

  join_load_balancer-Respects :
      (v : BareMetalServer) → Respects order (join_load_balancer p yaml sc ms v)
  unfolding join_load_balancer
  join_load_balancer-Respects v =
      let id = api_server_load_balancer_id sc.vultr_cluster in
      if-Respects (is_control_plane p.lib ms) _ _
        (if-Respects (id == "") _ _ (wait-Respects _) (join_known-Respects id v))
        (pure-Respects true)

  finish_active-Respects :
      (v : BareMetalServer) (vpc : Option VpcInfo)
      → Respects order (finish_active p yaml sc ms v vpc)
  unfolding finish_active
  finish_active-Respects v vpc =
      quiet-Respects server_owner servers (finish_active p yaml sc ms v vpc) (λ s. refl)

  after_attachment-Respects :
      (v : BareMetalServer) (a : Attachment) → Respects order (after_attachment p yaml sc ms v a)
  unfolding after_attachment
  after_attachment-Respects v (returns result) = pure-Respects result
  after_attachment-Respects v (continues vpc) =
      bind-Respects _ _ (join_load_balancer-Respects v)
        (λ joined. if-Respects joined _ _ (finish_active-Respects v vpc) (pure-Respects _))

  reconcile_active-Respects :
      (v : BareMetalServer) → Respects order (reconcile_active p yaml sc ms v)
  unfolding reconcile_active
  reconcile_active-Respects v =
      bind-Respects _ _ (attach_vpc-Respects v) (after_attachment-Respects v)

  pub reconcile_server-Respects :
      (v : BareMetalServer) → Respects order (reconcile_server p yaml sc ms v)
  unfolding reconcile_server
  reconcile_server-Respects v = bind-Respects _ _ (record_details-Respects v) (λ _.
      if-Respects (v.status == subscription_pending) _ _
        (bind-Respects _ _
          (set_ready_message-Respects server_pending_reason "Bare metal server is provisioning")
          (λ _. pure-Respects (requeue_in bare_metal_pending_requeue)))
        (if-Respects (v.status == subscription_active) _ _ (reconcile_active-Respects v) (
          bind-Respects _ _ (emit-Respects server_owner servers warning "UnexpectedStatus" "Failed")
            (λ _.
              bind-Respects _ _ (modify-Respects server_owner servers (unexpected v))
                (λ _. pure-Respects done)))))
    where
      unexpected : BareMetalServer → VultrBareMetalMachine → VultrBareMetalMachine
      unexpected v =
          set_terminal_failure p.lib unexpected_status_reason
            (formatted (sprintf "bare metal server status %q is unexpected" (str v.status ∷ [])))

  delete_by_id-Respects : (id : String) → Respects order (delete_by_id p yaml sc ms id)
  unfolding delete_by_id
  delete_by_id-Respects id = if-Respects (id == "") _ _ (pure-Respects false) (
      bind-Respects _ _
        (if-Respects (is_control_plane p.lib ms) _ _
          (in_world-Respects server_owner servers _ (
            remove_load_balancer_member-keeps cloud.keeping
              (api_server_load_balancer_id sc.vultr_cluster) id))
          (pure-Respects tt))
        (λ _.
          bind-Respects _ _
            (in_world-Respects server_owner servers _ (delete_server-keeps p servers cloud id))
            (λ deleted.
              bind-Respects _ _
                (if-Respects deleted _ _ (emit-Respects server_owner servers _ _ _)
                  (pure-Respects tt))
                (λ _. pure-Respects deleted))))

  finish_delete-Respects : (deleted : Bool) → Respects order (finish_delete p yaml sc ms deleted)
  unfolding finish_delete
  finish_delete-Respects deleted =
      bind-Respects _ _
        (if-Respects deleted _ _ (pure-Respects tt) (emit-Respects server_owner servers _ _ _))
        (λ _. bind-Respects _ _ (modify-Respects server_owner servers _) (λ _. pure-Respects done))

  delete_remaining-Respects :
      (id : String) (deleted : Bool) (left : Option BareMetalServer)
      → Respects order (delete_remaining p yaml sc ms id deleted left)
  unfolding delete_remaining
  delete_remaining-Respects id deleted none = finish_delete-Respects deleted
  delete_remaining-Respects id deleted (some v) = if-Respects (v.id == id) _ _ (pure-Respects _) (
      bind-Respects _ _
        (in_world-Respects server_owner servers _ (delete_server-keeps p servers cloud v.id))
        (λ _. bind-Respects _ _ (emit-Respects server_owner servers _ _ _) (λ _. pure-Respects _)))

  pub reconcile_delete-Respects : Respects order (reconcile_delete p yaml sc ms)
  unfolding reconcile_delete
  reconcile_delete-Respects =
      bind-Respects _ _
        (set_ready_message-Respects deleting_reason "Deleting the bare metal server")
        (λ _. bind-Respects _ _ (get-Respects server_owner servers) (λ m.
          bind-Respects _ _ (delete_by_id-Respects (get_server_id m)) (λ deleted.
            bind-Respects _ _
              (in_world-Respects server_owner servers _
                (find_server-keeps p servers cloud sc m.name (machine_role p ms.machine)))
              (λ left. delete_remaining-Respects (get_server_id m) deleted left))))

  close-world :
      (s : Env W VultrBareMetalMachine)
      → (close p yaml sc ms s).1.world ≡ (p.kube.patch_bare_metal s.object s.world).1
  unfolding close ◌>>=◌ get_object in_world fail_with
  close-world s = ground arith

  pub close-Respects : Respects order (close p yaml sc ms)
  unfolding run_order
  close-Respects = record {
    run = λ s. rw (close-world s) (run_of_shrinks (cloud.patch s.object s.world));
  }
