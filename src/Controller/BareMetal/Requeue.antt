-- ===== src/Controller/BareMetal/Requeue.antt =====
-- What the reconciles of a VultrBareMetalMachine ask for.
use cluster_api_provider_vul.Base.{
  arith, Option, none, some, String, ◌==◌, string_eq, Bool, true, false, GoError, sprintf, str, [],
  ◌∷◌,
}
use cluster_api_provider_vul.Base.Exec.{pure}
use cluster_api_provider_vul.Base.Returns.{
  Returns, pure-Returns, raise-Returns, if-Returns, bind-Returns, bind-known, on_error-Returns,
}
use cluster_api_provider_vul.Api.Status.{subscription_pending, subscription_active}
use cluster_api_provider_vul.Api.BareMetal.{VultrBareMetalMachine, bare_metal_machine_finalizer}
use cluster_api_provider_vul.Govultr.{BareMetalServer, VpcInfo}
use cluster_api_provider_vul.Kube.{Platform, Env, warning, done, requeue_in}
use cluster_api_provider_vul.Kube.Actions.{get_object, modify, emit, in_world}
use cluster_api_provider_vul.Scope.Cluster.{ClusterScope}
use cluster_api_provider_vul.Scope.BareMetal.{
  BareMetalMachineScope, role, set_terminal_failure, get_server_id, add_finalizer,
  has_terminal_failure,
}
use cluster_api_provider_vul.Services.CloudConfig.Prepend.{Yaml}
use cluster_api_provider_vul.Services.BareMetal.{
  is_terminal_vpc_attach_error, ensure_bare_metal_vpc, find_bare_metal_server_by_tags,
}
use cluster_api_provider_vul.Api.Conditions.{
  deleting_reason, server_pending_reason, unexpected_status_reason, formatted,
}
use cluster_api_provider_vul.Controller.Entry.Requeue.{Soon, done-Soon}
use cluster_api_provider_vul.Controller.BareMetal.{
  set_ready_message, record_details, delete_by_id, Attachment, returns, continues, attach_failed,
  attach_outcome, attach_vpc, after_attachment, reconcile_active, finish_active, reconcile_server,
  reconcile_bootstrapped, reconcile_bootstrap, reconcile_infrastructure, reconcile_normal,
  finish_delete, delete_remaining, reconcile_delete, bare_metal_not_found_requeue,
  bare_metal_load_balancer_requeue, bare_metal_vpc_requeue, bare_metal_pending_requeue,
}

-- The return that the attachment of the VPC may be.
SoonReturned : Attachment → Type 0
SoonReturned (returns r) = Soon r
SoonReturned (continues vpc) = Unit {0}

module _ {W V : Type 0} (p : Platform W) (yaml : Yaml V) (sc : ClusterScope)
    (ms : BareMetalMachineScope) where
  ends : Returns Soon (pure {S = Env W VultrBareMetalMachine} done)
  ends = pure-Returns done done-Soon

  attach_failed-Returns : (e : GoError) → Returns SoonReturned (attach_failed p yaml sc ms e)
  unfolding attach_failed SoonReturned
  attach_failed-Returns e =
      if-Returns (is_terminal_vpc_attach_error p.lib e) _ _
        (bind-Returns _ _ (λ _. bind-Returns _ _ (λ _. pure-Returns (returns done) done-Soon)))
        (raise-Returns e)

  attach_outcome-Returns :
      (found : Option VpcInfo) → Returns SoonReturned (attach_outcome p yaml sc ms found)
  unfolding attach_outcome SoonReturned
  attach_outcome-Returns none =
      bind-Returns _ _
        (λ _. pure-Returns (returns (requeue_in bare_metal_vpc_requeue)) (ground arith))
  attach_outcome-Returns (some info) =
      bind-Returns _ _ (λ _. pure-Returns (continues (some info)) tt)

  attach_vpc-Returns : (v : BareMetalServer) → Returns SoonReturned (attach_vpc p yaml sc ms v)
  unfolding attach_vpc SoonReturned
  attach_vpc-Returns v = bind-Returns get_object _ (λ m.
      if-Returns (m.spec.vpc_id == "") _ _ (pure-Returns (continues none) tt) (
        on_error-Returns (in_world (ensure_bare_metal_vpc p v.id m.spec.vpc_id)) _ _
          attach_failed-Returns attach_outcome-Returns))

  finish_active-Returns :
      (v : BareMetalServer) (vpc : Option VpcInfo) → Returns Soon (finish_active p yaml sc ms v vpc)
  unfolding finish_active
  finish_active-Returns v vpc = record { holds = λ s r e. ground arith }

  after_attachment-Returns :
      (v : BareMetalServer) (a : Attachment)
      → SoonReturned a
      → Returns Soon (after_attachment p yaml sc ms v a)
  unfolding after_attachment SoonReturned
  after_attachment-Returns v (returns r) soon = pure-Returns r soon
  after_attachment-Returns v (continues vpc) soon = bind-Returns _ _ (λ joined.
      if-Returns joined _ _ (finish_active-Returns v vpc)
        (pure-Returns (requeue_in bare_metal_load_balancer_requeue) (ground arith)))

  reconcile_active-Returns : (v : BareMetalServer) → Returns Soon (reconcile_active p yaml sc ms v)
  unfolding reconcile_active
  reconcile_active-Returns v =
      bind-known SoonReturned _ _ (attach_vpc-Returns v) (after_attachment-Returns v)

  reconcile_server-Returns : (v : BareMetalServer) → Returns Soon (reconcile_server p yaml sc ms v)
  unfolding reconcile_server
  reconcile_server-Returns v = bind-Returns (record_details p yaml sc ms v) _ (λ _.
      if-Returns (v.status == subscription_pending) _ _
        (bind-Returns
          (set_ready_message p yaml sc ms server_pending_reason "Bare metal server is provisioning")
          _ (λ _. pure-Returns (requeue_in bare_metal_pending_requeue) (ground arith)))
        (if-Returns (v.status == subscription_active) _ _ (reconcile_active-Returns v) (
          bind-Returns (emit warning "UnexpectedStatus" "Failed") _
            (λ _. bind-Returns (modify (unexpected v)) _ (λ _. ends)))))
    where
      unexpected : BareMetalServer → VultrBareMetalMachine → VultrBareMetalMachine
      unexpected v =
          set_terminal_failure p.lib unexpected_status_reason
            (formatted (sprintf "bare metal server status %q is unexpected" (str v.status ∷ [])))

  reconcile_bootstrapped-Returns : Returns Soon (reconcile_bootstrapped p yaml sc ms)
  unfolding reconcile_bootstrapped
  reconcile_bootstrapped-Returns = bind-Returns _ _ after
    where
      after :
          (found : Option BareMetalServer)
          → Returns {S = Env W VultrBareMetalMachine} Soon (elim found [
            | none ↦ pure (requeue_in bare_metal_not_found_requeue)
            | some v ↦ reconcile_server p yaml sc ms v
          ])
      after none = pure-Returns (requeue_in bare_metal_not_found_requeue) (ground arith)
      after (some v) = reconcile_server-Returns v

  reconcile_bootstrap-Returns :
      (name : Option String) → Returns Soon (reconcile_bootstrap p yaml sc ms name)
  unfolding reconcile_bootstrap
  reconcile_bootstrap-Returns none = bind-Returns _ _ (λ _. ends)
  reconcile_bootstrap-Returns (some name) = reconcile_bootstrapped-Returns

  reconcile_infrastructure-Returns :
      (ready : Option Bool) → Returns Soon (reconcile_infrastructure p yaml sc ms ready)
  unfolding reconcile_infrastructure
  reconcile_infrastructure-Returns (some true) =
      reconcile_bootstrap-Returns ms.machine.data_secret_name
  reconcile_infrastructure-Returns (some false) = bind-Returns _ _ (λ _. ends)
  reconcile_infrastructure-Returns none = bind-Returns _ _ (λ _. ends)

  pub reconcile_normal-Returns : Returns Soon (reconcile_normal p yaml sc ms)
  unfolding reconcile_normal
  reconcile_normal-Returns = bind-Returns get_object _ (λ m.
      if-Returns (has_terminal_failure p.lib m) _ _ ends (
        bind-Returns (modify (add_finalizer p.lib bare_metal_machine_finalizer)) _
          (λ _. reconcile_infrastructure-Returns ms.cluster.infrastructure_provisioned)))

  finish_delete-Returns : (deleted : Bool) → Returns Soon (finish_delete p yaml sc ms deleted)
  unfolding finish_delete
  finish_delete-Returns deleted = bind-Returns _ _ (λ _. bind-Returns _ _ (λ _. ends))

  delete_remaining-Returns :
      (id : String) (deleted : Bool) (left : Option BareMetalServer)
      → Returns Soon (delete_remaining p yaml sc ms id deleted left)
  unfolding delete_remaining
  delete_remaining-Returns id deleted none = finish_delete-Returns deleted
  delete_remaining-Returns id deleted (some v) =
      let later : Returns {S = Env W VultrBareMetalMachine} Soon
          (pure (requeue_in bare_metal_not_found_requeue)) =
        pure-Returns (requeue_in bare_metal_not_found_requeue) (ground arith) in
      if-Returns (v.id == id) _ _ later (bind-Returns _ _ (λ _. bind-Returns _ _ (λ _. later)))

  pub reconcile_delete-Returns : Returns Soon (reconcile_delete p yaml sc ms)
  unfolding reconcile_delete
  reconcile_delete-Returns =
      bind-Returns (set_ready_message p yaml sc ms deleting_reason "Deleting the bare metal server")
        _
        (λ _. bind-Returns get_object _ (λ m.
          bind-Returns (delete_by_id p yaml sc ms (get_server_id m)) _ (λ deleted.
            bind-Returns (in_world (find_bare_metal_server_by_tags p sc m.name (role p ms))) _
              (λ left. delete_remaining-Returns (get_server_id m) deleted left))))
