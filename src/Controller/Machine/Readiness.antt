-- ===== src/Controller/Machine/Readiness.antt =====
-- When a VultrMachine becomes ready.
use cluster_api_provider_vul.Base.{
  ◌≡◌, refl, sym, ap, ◌∙◌, string_eq, Bool, true, false, inl, inr, ◌⊎◌, eq_iff, arith,
  if◌then◌else◌, Outcome, ok,
}
use cluster_api_provider_vul.Base.Exec.{◌>>=◌, pure, bind-rule}
use cluster_api_provider_vul.Api.Machine.{VultrMachine}
use cluster_api_provider_vul.Govultr.{Instance}
use cluster_api_provider_vul.Kube.{Platform, Env, ReconcileResult, done, requeue_in}
use cluster_api_provider_vul.Scope.Cluster.{ClusterScope, api_server_loadbalancers_ref}
use cluster_api_provider_vul.Scope.Machine.{
  MachineScope, set_provider_id, set_terminal_failure, set_ready_condition,
}
use cluster_api_provider_vul.Services.LoadBalancer.{ensure_load_balancer_member}
use cluster_api_provider_vul.Controller.Machine.{
  persist_id, patch_object, record_details, join_load_balancer, report_status, reconcile_instance,
  load_balancer_requeue,
}

module _ {W : Type 0} (p : Platform W) (sc : ClusterScope) (ms : MachineScope) where
  abbrev is_ready : Env W VultrMachine → Bool
  is_ready s = s.object.status.ready

  ready-persist_id :
      (i : Instance) (s : Env W VultrMachine) → is_ready (persist_id p sc ms i s).1 ≡ is_ready s
  unfolding persist_id patch_object set_provider_id
  ready-persist_id i s = ground arith

  ready-record_details :
      (i : Instance) (s : Env W VultrMachine) → is_ready (record_details p sc ms i s).1 ≡ is_ready s
  unfolding record_details
  ready-record_details i s = refl

  ready-join :
      (i : Instance) (s : Env W VultrMachine)
      → is_ready (join_load_balancer p sc ms i s).1 ≡ is_ready s
  unfolding join_load_balancer set_ready_condition
  ready-join i s = ground arith

  join_ok :
      (i : Instance) (s : Env W VultrMachine)
      → (join_load_balancer p sc ms i s).0 ≡ ok true
      → p.lib.is_control_plane_machine ms.machine ≡ true
      → (ensure_load_balancer_member p
          (api_server_loadbalancers_ref sc.vultr_cluster).resource_id
          i.id
          s.world).0
        ≡ ok true
  unfolding join_load_balancer
  join_ok i s e c = ground arith

  report_ready :
      (i : Instance) (s : Env W VultrMachine)
      → is_ready (report_status p sc ms i s).1 ≡ true
      → (is_ready s ≡ true)
        ⊎ ((i.status ≡ "active")
            × ((report_status p sc ms i s).0 ≡ ok done)
            × ((report_status p sc ms i s).1.object.status.initialization.provisioned ≡ true))
  unfolding report_status set_ready_condition set_terminal_failure
  report_ready i s h = ground (arith, eq_iff i.status "pending", eq_iff i.status "active")

  -- What holds of an instance with which the machine became ready, and of the reconcile's outcome.
  pub record BecameReady (i : Instance) (s' : Env W VultrMachine) (r : Outcome ReconcileResult)
      : Type 0 where
    pub active : i.status ≡ "active"
    pub finished : r ≡ ok done
    pub provisioned : s'.object.status.initialization.provisioned ≡ true
    pub before_join : W
    pub joined :
        p.lib.is_control_plane_machine ms.machine ≡ true
        → (ensure_load_balancer_member p
            (api_server_loadbalancers_ref sc.vultr_cluster).resource_id
            i.id
            before_join).0
          ≡ ok true

  abbrev pub after_join :
      Instance → Bool → Env W VultrMachine → Outcome ReconcileResult × Env W VultrMachine
  after_join i joined =
      if joined then report_status p sc ms i else pure (requeue_in load_balancer_requeue)

  joined_lem :
      (i : Instance) (s t : Env W VultrMachine) (joined : Bool)
      → is_ready t ≡ is_ready s
      → (join_load_balancer p sc ms i t).0 ≡ ok joined
      → let run = after_join i joined (join_load_balancer p sc ms i t).1 in
        is_ready run.1 ≡ true → (is_ready s ≡ true) ⊎ BecameReady i run.1 run.0
  unfolding pure
  joined_lem i s t false same e h = inl (sym same ∙ sym (ready-join i t) ∙ h)
  joined_lem i s t true same e h = elim (report_ready i (join_load_balancer p sc ms i t).1 h) [
    | inl was ↦ inl (sym same ∙ sym (ready-join i t) ∙ was)
    | inr (active, finished, provisioned) ↦ inr (record {
      active = active;
      finished = finished;
      provisioned = provisioned;
      before_join = t.world;
      joined = join_ok i t e;
    })
  ]

  -- The postcondition of a reconcile that starts in `s`.
  abbrev Post :
      Instance → Env W VultrMachine → Outcome ReconcileResult × Env W VultrMachine → Type 0
  Post i s x = is_ready x.1 ≡ true → (is_ready s ≡ true) ⊎ BecameReady i x.1 x.0

  after_persist :
      (i : Instance) (s t : Env W VultrMachine)
      → is_ready t ≡ is_ready s
      → Post i s ((join_load_balancer p sc ms i >>= after_join i) t)
  after_persist i s t same =
      bind-rule (join_load_balancer p sc ms i) (after_join i) t (Post i s)
        (λ joined e h. joined_lem i s t joined same e h)
        (λ x stopped _ h. inl (sym same ∙ sym (ready-join i t) ∙ sym (ap is_ready stopped) ∙ h))

  -- A reconcile that finds the instance `i` makes a machine ready that was not only if the instance
  -- is active and, for a control plane, the load balancer has it as a member; it then ends without
  -- a requeue and the machine is provisioned too.
  pub reconcile_instance-BecameReady :
      (i : Instance) (s : Env W VultrMachine)
      → is_ready (reconcile_instance p sc ms i s).1 ≡ true
      → (is_ready s ≡ true)
        ⊎ BecameReady i (reconcile_instance p sc ms i s).1 (reconcile_instance p sc ms i s).0
  unfolding reconcile_instance
  reconcile_instance-BecameReady i s =
      bind-rule (persist_id p sc ms i)
        (λ _. record_details p sc ms i >>= λ _. join_load_balancer p sc ms i >>= after_join i) s
        (Post i s) (λ _ _. after_details (persist_id p sc ms i s).1 (ready-persist_id i s))
        (λ x stopped _ h. inl (sym (ready-persist_id i s) ∙ sym (ap is_ready stopped) ∙ h))
    where
      after_details :
          (t : Env W VultrMachine)
          → is_ready t ≡ is_ready s
          → Post i s
              ((record_details p sc ms i >>= λ _. join_load_balancer p sc ms i >>= after_join i) t)
      after_details t same =
          bind-rule (record_details p sc ms i) (λ _. join_load_balancer p sc ms i >>= after_join i)
            t (Post i s)
            (λ _ _.
              after_persist i s (record_details p sc ms i t).1 (ready-record_details i t ∙ same))
            (λ x stopped _ h.
              inl (sym same ∙ sym (ready-record_details i t) ∙ sym (ap is_ready stopped) ∙ h))
