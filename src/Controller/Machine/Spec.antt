-- ===== src/Controller/Machine/Spec.antt =====
-- What a reconcile does to the specification of a VultrMachine.
use cluster_api_provider_vul.Base.{
  ◌≡◌, ◌≢◌, refl, sym, ap, ◌∙◌, String, string_eq, eq_iff, Bool, true, false, arith, Option, none,
  some, ok, if◌then◌else◌,
}
use cluster_api_provider_vul.Base.Exec.{Exec, ◌>>=◌, pure, on_error}
use cluster_api_provider_vul.Base.Respects.{
  Preorder, Respects, pure-Respects, if-Respects, bind-Respects, bind-at,
}
use cluster_api_provider_vul.Api.Machine.{VultrMachine, VultrMachineSpec, machine_finalizer}
use cluster_api_provider_vul.Govultr.{Instance}
use cluster_api_provider_vul.Kube.{
  Platform, Env, ReconcileResult, done, requeue_in, infrastructure_ready_condition,
}
use cluster_api_provider_vul.Kube.Actions.{get_object, modify, emit, in_world}
use cluster_api_provider_vul.Scope.Cluster.{ClusterScope}
use cluster_api_provider_vul.Scope.ProviderId.{provider_id_to_resource_id}
use cluster_api_provider_vul.Scope.Machine.{
  MachineScope, set_ready_condition, set_terminal_failure, get_instance_id, get_provider_id,
  has_terminal_failure, add_finalizer,
}
use cluster_api_provider_vul.Services.Instance.{get_instance}
use cluster_api_provider_vul.Controller.Machine.{
  set_ready_message, report_missing, create_new, find_or_create_instance, persist_id,
  record_details, join_load_balancer, report_status, reconcile_instance, reconcile_bootstrapped,
  reconcile_bootstrap, reconcile_infrastructure, reconcile_normal, not_found_requeue,
  load_balancer_requeue,
}
use cluster_api_provider_vul.Controller.Machine.Readiness.{after_join}

module _ {W : Type 0} where
  -- The specification stays as it is.
  unfoldable spec_order : Preorder (Env W VultrMachine)
  spec_order = record {
    rel = λ s t. t.object.spec ≡ s.object.spec;
    reflexive = λ s. refl;
    transitive = λ s t u first second. second ∙ first;
  }

-- `GetInstance` returns the instance that it was asked for.
abbrev pub Answers : {W : Type 0} → Platform W → Type 0
Answers {W} p =
    (id : String) (w : W) (i : Instance) → (p.api.get_instance id w).0.value ≡ some i → i.id ≡ id

module _ {W : Type 0} (p : Platform W) (sc : ClusterScope) (ms : MachineScope) where
  spec-record_details : (i : Instance) → Respects spec_order (record_details p sc ms i)
  unfolding spec_order record_details
  spec-record_details i = record { run = λ s. refl }

  spec-join : (i : Instance) → Respects spec_order (join_load_balancer p sc ms i)
  unfolding spec_order join_load_balancer set_ready_condition
  spec-join i = record { run = λ s. ground arith }

  spec-report_status : (i : Instance) → Respects spec_order (report_status p sc ms i)
  unfolding spec_order report_status set_ready_condition set_terminal_failure
  spec-report_status i = record { run = λ s. ground arith }

  spec-find_or_create : Respects spec_order (find_or_create_instance p sc ms)
  unfolding spec_order find_or_create_instance report_missing create_new set_ready_condition ◌>>=◌
      on_error get_object modify emit in_world
  spec-find_or_create = record { run = λ s. ground arith }

  same-persist_id :
      (i : Instance) (s : Env W VultrMachine)
      → get_instance_id s.object ≡ i.id
      → persist_id p sc ms i s ≡ (ok tt, s)
  unfolding persist_id get_instance_id get_provider_id
  same-persist_id i s same = ground (arith, eq_iff (get_instance_id s.object) i.id)

  found_value :
      (i : Instance) (s : Env W VultrMachine)
      → get_instance_id s.object ≢ ""
      → (find_or_create_instance p sc ms s).0 ≡ ok (some i)
      → (p.api.get_instance (get_instance_id s.object) s.world).0.value ≡ some i
  unfolding find_or_create_instance get_instance report_missing ◌>>=◌ get_object modify emit
      in_world
  found_value i s known found = ground (arith, eq_iff (get_instance_id s.object) "")

  same_id : (m n : VultrMachine) → n.spec ≡ m.spec → get_instance_id n ≡ get_instance_id m
  unfolding get_instance_id get_provider_id
  same_id m n e =
      ap
        (λ (spec : VultrMachineSpec).
          provider_id_to_resource_id (elim spec.provider_id [ none ↦ "" | some id ↦ id ]))
        e

  found_id :
      Answers p
      → (i : Instance) (s : Env W VultrMachine) → get_instance_id s.object ≢ ""
      → (find_or_create_instance p sc ms s).0 ≡ ok (some i)
      → i.id ≡ get_instance_id s.object
  found_id answers i s known found =
      answers (get_instance_id s.object) s.world i (found_value i s known found)

  -- A reconcile with the instance that the object names leaves the specification alone.
  reconcile_same-spec :
      (i : Instance) (s : Env W VultrMachine)
      → get_instance_id s.object ≡ i.id
      → (reconcile_instance p sc ms i s).1.object.spec ≡ s.object.spec
  unfolding reconcile_instance spec_order
  reconcile_same-spec i s same =
      bind-at spec_order (persist_id p sc ms i) rest s (rw (same-persist_id i s same) refl)
        (λ _ _. rest-Respects.run (persist_id p sc ms i s).1)
    where
      rest : Unit {0} → Exec (Env W VultrMachine) ReconcileResult
      rest _ =
          record_details p sc ms i >>= λ _. join_load_balancer p sc ms i >>= after_join p sc ms i

      rest-Respects : Respects spec_order (rest tt)
      rest-Respects = bind-Respects _ _ (spec-record_details i) (λ _.
          bind-Respects _ _ (spec-join i) (λ joined.
            if-Respects joined _ _ (spec-report_status i)
              (pure-Respects (requeue_in load_balancer_requeue))))

  bootstrapped-spec :
      Answers p
      → (s : Env W VultrMachine) → get_instance_id s.object ≢ ""
      → (reconcile_bootstrapped p sc ms s).1.object.spec ≡ s.object.spec
  unfolding reconcile_bootstrapped spec_order pure
  bootstrapped-spec answers s known =
      bind-at spec_order (find_or_create_instance p sc ms) rest s (spec-find_or_create.run s) after
    where
      rest : Option Instance → Exec (Env W VultrMachine) ReconcileResult
      rest found = elim found [
        | none ↦ pure (requeue_in not_found_requeue)
        | some i ↦ reconcile_instance p sc ms i
      ]

      after :
          (found : Option Instance)
          → (find_or_create_instance p sc ms s).0 ≡ ok found
          → (rest found (find_or_create_instance p sc ms s).1).1.object.spec
            ≡ (find_or_create_instance p sc ms s).1.object.spec
      after none ran = refl
      after (some i) ran = reconcile_same-spec i (find_or_create_instance p sc ms s).1 (
          same_id s.object (find_or_create_instance p sc ms s).1.object (spec-find_or_create.run s)
          ∙ sym (found_id answers i s known ran))

  bootstrap-spec :
      Answers p
      → (name : Option String) (s : Env W VultrMachine) → get_instance_id s.object ≢ ""
      → (reconcile_bootstrap p sc ms name s).1.object.spec ≡ s.object.spec
  unfolding reconcile_bootstrap set_ready_message set_ready_condition ◌>>=◌ modify
  bootstrap-spec answers none s known = refl
  bootstrap-spec answers (some name) s known = bootstrapped-spec answers s known

  infrastructure-spec :
      Answers p
      → (ready : Bool) (s : Env W VultrMachine) → get_instance_id s.object ≢ ""
      → (reconcile_infrastructure p sc ms ready s).1.object.spec ≡ s.object.spec
  unfolding reconcile_infrastructure set_ready_message set_ready_condition ◌>>=◌ modify
  infrastructure-spec answers false s known = refl
  infrastructure-spec answers true s known =
      bootstrap-spec answers ms.machine.data_secret_name s known

  -- If `GetInstance` returns the instance that it was asked for, a reconcile of a VultrMachine
  -- whose provider id names an instance leaves the whole specification as it was, whatever its
  -- outcome: the machine never comes to name another instance.
  pub reconcile_normal-spec :
      Answers p
      → (s : Env W VultrMachine) → get_instance_id s.object ≢ ""
      → (reconcile_normal p sc ms s).1.object.spec ≡ s.object.spec
  unfolding reconcile_normal get_instance_id get_provider_id
  reconcile_normal-spec answers s known = at (has_terminal_failure p.lib s.object)
    where
      infrastructure : Exec (Env W VultrMachine) ReconcileResult
      infrastructure =
          reconcile_infrastructure p sc ms
            (p.lib.is_true ms.cluster.conditions infrastructure_ready_condition)

      at :
          (failed : Bool)
          → ((if failed
                then pure done
                else modify (add_finalizer p.lib machine_finalizer) >>= λ _. infrastructure)
              s).1.object.spec
            ≡ s.object.spec
      at true = refl
      at false =
          infrastructure-spec answers
            (p.lib.is_true ms.cluster.conditions infrastructure_ready_condition)
            (record s { object = add_finalizer p.lib machine_finalizer s.object }) known
