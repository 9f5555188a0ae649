-- ===== src/Controller/Machine/Terminal.antt =====
-- An instance status that is neither pending nor active ends the reconciles of a VultrMachine.
use cluster_api_provider_vul.Base.{
  ◌≡◌, ◌≢◌, refl, string_eq, true, false, eq_false_of_ne, Outcome, ok, sprintf, str, [], ◌∷◌,
}
use cluster_api_provider_vul.Api.Conditions.{
  ready_condition, condition_false, unexpected_status_reason, Message, formatted,
}
use cluster_api_provider_vul.Api.Machine.{VultrMachine}
use cluster_api_provider_vul.Govultr.{Instance}
use cluster_api_provider_vul.Kube.{Library, IsLawful, Platform, Env, ReconcileResult, done}
use cluster_api_provider_vul.Scope.Cluster.{ClusterScope}
use cluster_api_provider_vul.Scope.Machine.{
  MachineScope, set_addresses, set_terminal_failure, has_terminal_failure,
}
use cluster_api_provider_vul.Services.Instance.{get_instance_address}
use cluster_api_provider_vul.Controller.Machine.Progress.{Joins, joined-ends}
use cluster_api_provider_vul.Controller.Machine.{
  persist_id, reconcile_instance, report_status, reconcile_normal,
}

-- What `SetTerminalFailure` records with this reason, `HasTerminalFailure` sees.
terminal_after :
    (lib : Library)
    → IsLawful lib
    → (m : VultrMachine) (message : Message)
    → has_terminal_failure lib (set_terminal_failure lib unexpected_status_reason message m) ≡ true
unfolding has_terminal_failure set_terminal_failure
terminal_after lib lawful m message =
    rw
      (lawful.get-set
        (record {
          type = ready_condition;
          status = condition_false;
          reason = unexpected_status_reason;
          message = message;
        })
        m.status.conditions ready_condition)
      refl

module _ {W : Type 0} (p : Platform W) (sc : ClusterScope) (ms : MachineScope) where
  stays_terminal :
      (s : Env W VultrMachine)
      → has_terminal_failure p.lib s.object ≡ true
      → reconcile_normal p sc ms s ≡ (ok done, s)
  unfolding reconcile_normal
  stays_terminal s h = rw h

  -- An outcome after which a machine that is neither ready nor provisioned stays as it is.
  abbrev pub IsEnded : Outcome ReconcileResult × Env W VultrMachine → Type 0
  IsEnded (r, s) =
      (r ≡ ok done)
      × (s.object.status.ready ≡ false)
      × (s.object.status.initialization.provisioned ≡ false)
      × (reconcile_normal p sc ms s ≡ (ok done, s))

  -- The object that `report_status` ends with, where the status is not one that it knows.
  unexpected_lem :
      (i : Instance) (s : Env W VultrMachine)
      → i.status ≢ "pending"
      → i.status ≢ "active"
      → report_status p sc ms i s ≡ (
        ok done,
        record (report_status p sc ms i s).1 {
          object =
              set_terminal_failure p.lib unexpected_status_reason
                (formatted (sprintf "Instance status %q is unexpected" (str i.status ∷ [])))
                (set_addresses (get_instance_address i) s.object);
        },
      )
  unfolding report_status
  unexpected_lem i s np na =
      rw (eq_false_of_ne i.status "pending" np, eq_false_of_ne i.status "active" na)

  report-IsEnded :
      (i : Instance) (s : Env W VultrMachine)
      → IsLawful p.lib
      → i.status ≢ "pending"
      → i.status ≢ "active"
      → IsEnded (report_status p sc ms i s)
  report-IsEnded i s lawful np na = rw (unexpected_lem i s np na) (
    refl,
    unfold set_terminal_failure in refl,
    unfold set_terminal_failure in refl,
    stays_terminal _ (terminal_after p.lib lawful _ _),
  )

  -- Where the conditions behave as documented, and the id of an instance could be stored and, for a
  -- control plane, the load balancer took the instance: if Vultr reports a status that is neither
  -- pending nor active, the reconcile ends without an error and without a requeue, the machine is
  -- neither ready nor provisioned, whatever it was before, and the next reconcile returns at once
  -- with the object, the world and the events as they are.
  pub unexpected_status_final :
      (i : Instance) (s : Env W VultrMachine)
      → IsLawful p.lib
      → i.status ≢ "pending"
      → i.status ≢ "active"
      → (persist_id p sc ms i s).0 ≡ ok tt
      → Joins p sc ms i (persist_id p sc ms i s).1.world
      → IsEnded (reconcile_instance p sc ms i s)
  unexpected_status_final i s lawful np na stored joins =
      rw (joined-ends p sc ms i s stored joins) (report-IsEnded i _ lawful np na)
