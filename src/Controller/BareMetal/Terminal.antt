-- ===== src/Controller/BareMetal/Terminal.antt =====
-- A status that is neither pending nor active ends the reconciles of a VultrBareMetalMachine.
use cluster_api_provider_vul.Base.{
  ◌≡◌, ◌≢◌, refl, string_eq, true, false, eq_false_of_ne, ok, sprintf, str, [], ◌∷◌,
}
use cluster_api_provider_vul.Api.Conditions.{
  ready_condition, condition_false, unexpected_status_reason, Message, formatted,
}
use cluster_api_provider_vul.Api.BareMetal.{VultrBareMetalMachine}
use cluster_api_provider_vul.Govultr.{BareMetalServer}
use cluster_api_provider_vul.Kube.{Library, IsLawful, Platform, Env, done}
use cluster_api_provider_vul.Scope.Cluster.{ClusterScope}
use cluster_api_provider_vul.Scope.BareMetal.{
  BareMetalMachineScope, set_terminal_failure, has_terminal_failure,
}
use cluster_api_provider_vul.Services.CloudConfig.Prepend.{Yaml}
use cluster_api_provider_vul.Controller.BareMetal.{
  record_details, reconcile_server, reconcile_normal,
}

-- What `SetTerminalFailure` records with this reason, `HasTerminalFailure` sees.
terminal_after :
    (lib : Library)
    → IsLawful lib
    → (m : VultrBareMetalMachine) (message : Message)
    → has_terminal_failure lib (set_terminal_failure lib unexpected_status_reason message m) ≡ true
unfolding has_terminal_failure set_terminal_failure
terminal_after lib lawful m message =
    rw
      (lawful.get-set
        (record {
          type = ready_condition;
          status = condition_false;
          reason = unexpected_status_reason;
          message = message;
        })
        m.status.conditions ready_condition)
      refl

module _ {W V : Type 0} (p : Platform W) (yaml : Yaml V) (sc : ClusterScope)
    (ms : BareMetalMachineScope) where
  stays_terminal :
      (s : Env W VultrBareMetalMachine)
      → has_terminal_failure p.lib s.object ≡ true
      → reconcile_normal p yaml sc ms s ≡ (ok done, s)
  unfolding reconcile_normal
  stays_terminal s h = rw h

  unexpected_lem :
      (v : BareMetalServer) (s : Env W VultrBareMetalMachine)
      → v.status ≢ "pending"
      → v.status ≢ "active"
      → reconcile_server p yaml sc ms v s ≡ (
        ok done,
        record (reconcile_server p yaml sc ms v s).1 {
          world = s.world;
          object =
              set_terminal_failure p.lib unexpected_status_reason
                (formatted
                  (sprintf "bare metal server status %q is unexpected" (str v.status ∷ [])))
                (record_details p yaml sc ms v s).1.object;
        },
      )
  unfolding reconcile_server
  unexpected_lem v s np na =
      rw (eq_false_of_ne v.status "pending" np, eq_false_of_ne v.status "active" na)

  -- Where the conditions behave as documented and Vultr reports a status of the server that is
  -- neither pending nor active, the reconcile calls nothing and ends without a requeue, the machine
  -- is not ready, and the next reconcile returns at once with the object, the world and the events
  -- as they are.
  pub unexpected_server_status_final :
      (v : BareMetalServer) (s : Env W VultrBareMetalMachine)
      → IsLawful p.lib
      → v.status ≢ "pending"
      → v.status ≢ "active"
      → let (r, s') = reconcile_server p yaml sc ms v s in
        (r ≡ ok done)
        × (s'.world ≡ s.world)
        × (s'.object.status.ready ≡ false)
        × (reconcile_normal p yaml sc ms s' ≡ (ok done, s'))
  unexpected_server_status_final v s lawful np na = rw (unexpected_lem v s np na) (
    refl,
    refl,
    unfold set_terminal_failure in refl,
    stays_terminal _ (terminal_after p.lib lawful _ _),
  )
