-- ===== src/Controller/BareMetal/Readiness.antt =====
-- When a VultrBareMetalMachine becomes ready.
use mathlib.Core.Path.{subst}
use cluster_api_provider_vul.Base.{
  ◌≡◌, ◌≢◌, refl, sym, ap, ◌∙◌, Option, none, some, String, ◌==◌, string_eq, Bool, true, false,
  Bool-cases, inl, inr, ◌⊎◌, eq_iff, arith, if◌then◌else◌, Outcome, ok,
}
use cluster_api_provider_vul.Base.Exec.{pure, bind-rule}
use cluster_api_provider_vul.Api.BareMetal.{VultrBareMetalMachine}
use cluster_api_provider_vul.Govultr.{BareMetalServer, VpcInfo}
use cluster_api_provider_vul.Kube.{Platform, Env, ReconcileResult, done, requeue_in}
use cluster_api_provider_vul.Scope.Cluster.{ClusterScope, api_server_load_balancer_id}
use cluster_api_provider_vul.Scope.BareMetal.{
  BareMetalMachineScope, set_provider_id, set_ready_condition, set_terminal_failure,
}
use cluster_api_provider_vul.Services.CloudConfig.Prepend.{Yaml}
use cluster_api_provider_vul.Services.LoadBalancer.{ensure_load_balancer_member}
use cluster_api_provider_vul.Services.BareMetal.{
  ensure_bare_metal_vpc, get_bare_metal_server_addresses,
}
use cluster_api_provider_vul.Controller.BareMetal.{
  Attachment, returns, continues, attach_vpc, join_load_balancer, finish_active, after_attachment,
  reconcile_active, reconcile_server, record_details, bare_metal_load_balancer_requeue,
}

module _ {W V : Type 0} (p : Platform W) (yaml : Yaml V) (sc : ClusterScope)
    (ms : BareMetalMachineScope) where
  abbrev is_ready : Env W VultrBareMetalMachine → Bool
  is_ready s = s.object.status.ready

  -- What holds of a server with which the machine became ready, and of the reconcile's outcome:
  -- the VPC of the specification is attached, and a control plane's server is a member.
  pub record ServerBecameReady (vpc_id : String) (w : W) (s' : Env W VultrBareMetalMachine)
      (server : BareMetalServer) (r : Outcome ReconcileResult) : Type 0 where
    pub active : server.status ≡ "active"
    pub finished : r ≡ ok done
    pub provisioned : s'.object.status.initialization.provisioned ≡ some true
    pub vpc : Option VpcInfo
    pub attached :
        (vpc_id ≡ "") ⊎ (((ensure_bare_metal_vpc p server.id vpc_id w).0 ≡ ok vpc) × (vpc ≢ none))
    pub addresses : s'.object.status.addresses ≡ get_bare_metal_server_addresses server vpc
    pub before_join : W
    pub joined :
        p.lib.is_control_plane_machine ms.machine ≡ true
        → (ensure_load_balancer_member p
            (api_server_load_balancer_id sc.vultr_cluster)
            server.id
            before_join).0
          ≡ ok true

  ready-attach :
      (v : BareMetalServer) (s : Env W VultrBareMetalMachine)
      → is_ready (attach_vpc p yaml sc ms v s).1 ≡ true
      → is_ready s ≡ true
  unfolding attach_vpc set_ready_condition set_terminal_failure
  ready-attach v s = ground arith

  attach_ok :
      (v : BareMetalServer) (s : Env W VultrBareMetalMachine) (vpc : Option VpcInfo)
      → (attach_vpc p yaml sc ms v s).0 ≡ ok (continues vpc)
      → (s.object.spec.vpc_id ≡ "")
        ⊎ (((ensure_bare_metal_vpc p v.id s.object.spec.vpc_id s.world).0 ≡ ok vpc) × (vpc ≢ none))
  unfolding attach_vpc
  attach_ok v s vpc e = ground (arith, eq_iff s.object.spec.vpc_id "")

  ready-join :
      (v : BareMetalServer) (s : Env W VultrBareMetalMachine)
      → is_ready (join_load_balancer p yaml sc ms v s).1 ≡ is_ready s
  unfolding join_load_balancer set_ready_condition
  ready-join v s = ground arith

  join_ok :
      (v : BareMetalServer) (s : Env W VultrBareMetalMachine)
      → (join_load_balancer p yaml sc ms v s).0 ≡ ok true
      → p.lib.is_control_plane_machine ms.machine ≡ true
      → (ensure_load_balancer_member p
          (api_server_load_balancer_id sc.vultr_cluster)
          v.id
          s.world).0
        ≡ ok true
  unfolding join_load_balancer
  join_ok v s e c = ground arith

  -- The postcondition of a reconcile that starts in `s`.
  abbrev Post :
      Env W VultrBareMetalMachine
      → BareMetalServer
      → Outcome ReconcileResult × Env W VultrBareMetalMachine
      → Type 0
  Post s v x =
      is_ready x.1 ≡ true
      → (is_ready s ≡ true) ⊎ ServerBecameReady s.object.spec.vpc_id s.world x.1 v x.0

  abbrev Attached : Env W VultrBareMetalMachine → BareMetalServer → Option VpcInfo → Type 0
  Attached s v vpc =
      (s.object.spec.vpc_id ≡ "")
      ⊎ (((ensure_bare_metal_vpc p v.id s.object.spec.vpc_id s.world).0 ≡ ok vpc) × (vpc ≢ none))

  joined_lem :
      (v : BareMetalServer) (s t : Env W VultrBareMetalMachine) (vpc : Option VpcInfo)
      (joined : Bool)
      → v.status ≡ "active"
      → (is_ready t ≡ true → is_ready s ≡ true)
      → Attached s v vpc
      → (join_load_balancer p yaml sc ms v t).0 ≡ ok joined
      → Post s v (
          (if joined
              then finish_active p yaml sc ms v vpc
              else pure (requeue_in bare_metal_load_balancer_requeue))
            (join_load_balancer p yaml sc ms v t).1)
  unfolding pure finish_active set_ready_condition
  joined_lem v s t vpc false active kept attached e h = inl (kept (sym (ready-join v t) ∙ h))
  joined_lem v s t vpc true active kept attached e h = inr (record {
    active = active;
    finished = refl;
    provisioned = refl;
    vpc = vpc;
    attached = attached;
    addresses = refl;
    before_join = t.world;
    joined = join_ok v t e;
  })

  after_attachment_lem :
      (v : BareMetalServer) (s t : Env W VultrBareMetalMachine) (a : Attachment)
      → v.status ≡ "active"
      → (is_ready t ≡ true → is_ready s ≡ true)
      → ((vpc : Option VpcInfo) → a ≡ continues vpc → Attached s v vpc)
      → Post s v (after_attachment p yaml sc ms v a t)
  unfolding after_attachment pure
  after_attachment_lem v s t (returns result) active kept attached = λ h. inl (kept h)
  after_attachment_lem v s t (continues vpc) active kept attached =
      bind-rule (join_load_balancer p yaml sc ms v)
        (λ joined.
          if joined
          then finish_active p yaml sc ms v vpc
          else pure (requeue_in bare_metal_load_balancer_requeue))
        t (Post s v) (λ joined e. joined_lem v s t vpc joined active kept (attached vpc refl) e)
        (λ x stopped _ h. inl (kept (sym (ready-join v t) ∙ sym (ap is_ready stopped) ∙ h)))

  active_lem :
      (v : BareMetalServer) (s : Env W VultrBareMetalMachine)
      → v.status ≡ "active"
      → Post s v (reconcile_active p yaml sc ms v s)
  unfolding reconcile_active
  active_lem v s active =
      bind-rule (attach_vpc p yaml sc ms v) (after_attachment p yaml sc ms v) s (Post s v)
        (λ a e.
          after_attachment_lem v s (attach_vpc p yaml sc ms v s).1 a active (ready-attach v s)
            (λ vpc same. attach_ok v s vpc (e ∙ ap ok same)))
        (λ x stopped _ h. inl (ready-attach v s (sym (ap is_ready stopped) ∙ h)))

  -- The state after the details of the server are recorded, from where the switch goes on.
  abbrev recorded : BareMetalServer → Env W VultrBareMetalMachine → Env W VultrBareMetalMachine
  recorded v s = (record_details p yaml sc ms v s).1

  pending_lem :
      (v : BareMetalServer) (s : Env W VultrBareMetalMachine)
      → (v.status == "pending") ≡ true
      → is_ready (reconcile_server p yaml sc ms v s).1 ≡ is_ready s
  unfolding reconcile_server set_ready_condition set_provider_id
  pending_lem v s e = rw e refl

  unexpected_lem :
      (v : BareMetalServer) (s : Env W VultrBareMetalMachine)
      → (v.status == "pending") ≡ false
      → (v.status == "active") ≡ false
      → is_ready (reconcile_server p yaml sc ms v s).1 ≡ false
  unfolding reconcile_server set_terminal_failure
  unexpected_lem v s np na = rw (np, na) refl

  reconcile_active_lem :
      (v : BareMetalServer) (s : Env W VultrBareMetalMachine)
      → (v.status == "pending") ≡ false
      → (v.status == "active") ≡ true
      → reconcile_server p yaml sc ms v s ≡ reconcile_active p yaml sc ms v (recorded v s)
  unfolding reconcile_server
  reconcile_active_lem v s np a = rw (np, a) refl

  active-Post :
      (v : BareMetalServer) (s : Env W VultrBareMetalMachine)
      → v.status ≡ "active"
      → Post s v (reconcile_active p yaml sc ms v (recorded v s))
  unfolding record_details set_provider_id
  active-Post v s active = active_lem v (recorded v s) active

  -- A reconcile that finds the server `v` makes a machine ready that was not only if the server is
  -- active, the VPC of the specification is attached, and a control plane's server is a member of
  -- the load balancer; it then ends without a requeue, and the machine is provisioned and has the
  -- addresses of the server and of the attachment.
  pub reconcile_server-ServerBecameReady :
      (v : BareMetalServer) (s : Env W VultrBareMetalMachine)
      → is_ready (reconcile_server p yaml sc ms v s).1 ≡ true
      → (is_ready s ≡ true)
        ⊎ ServerBecameReady s.object.spec.vpc_id s.world
            (reconcile_server p yaml sc ms v s).1
            v
            (reconcile_server p yaml sc ms v s).0
  reconcile_server-ServerBecameReady v s h = elim (Bool-cases (v.status == "pending")) [
    | inl pending ↦ inl (sym (pending_lem v s pending) ∙ h)
    | inr np ↦ elim (Bool-cases (v.status == "active")) [
      | inl active ↦ active_case np active
      | inr na ↦ inl (not_ready np na)
    ]
  ]
    where
      not_ready :
          (v.status == "pending") ≡ false → (v.status == "active") ≡ false → is_ready s ≡ true
      not_ready np na = let e = unexpected_lem v s np na in cc

      active_case :
          (v.status == "pending") ≡ false
          → (v.status == "active") ≡ true
          → (is_ready s ≡ true)
            ⊎ ServerBecameReady s.object.spec.vpc_id s.world
                (reconcile_server p yaml sc ms v s).1
                v
                (reconcile_server p yaml sc ms v s).0
      active_case np active =
          subst (Post s v) (sym (reconcile_active_lem v s np active))
            (active-Post v s ((eq_iff v.status "active").0 active)) h
