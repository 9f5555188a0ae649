-- ===== src/Controller/Mapping/Requests.antt =====
-- Which requests an event on a VultrCluster gives.
use mathlib.Core.List.{Memᴰ}
use mathlib.Core.List.Memᴰ.{not-nil, of_map, cast}
use mathlib.Core.List.Memᴰ
use cluster_api_provider_vul.Base.Members.{mem-select, mem_of_mem-select}
use cluster_api_provider_vul.Base.{
  ◌≡◌, ◌↔◌, refl, sym, Bool, true, string_eq, List, select, Option, none, some, ◌==◌, not, ◌&&◌,
}
use cluster_api_provider_vul.Api.Cluster.{VultrCluster}
use cluster_api_provider_vul.Kube.{
  CapiCluster, CapiMachine, Platform, Fetched, found, missing, failed,
}
use cluster_api_provider_vul.Controller.Mapping.{
  Request, request_for, has_infrastructure, has_bare_metal_infrastructure, listed_requests,
  owned_requests, cluster_to_requests, vultr_cluster_to_vultr_machines,
  vultr_cluster_to_vultr_bare_metal_machines,
}

-- A request for one of the machines that pass the test.
abbrev Wanted : (CapiMachine → Bool) → List CapiMachine → Request → Type 0
Wanted wanted machines q =
    (m : CapiMachine) × Memᴰ m machines × (wanted m ≡ true) × (q ≡ request_for m)

module _ {W : Type 0} (p : Platform W) (c : VultrCluster) (w : W) where
  -- The owner of the VultrCluster was found and its machines were listed, and one of them gives
  -- the request.
  abbrev pub Requested : (CapiMachine → Bool) → Request → Type 0
  Requested wanted q =
      (cluster : CapiCluster) × (machines : List CapiMachine) × ((p.kube.get_owner_cluster c w).0
        ≡ found (some cluster))
      × ((p.kube.list_machines c.namespace cluster.name (p.kube.get_owner_cluster c w).1).0
          ≡ found machines)
      × Wanted wanted machines q

  module _ (wanted : CapiMachine → Bool) (q : Request) where
    listed-lem :
        (x : Fetched (List CapiMachine) × W)
        → Memᴰ q (listed_requests p wanted x).0
        → (machines : List CapiMachine) × (x.0 ≡ found machines) × Wanted wanted machines q
    unfolding listed_requests
    listed-lem (found machines, w') h =
        let (m, selected, same) = of_map request_for (select wanted machines) h in
        let (here, passes) = mem_of_mem-select wanted m machines selected in
        (machines, refl, (m, here, passes, sym same))
    listed-lem (missing e, w') h = absurd (not-nil h)
    listed-lem (failed e, w') h = absurd (not-nil h)

    owned-lem :
        (x : Fetched (Option CapiCluster) × W)
        → Memᴰ q (owned_requests p wanted c x).0
        → (cluster : CapiCluster) × (machines : List CapiMachine) × (x.0 ≡ found (some cluster))
          × ((p.kube.list_machines c.namespace cluster.name x.1).0 ≡ found machines)
          × Wanted wanted machines q
    unfolding owned_requests
    owned-lem (found (some cluster), w') h =
        let (machines, listed, wanted_one) =
          listed-lem (p.kube.list_machines c.namespace cluster.name w') h in
        (cluster, machines, refl, listed, wanted_one)
    owned-lem (found none, w') h = absurd (not-nil h)
    owned-lem (missing e, w') h = absurd (not-nil h)
    owned-lem (failed e, w') h = absurd (not-nil h)

    requests_iff : Memᴰ q (cluster_to_requests p wanted (some c) w).0 ↔ Requested wanted q
    unfolding cluster_to_requests owned_requests listed_requests
    requests_iff = (
      owned-lem (p.kube.get_owner_cluster c w),
      λ (cluster, machines, owner, listed, (m, here, passes, same)).
          rw (owner, listed)
            (cast same (Memᴰ.map request_for (mem-select wanted m machines here passes))),
    )

  -- An event on a VultrCluster asks for the reconcile of a VultrBareMetalMachine exactly if the
  -- owner of the VultrCluster and the owner's machines are found and one of these, in that
  -- namespace, refers to a VultrBareMetalMachine of that name, and for that of a VultrMachine
  -- exactly if one refers to an object of that name and of any kind.
  pub mapped_requests_iff :
      (q : Request)
      → (Memᴰ q (vultr_cluster_to_vultr_bare_metal_machines p (some c) w).0
          ↔ Requested
              (λ m.
                not (m.infrastructure_ref_name == "")
                && m.infrastructure_ref_kind == "VultrBareMetalMachine")
              q)
        × (Memᴰ q (vultr_cluster_to_vultr_machines p (some c) w).0
            ↔ Requested (λ m. not (m.infrastructure_ref_name == "")) q)
  unfolding vultr_cluster_to_vultr_machines has_infrastructure
      vultr_cluster_to_vultr_bare_metal_machines has_bare_metal_infrastructure
  mapped_requests_iff q = (requests_iff _ q, requests_iff _ q)
