-- ===== src/Services/BareMetal/Launch.antt =====
-- When a server is started: only for a machine that owns none.
use cluster_api_provider_vul.Base.{
  ◌≡◌, refl, sym, ◌∙◌, ℕ, String, string_eq, false, arith, List, [], ◌∷◌, ◌++◌, select, length,
  none, Bool-cases, wrapf, plain, Outcome, ok, err, panic, out_of_fuel, ◌⊎◌, inl, inr,
}
use mathlib.Core.List.{Memᴰ}
use cluster_api_provider_vul.Base.Exec.{Exec, ◌>>=◌, pure, raise, on_error}
use cluster_api_provider_vul.Base.Respects.{Preorder, Respects, bind-at}
use cluster_api_provider_vul.Services.Base64.{base64_encode}
use cluster_api_provider_vul.Services.CloudConfig.{Bytes, bytes}
use cluster_api_provider_vul.Services.CloudConfig.Prepend.{Yaml, prepend_cloud_config_run_cmds}
use cluster_api_provider_vul.Api.Tags.{BuildTagParams, build_tags, tags_owned_by_machine}
use cluster_api_provider_vul.Api.BareMetal.{VultrBareMetalMachine}
use cluster_api_provider_vul.Govultr.{BareMetalServer, BareMetalCreate, ListOptions}
use cluster_api_provider_vul.Kube.{Platform, CapiMachine}
use cluster_api_provider_vul.Scope.Bootstrap.{machine_role, get_bootstrap_data}
use cluster_api_provider_vul.Scope.Cluster.{ClusterScope, machine_tag_params}
use cluster_api_provider_vul.Services.Instance.{lift}
use cluster_api_provider_vul.Services.BareMetal.{
  send_create, build_bare_metal_create_request, ssh_key_ids, create_bare_metal_server,
  matching_servers, find_bare_metal_server_by_tags,
}
use cluster_api_provider_vul.Services.BareMetal.Listing.{
  unique_exact, server_owned, first_page, matching-select_pages, failure,
}
use cluster_api_provider_vul.Services.Paging.{Pages, pages_of_select}
use cluster_api_provider_vul.Services.Account.{
  run_of_shrinks, none-kept, owned_count, Shrinks, shrink_order, Run, here, next, lose, launch,
  run_order,
}
use cluster_api_provider_vul.Services.Keeps.{retrieve-keeps}
use cluster_api_provider_vul.Base.Members.{selected-nil, not-selected}
use cluster_api_provider_vul.Services.BareMetal.Cloud.{IsServerCloud, server_owner, Harmless}
use cluster_api_provider_vul.Services.BareMetal.Keeps.{ssh_key_ids-keeps, find_server-keeps}

module _ {W : Type 0} (p : Platform W) where
  -- What the loop returns is what it selects from the pages that it saw.
  matching-listed :
      (params : BuildTagParams) (fuel : ℕ) (o : ListOptions) (matches : List BareMetalServer)
      (w : W) (found : List BareMetalServer)
      → (matching_servers p params fuel o matches w).0 ≡ ok found
      → (l : List BareMetalServer) × Pages p.api.list_servers w o l
          (matching_servers p params fuel o matches w).1
        × (found ≡ matches ++ select (server_owned params) l)
  matching-listed params fuel o matches w found =
      rw (matching-select_pages p params fuel o matches w) (
        pages_of_select p.api.list_servers (failure p) (server_owned params) fuel o matches w found)

  -- `FindBareMetalServerByTags` returns nil only after a whole listing with no server that the
  -- machine owns.
  find_none-listed :
      (sc : ClusterScope) (name role : String) (w : W)
      → (find_bare_metal_server_by_tags p sc name role w).0 ≡ ok none
      → (l : List BareMetalServer) × (w' : W) × Pages p.api.list_servers w (first_page name) l w'
        × (select (server_owned (machine_tag_params sc name role)) l ≡ [])
  unfolding find_bare_metal_server_by_tags
  find_none-listed sc name role w e = at (found w).0 refl
    where
      params : BuildTagParams
      params = machine_tag_params sc name role

      found : Exec W (List BareMetalServer)
      found = matching_servers p params p.fuel (first_page name) []

      at :
          (o : Outcome (List BareMetalServer))
          → (found w).0 ≡ o
          → (l : List BareMetalServer) × (w' : W) × Pages p.api.list_servers w
              (first_page name)
              l
              w'
            × (select (server_owned params) l ≡ [])
      at (ok matches) ran =
          let (l, pages, same) = matching-listed params p.fuel (first_page name) [] w matches ran in
          (
            l,
            (found w).1,
            pages,
            sym same ∙ ((unique_exact name matches).0).0 (ground (arith, ran, e)),
          )
      at (err x) ran = absurd (ground (arith, ran, e))
      at panic ran = absurd (ground (arith, ran, e))
      at out_of_fuel ran = absurd (ground (arith, ran, e))

  send_create-world :
      (req : BareMetalCreate) (w : W) → (send_create p req w).1 ≡ (p.api.create_server req w).1
  unfolding send_create ◌>>=◌
  send_create-world req w = ground arith

  module _ (servers : W → List BareMetalServer) (cloud : IsServerCloud p servers) where
    unowned :
        (params : BuildTagParams) (l : List BareMetalServer) (w w' : W)
        → Pages p.api.list_servers w (first_page params.name) l w'
        → select (server_owned params) l ≡ []
        → (i : BareMetalServer) → Memᴰ i (servers w)
        → server_owned params i ≡ false
    unfolding tags_owned_by_machine
    unowned params l w w' pages none_owned i m = elim (Bool-cases (server_owned params i)) [
      | inr e ↦ e
      | inl owned ↦
          not-selected (server_owned params) l none_owned i
            (cloud.listed params.name w l w' pages i m (ground (arith, owned)))
    ]

    -- After `FindBareMetalServerByTags` returned nil, the machine owns no server of the account.
    pub find_none-owned :
        (sc : ClusterScope) (name role : String) (w : W)
        → (find_bare_metal_server_by_tags p sc name role w).0 ≡ ok none
        → owned_count server_owned
            (machine_tag_params sc name role)
            (servers (find_bare_metal_server_by_tags p sc name role w).1)
          ≡ 0
    unfolding owned_count shrink_order machine_tag_params
    find_none-owned sc name role w e =
        let params : BuildTagParams = machine_tag_params sc name role in
        let (l, w', pages, none_owned) = find_none-listed sc name role w e in
        let before : length (select (server_owned params) (servers w)) ≡ 0 =
          selected-nil _ (servers w) (λ i m. unowned params l w w' pages none_owned i m) in
        let after = ((find_server-keeps p servers cloud sc name role).run w).no_more params in
        omega arith

    send_create-launch :
        (params : BuildTagParams) (additional : List String) (req : BareMetalCreate) (w : W)
        → owned_count server_owned params (servers w) ≡ 0
        → req.tags ≡ build_tags params ++ additional
        → Harmless params additional
        → Run server_owner (servers w) (servers (send_create p req w).1)
    send_create-launch params additional req w none_owned tags harmless =
        rw (send_create-world req w) (launched (cloud.create req w))
      where
        launched :
            Shrinks server_owned (servers w) (servers (p.api.create_server req w).1)
              ⊎ ((s : BareMetalServer) × (s.tags ≡ req.tags)
                  × (servers (p.api.create_server req w).1 ≡ s ∷ servers w))
            → Run server_owner (servers w) (servers (p.api.create_server req w).1)
        launched (inl s) = next here (lose s)
        launched (inr (s, t, grown)) =
            next here (launch params s tt none_owned (additional, t ∙ tags, harmless) grown)

    -- `CreateBareMetalServer` for a machine that owns no server, and whose additional tags are
    -- harmless, starts at most one, which is the machine's.
    pub create_server-launch :
        {V : Type 0} (yaml : Yaml V) (sc : ClusterScope) (machine : CapiMachine)
        (m : VultrBareMetalMachine) (w : W)
        → let params = machine_tag_params sc m.name (machine_role p machine) in
          owned_count server_owned params (servers w) ≡ 0
          → Harmless params m.spec.additional_tags
          → Run server_owner
              (servers w)
              (servers (create_bare_metal_server p yaml sc machine m w).1)
    unfolding create_bare_metal_server run_order lift build_bare_metal_create_request shrink_order
    create_server-launch yaml sc machine m w none_owned harmless =
        bind-at order bootstrap _ w (run_of_shrinks (bootstrap-keeps.run w)) (λ data' _.
          bind-at order (lift (prepend_cloud_config_run_cmds yaml data' firewall_off)) _
            (bootstrap w).1 here
            (λ updated _.
              let w' = (bootstrap w).1 in
              let keys = ssh_key_ids-keeps p servers cloud m.spec.ssh_key in
              bind-at order (ssh_key_ids p m.spec.ssh_key) _ w' (run_of_shrinks (keys.run w'))
                (λ ids _.
                  send_create-launch params m.spec.additional_tags
                    (build_bare_metal_create_request m.spec m.name ids (base64_encode updated)
                      (build_tags params))
                    (ssh_key_ids p m.spec.ssh_key w').1
                    (none-kept params (keys.run w')
                      (none-kept params (bootstrap-keeps.run w) none_owned))
                    refl harmless)))
      where
        order : Preorder W
        order = run_order server_owner servers

        params : BuildTagParams
        params = machine_tag_params sc m.name (machine_role p machine)

        firewall_off : List Bytes
        firewall_off = bytes "ufw disable" ∷ []

        bootstrap : Exec W (List ℕ)
        bootstrap =
            on_error (get_bootstrap_data p machine m.namespace)
              (λ e. raise (wrapf (plain "failed to retrieve bootstrap data") e)) pure

        bootstrap-keeps : Respects (shrink_order server_owned servers) bootstrap
        bootstrap-keeps = retrieve-keeps cloud.keeping machine m.namespace
