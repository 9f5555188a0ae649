-- ===== src/Services/Instance/Launch.antt =====
-- When an instance is started: only for a machine that owns none.
use cluster_api_provider_vul.Base.{
  ◌≡◌, refl, sym, ◌∙◌, ℕ, String, string_eq, false, arith, List, [], ◌∷◌, ◌++◌, select, length,
  none, Bool-cases, wrapf, plain, Outcome, ok, err, panic, out_of_fuel, ◌⊎◌, inl, inr,
}
use mathlib.Core.List.{Memᴰ}
use cluster_api_provider_vul.Base.Exec.{Exec, ◌>>=◌, pure, raise, on_error}
use cluster_api_provider_vul.Base.Respects.{Preorder, Respects, bind-at}
use cluster_api_provider_vul.Services.Base64.{base64_encode}
use cluster_api_provider_vul.Services.CloudConfig.{Bytes, bytes, append_to_user_data_cloud_config}
use cluster_api_provider_vul.Api.Tags.{BuildTagParams, build_tags}
use cluster_api_provider_vul.Api.Machine.{VultrMachine}
use cluster_api_provider_vul.Govultr.{Instance, InstanceCreateReq, ListOptions}
use cluster_api_provider_vul.Kube.{Platform, CapiMachine}
use cluster_api_provider_vul.Scope.Bootstrap.{machine_role, get_bootstrap_data}
use cluster_api_provider_vul.Scope.Cluster.{ClusterScope, machine_tag_params}
use cluster_api_provider_vul.Services.Instance.{
  lift, send_create, create_request, ssh_key_ids, create_instance, instance_owned_by_machine,
  matching_instances, find_instance_for_machine,
}
use cluster_api_provider_vul.Services.Instance.Adoption.{owned_iff}
use cluster_api_provider_vul.Services.Instance.Listing.{
  unique_none, first_page, matching-select_pages, failure,
}
use cluster_api_provider_vul.Services.Paging.{Pages, pages_of_select}
use cluster_api_provider_vul.Services.Account.{
  run_of_shrinks, none-kept, owned_count, Shrinks, shrink_order, Run, here, next, lose, launch,
  run_order, Ownership,
}
use cluster_api_provider_vul.Services.Keeps.{retrieve-keeps}
use cluster_api_provider_vul.Base.Members.{selected-nil, not-selected}
use cluster_api_provider_vul.Services.Instance.Cloud.{IsCloud, instance_owner}
use cluster_api_provider_vul.Services.Instance.Keeps.{
  ssh_key_ids-keeps, find_instance_for_machine-keeps,
}

module _ {W : Type 0} (p : Platform W) where
  -- What the loop returns is what it selects from the pages that it saw.
  matching-listed :
      (params : BuildTagParams) (name : String) (fuel : ℕ) (o : ListOptions)
      (matches : List Instance) (w : W) (found : List Instance)
      → (matching_instances p params name fuel o matches w).0 ≡ ok found
      → (l : List Instance) × Pages p.api.list_instances w o l
          (matching_instances p params name fuel o matches w).1
        × (found ≡ matches ++ select (instance_owned_by_machine params) l)
  matching-listed params name fuel o matches w found =
      rw (matching-select_pages p params name fuel o matches w) (
        pages_of_select p.api.list_instances (failure p name) (instance_owned_by_machine params)
          fuel o matches w found)

  -- `FindInstanceForMachine` returns nil only after a whole listing with no instance that the
  -- machine owns.
  find_none-listed :
      (sc : ClusterScope) (name role : String) (w : W)
      → (find_instance_for_machine p sc name role w).0 ≡ ok none
      → (l : List Instance) × (w' : W) × Pages p.api.list_instances w (first_page name) l w'
        × (select (instance_owned_by_machine (machine_tag_params sc name role)) l ≡ [])
  unfolding find_instance_for_machine
  find_none-listed sc name role w e = at (found w).0 refl
    where
      params : BuildTagParams
      params = machine_tag_params sc name role

      found : Exec W (List Instance)
      found = matching_instances p params name p.fuel (first_page name) []

      at :
          (o : Outcome (List Instance))
          → (found w).0 ≡ o
          → (l : List Instance) × (w' : W) × Pages p.api.list_instances w (first_page name) l w'
            × (select (instance_owned_by_machine params) l ≡ [])
      at (ok matches) ran =
          let (l, pages, same) =
            matching-listed params name p.fuel (first_page name) [] w matches ran in
          (l, (found w).1, pages, sym same ∙ (unique_none name matches).0 (ground (arith, ran, e)))
      at (err x) ran = absurd (ground (arith, ran, e))
      at panic ran = absurd (ground (arith, ran, e))
      at out_of_fuel ran = absurd (ground (arith, ran, e))

  send_create-world :
      (req : InstanceCreateReq) (w : W) → (send_create p req w).1 ≡ (p.api.create_instance req w).1
  unfolding send_create ◌>>=◌
  send_create-world req w = ground arith

  module _ (instances : W → List Instance) (cloud : IsCloud p instances)
      (Among : BuildTagParams → Type 0) where
    abbrev owner : Ownership Instance
    owner = instance_owner Among

    unowned :
        (params : BuildTagParams) (l : List Instance) (w w' : W)
        → Pages p.api.list_instances w (first_page params.name) l w'
        → select (instance_owned_by_machine params) l ≡ []
        → (i : Instance) → Memᴰ i (instances w)
        → instance_owned_by_machine params i ≡ false
    unowned params l w w' pages none_owned i m =
        elim (Bool-cases (instance_owned_by_machine params i)) [
          | inr e ↦ e
          | inl owned ↦
              not-selected (instance_owned_by_machine params) l none_owned i
                (cloud.listed params.name w l w' pages i m ((owned_iff params i).0 owned).0)
        ]

    -- After `FindInstanceForMachine` returned nil, the machine owns no instance of the account.
    pub find_none-owned :
        (sc : ClusterScope) (name role : String) (w : W)
        → (find_instance_for_machine p sc name role w).0 ≡ ok none
        → owned_count instance_owned_by_machine
            (machine_tag_params sc name role)
            (instances (find_instance_for_machine p sc name role w).1)
          ≡ 0
    unfolding owned_count shrink_order machine_tag_params
    find_none-owned sc name role w e =
        let params : BuildTagParams = machine_tag_params sc name role in
        let (l, w', pages, none_owned) = find_none-listed sc name role w e in
        let before : length (select (instance_owned_by_machine params) (instances w)) ≡ 0 =
          selected-nil _ (instances w) (λ i m. unowned params l w w' pages none_owned i m) in
        let after =
          ((find_instance_for_machine-keeps p instances cloud sc name role).run w).no_more params in
        omega arith

    send_create-launch :
        (params : BuildTagParams) (req : InstanceCreateReq) (w : W)
        → Among params
        → owned_count instance_owned_by_machine params (instances w) ≡ 0
        → req.label ≡ params.name
        → req.hostname ≡ params.name
        → req.tags ≡ build_tags params
        → Run owner (instances w) (instances (send_create p req w).1)
    send_create-launch params req w among none_owned label host tags =
        rw (send_create-world req w) (launched (cloud.create req w))
      where
        launched :
            Shrinks instance_owned_by_machine
                (instances w)
                (instances (p.api.create_instance req w).1)
              ⊎ ((i : Instance) × (i.label ≡ req.label)
                  × ((i.tags ≡ req.tags) ⊎ ((i.tags ≡ []) × (i.hostname ≡ req.hostname)))
                  × (instances (p.api.create_instance req w).1 ≡ i ∷ instances w))
            → Run owner (instances w) (instances (p.api.create_instance req w).1)
        launched (inl s) = next here (lose s)
        launched (inr (i, l, inl t, grown)) =
            next here (launch params i among none_owned (l ∙ label, inl (t ∙ tags)) grown)
        launched (inr (i, l, inr (t, h), grown)) =
            next here (launch params i among none_owned (l ∙ label, inr (t, h ∙ host)) grown)

    -- `CreateInstance` for a machine that owns no instance starts at most one, which is the machine's.
    pub create_instance-launch :
        (sc : ClusterScope) (machine : CapiMachine) (m : VultrMachine) (w : W)
        → Among (machine_tag_params sc m.name (machine_role p machine))
        → owned_count instance_owned_by_machine
            (machine_tag_params sc m.name (machine_role p machine))
            (instances w)
          ≡ 0
        → Run owner (instances w) (instances (create_instance p sc machine m w).1)
    unfolding create_instance run_order lift create_request machine_tag_params shrink_order
    create_instance-launch sc machine m w among none_owned =
        bind-at order bootstrap _ w (run_of_shrinks (bootstrap-keeps.run w)) (λ data' _.
          bind-at order (lift (append_to_user_data_cloud_config data' firewall_off)) _
            (bootstrap w).1 here
            (λ updated _.
              let w' = (bootstrap w).1 in
              let keys = ssh_key_ids-keeps p instances cloud m.spec.ssh_key in
              bind-at order (ssh_key_ids p m.spec.ssh_key) _ w' (run_of_shrinks (keys.run w'))
                (λ ids _.
                  send_create-launch params
                    (create_request m ids (base64_encode updated) (build_tags params))
                    (ssh_key_ids p m.spec.ssh_key w').1 among
                    (none-kept params (keys.run w')
                      (none-kept params (bootstrap-keeps.run w) none_owned))
                    refl refl refl)))
      where
        order : Preorder W
        order = run_order owner instances

        params : BuildTagParams
        params = machine_tag_params sc m.name (machine_role p machine)

        firewall_off : List Bytes
        firewall_off = bytes "ufw disable" ∷ []

        bootstrap : Exec W (List ℕ)
        bootstrap =
            on_error (get_bootstrap_data p machine m.namespace)
              (λ e. raise (wrapf (plain "failed to retrieve bootstrap data") e)) pure

        bootstrap-keeps : Respects (shrink_order instance_owned_by_machine instances) bootstrap
        bootstrap-keeps = retrieve-keeps cloud.keeping machine m.namespace
