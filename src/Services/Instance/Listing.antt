-- ===== src/Services/Instance/Listing.antt =====
-- The listing of `FindInstanceForMachine`: its pages, its end, and what it finds.
use cluster_api_provider_vul.Base.{
  ℕ, zero, suc, ◌≤◌, ◌<◌, ◌≡◌, ◌≢◌, ◌↔◌, refl, none, some, String, string_eq, arith, GoError, wrapf,
  sprintf, str, Outcome, ok, err, panic, out_of_fuel, List, [], ◌∷◌, ◌++◌, select,
}
use cluster_api_provider_vul.Base.Exec.{continue}
use cluster_api_provider_vul.Api.Tags.{BuildTagParams}
use cluster_api_provider_vul.Govultr.{Instance, ListOptions, next_cursor}
use cluster_api_provider_vul.Kube.{Platform}
use cluster_api_provider_vul.Scope.Cluster.{ClusterScope, machine_tag_params}
use cluster_api_provider_vul.Services.Paging.{
  Pages, page_count, Ends, select_pages, select_of_pages, select_pages-ne-out_of_fuel,
}
use cluster_api_provider_vul.Services.Instance.{
  lift, instance_owned_by_machine, unique_match, matching_instances, find_instance_for_machine,
}

-- The options of the first call.
abbrev pub first_page : String → ListOptions
first_page name = record { per_page = 0; tag = ""; label = name; cursor = "" }

pub unique_none : (name : String) (l : List Instance) → (unique_match name l ≡ ok none) ↔ (l ≡ [])
unfolding unique_match
unique_none name [] = (λ _. refl, λ _. refl)
unique_none name (i ∷ []) = (λ h. cc, λ h. cc)
unique_none name (i ∷ j ∷ more) = (λ h. cc, λ h. cc)

unique_some :
    (name : String) (l : List Instance) (i : Instance)
    → (unique_match name l ≡ ok (some i)) ↔ (l ≡ i ∷ [])
unfolding unique_match
unique_some name [] i = (λ h. cc, λ h. cc)
unique_some name (j ∷ []) i = (λ h. cc, λ h. cc)
unique_some name (j ∷ k ∷ more) i = (λ h. cc, λ h. cc)

unique_match-ne-out_of_fuel :
    (name : String) (l : List Instance) → unique_match name l ≢ out_of_fuel
unfolding unique_match
unique_match-ne-out_of_fuel name [] h = cc
unique_match-ne-out_of_fuel name (i ∷ []) h = cc
unique_match-ne-out_of_fuel name (i ∷ j ∷ more) h = cc

module _ {W : Type 0} (p : Platform W) where
  unfoldable pub failure : String → GoError → GoError
  failure name = wrapf (sprintf "failed to list instances labelled %q" (str name ∷ []))

  -- The loop of `FindInstanceForMachine` is that of every listing.
  pub matching-select_pages :
      (params : BuildTagParams) (name : String) (fuel : ℕ) (o : ListOptions)
      (matches : List Instance) (w : W)
      → matching_instances p params name fuel o matches w
        ≡ select_pages p.api.list_instances
            (failure name)
            (instance_owned_by_machine params)
            fuel
            o
            matches
            w
  unfolding matching_instances select_pages failure
  matching-select_pages params name zero o matches w = refl
  matching-select_pages params name (suc fuel) o matches w =
      let (r, w') = p.api.list_instances o w in
      ground (
        arith,
        matching-select_pages params name fuel (record o { cursor = next_cursor r.meta })
            (matches ++ select (instance_owned_by_machine params) r.value) w',
      )

  -- `FindInstanceForMachine`, where the list has the pages `pages` and the fuel covers them, is the
  -- switch on the instances of all pages that the machine owns: it neither runs out of fuel nor
  -- misses a page.
  find-Pages :
      (sc : ClusterScope) (name role : String) {w : W} {l : List Instance} {w' : W}
      (pages : Pages p.api.list_instances w (first_page name) l w')
      → page_count p.api.list_instances pages ≤ p.fuel
      → find_instance_for_machine p sc name role w ≡ (
        unique_match name (select (instance_owned_by_machine (machine_tag_params sc name role)) l),
        w',
      )
  unfolding find_instance_for_machine
  find-Pages sc name role {w} pages enough = rw (
    matching-select_pages (machine_tag_params sc name role) name p.fuel (first_page name) [] w,
    select_of_pages p.api.list_instances (failure name)
        (instance_owned_by_machine (machine_tag_params sc name role)) p.fuel [] pages enough,
  )

  -- If some rank of the listing falls with every reply that has a next cursor, and the fuel is above
  -- the rank at the start, the loop over the pages ends by itself.
  pub find-ne-out_of_fuel :
      (rank : W → String → ℕ)
      → Ends p.api.list_instances rank
      → (sc : ClusterScope) (name role : String) (w : W) → rank w "" < p.fuel
      → (find_instance_for_machine p sc name role w).0 ≢ out_of_fuel
  unfolding find_instance_for_machine
  find-ne-out_of_fuel rank ends sc name role w lt =
      let params : BuildTagParams = machine_tag_params sc name role in
      ended (matching_instances p params name p.fuel (first_page name) [] w).0 (
        rw (matching-select_pages params name p.fuel (first_page name) [] w) (
          select_pages-ne-out_of_fuel p.api.list_instances (failure name)
            (instance_owned_by_machine params) rank ends p.fuel (first_page name) [] w lt))
    where
      ended :
          (o : Outcome (List Instance))
          → o ≢ out_of_fuel
          → (continue o
              (λ matches. lift (unique_match name matches))
              (matching_instances p
                (machine_tag_params sc name role)
                name
                p.fuel
                (first_page name)
                []
                w).1).0
            ≢ out_of_fuel
      ended (ok l) h = unique_match-ne-out_of_fuel name l
      ended (err e) h = λ q. cc
      ended panic h = λ q. cc
      ended out_of_fuel h = λ q. h refl

  -- Where the list has the pages and the fuel covers them, `FindInstanceForMachine` returns no
  -- instance exactly if the machine owns none on any page, and the instance `i` exactly if that is
  -- the only one; in every other case it returns neither.
  pub find_exact :
      (sc : ClusterScope) (name role : String) {w : W} {l : List Instance} {w' : W}
      (pages : Pages p.api.list_instances w (first_page name) l w')
      → page_count p.api.list_instances pages ≤ p.fuel
      → let owned = select (instance_owned_by_machine (machine_tag_params sc name role)) l in
        (((find_instance_for_machine p sc name role w).0 ≡ ok none) ↔ (owned ≡ []))
        × ((i : Instance)
            → ((find_instance_for_machine p sc name role w).0 ≡ ok (some i)) ↔ (owned ≡ i ∷ []))
  find_exact sc name role pages enough =
      rw (find-Pages sc name role pages enough) (unique_none _ _, λ i. unique_some _ _ i)
