-- ===== src/Services/BareMetal/Listing.antt =====
-- The listing of `FindBareMetalServerByTags`: its pages, its end, and what it finds.
use cluster_api_provider_vul.Base.{
  ℕ, zero, suc, ◌≤◌, ◌≡◌, ◌≢◌, ◌↔◌, refl, none, some, String, string_eq, arith, GoError, wrapf,
  plain, ok, out_of_fuel, List, [], ◌∷◌, ◌++◌, select, Bool,
}
use cluster_api_provider_vul.Api.Tags.{BuildTagParams, name_tag_from_name, tags_owned_by_machine}
use cluster_api_provider_vul.Govultr.{BareMetalServer, ListOptions, next_cursor}
use cluster_api_provider_vul.Kube.{Platform}
use cluster_api_provider_vul.Scope.Cluster.{ClusterScope, machine_tag_params}
use cluster_api_provider_vul.Services.Paging.{Pages, page_count, select_pages, select_of_pages}
use cluster_api_provider_vul.Services.BareMetal.{
  bare_metal_list_page_size, unique_match, matching_servers, find_bare_metal_server_by_tags,
}

-- The options of the first call.
abbrev pub first_page : String → ListOptions
first_page name = record {
  per_page = bare_metal_list_page_size;
  tag = name_tag_from_name name;
  label = "";
  cursor = "";
}

abbrev pub server_owned : BuildTagParams → BareMetalServer → Bool
server_owned params s = tags_owned_by_machine s.tags params

-- What the switch on the matches returns: none, the only one, or an error.
pub unique_exact :
    (name : String) (l : List BareMetalServer)
    → ((unique_match name l ≡ ok none) ↔ (l ≡ []))
      × ((s : BareMetalServer) → (unique_match name l ≡ ok (some s)) ↔ (l ≡ s ∷ []))
      × (unique_match name l ≢ out_of_fuel)
unfolding unique_match
unique_exact name [] = ((λ _. refl, λ _. refl), λ s. (λ h. cc, λ h. cc), λ h. cc)
unique_exact name (t ∷ []) = ((λ h. cc, λ h. cc), λ s. (λ h. cc, λ h. cc), λ h. cc)
unique_exact name (t ∷ u ∷ more) = ((λ h. cc, λ h. cc), λ s. (λ h. cc, λ h. cc), λ h. cc)

module _ {W : Type 0} (p : Platform W) where
  unfoldable pub failure : GoError → GoError
  failure = wrapf (plain "failed to list bare metal servers")

  pub matching-select_pages :
      (params : BuildTagParams) (fuel : ℕ) (o : ListOptions) (matches : List BareMetalServer)
      (w : W)
      → matching_servers p params fuel o matches w
        ≡ select_pages p.api.list_servers failure (server_owned params) fuel o matches w
  unfolding matching_servers select_pages failure
  matching-select_pages params zero o matches w = refl
  matching-select_pages params (suc fuel) o matches w =
      let (r, w') = p.api.list_servers o w in
      ground (
        arith,
        matching-select_pages params fuel (record o { cursor = next_cursor r.meta })
            (matches ++ select (server_owned params) r.value) w',
      )

  -- Where the listing by the name tag has the pages and the fuel covers them, the search returns no
  -- server exactly if no server on any page has the machine's name tag and the tag of its cluster's
  -- uid, and a server exactly if that is the only one; and it reads the listing to its end.
  pub find_server_exact :
      (sc : ClusterScope) (name role : String) {w : W} {l : List BareMetalServer} {w' : W}
      (pages : Pages p.api.list_servers w (first_page name) l w')
      → page_count p.api.list_servers pages ≤ p.fuel
      → let owned = select (server_owned (machine_tag_params sc name role)) l in
        let run = find_bare_metal_server_by_tags p sc name role w in
        ((run.0 ≡ ok none) ↔ (owned ≡ []))
        × ((s : BareMetalServer) → (run.0 ≡ ok (some s)) ↔ (owned ≡ s ∷ []))
        × (run.1 ≡ w')
  unfolding find_bare_metal_server_by_tags
  find_server_exact sc name role {w} {l} pages enough =
      let params : BuildTagParams = machine_tag_params sc name role in
      let (none_owned, one_owned, ended) = unique_exact name (select (server_owned params) l) in
      rw
        (
          matching-select_pages params p.fuel (first_page name) [] w,
          select_of_pages p.api.list_servers failure (server_owned params) p.fuel [] pages enough,
        )
        (none_owned, one_owned, refl)
