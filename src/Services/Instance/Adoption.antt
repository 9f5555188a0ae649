-- ===== src/Services/Instance/Adoption.antt =====
-- Which instances a machine takes for its own.
use cluster_api_provider_vul.Base.{
  ◌≡◌, ◌↔◌, refl, String, string_eq, true, ◌⊎◌, eq_iff, arith, List, [], ◌∷◌,
}
use cluster_api_provider_vul.Api.Tags.{BuildTagParams, build_tags, tags_owned_by_machine}
use cluster_api_provider_vul.Api.Tags.Ownership.{owned_build_tags_iff}
use cluster_api_provider_vul.Api.Machine.{VultrMachine}
use cluster_api_provider_vul.Govultr.{Instance}
use cluster_api_provider_vul.Services.CloudConfig.{Bytes}
use cluster_api_provider_vul.Services.Instance.{
  instance_owned_by_machine, is_empty_list, create_request,
}

empty_list_iff : (l : List String) → (is_empty_list l ≡ true) ↔ (l ≡ [])
empty_list_iff [] = (λ _. refl, λ _. refl)
empty_list_iff (t ∷ l) = (λ h. cc, λ h. cc)

-- An instance is the machine's own exactly if its label is the machine's name, and its tags name
-- the machine and its cluster, or else it has no tags at all and the machine's name as hostname.
pub owned_iff :
    (params : BuildTagParams) (i : Instance)
    → (instance_owned_by_machine params i ≡ true) ↔ (
        (i.label ≡ params.name)
        × ((tags_owned_by_machine i.tags params ≡ true)
            ⊎ ((i.tags ≡ []) × (i.hostname ≡ params.name))))
unfolding instance_owned_by_machine
owned_iff params i =
    ground (arith, eq_iff i.label params.name, eq_iff i.hostname params.name, empty_list_iff i.tags)

-- An instance with the label and the tags of the create request of the machine `params.name` is
-- found again by a later reconcile, and by that of no machine with another name or another cluster
-- uid.
pub created-owned_iff :
    (params other : BuildTagParams) (m : VultrMachine) (keys : List String) (user_data : Bytes)
    (i : Instance)
    → let req = create_request m keys user_data (build_tags params) in
      m.name ≡ params.name
      → i.label ≡ req.label
      → i.tags ≡ req.tags
      → (instance_owned_by_machine other i ≡ true)
        ↔ ((params.name ≡ other.name) × (params.cluster_uid ≡ other.cluster_uid))
unfolding create_request build_tags
created-owned_iff params other m keys user_data i same label tags =
    ground (arith, owned_iff other i, owned_build_tags_iff params other)
