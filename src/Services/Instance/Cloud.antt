-- ===== src/Services/Instance/Cloud.antt =====
-- What the Vultr API and the Kubernetes API do to the instances of the account.
use mathlib.Core.List.{Memᴰ}
use cluster_api_provider_vul.Base.{
  ◌≡◌, refl, sym, ap, ◌∙◌, String, [], string_eq, true, List, ◌∷◌, ◌⊎◌, arith,
}
use cluster_api_provider_vul.Api.Tags.{BuildTagParams, build_tags, tags_owned_by_machine}
use cluster_api_provider_vul.Api.Machine.{VultrMachine}
use cluster_api_provider_vul.Govultr.{Instance, InstanceCreateReq, ListOptions}
use cluster_api_provider_vul.Kube.{Platform}
use cluster_api_provider_vul.Services.Account.{Ownership, Separates, Shrinks, shrink_order}
use cluster_api_provider_vul.Services.Keeps.{IsKeeping}
use cluster_api_provider_vul.Services.Paging.{Pages}
use cluster_api_provider_vul.Services.Instance.{instance_owned_by_machine}
use cluster_api_provider_vul.Services.Instance.Adoption.{owned_iff}
use cluster_api_provider_vul.Services.Instance.Listing.{first_page}

-- An instance made for a machine has its name as label, and its tags; or no tags, where the tag
-- step of the create failed, and its name as hostname.
abbrev pub Made : BuildTagParams → Instance → Type 0
Made params i =
    (i.label ≡ params.name)
    × ((i.tags ≡ build_tags params) ⊎ ((i.tags ≡ []) × (i.hostname ≡ params.name)))

owned-same :
    (p q : BuildTagParams) (i : Instance)
    → p.name ≡ q.name
    → p.cluster_uid ≡ q.cluster_uid
    → instance_owned_by_machine p i ≡ instance_owned_by_machine q i
unfolding instance_owned_by_machine tags_owned_by_machine
owned-same p q i name uid = rw (name, uid) refl

-- Who owns an instance with the label of `p` has the name of `p`.
owned-name :
    (p q : BuildTagParams) (i : Instance)
    → i.label ≡ p.name
    → instance_owned_by_machine q i ≡ true
    → p.name ≡ q.name
owned-name p q i label owned = ground (arith, owned_iff q i)

-- The instances of the account as its machines know them.
abbrev pub instance_owner : (BuildTagParams → Type 0) → Ownership Instance
instance_owner among = record { owned = instance_owned_by_machine; among = among; made = Made }

-- The machine is of the cluster that its name alone decides: no two clusters have one of this name.
abbrev pub OfCluster : (String → String) → BuildTagParams → Type 0
OfCluster cluster_of params = params.cluster_uid ≡ cluster_of params.name

pub instance_owner-Separates :
    (cluster_of : String → String) → Separates (instance_owner (OfCluster cluster_of))
instance_owner-Separates cluster_of = record {
  owned-same = owned-same;
  owned-Made = λ p q i from to made owned.
      let name : p.name ≡ q.name = owned-name p q i made.0 owned in
      (name, from ∙ ap cluster_of name ∙ sym to);
}

-- What the APIs document. A read, a deletion and a patch start no instance, a create starts the
-- requested one or fails, with the instance started or not and with its tags set or none, and a
-- listing by label that comes to its end shows every instance with the label.
pub record IsCloud {W : Type 0} (p : Platform W) (instances : W → List Instance) : Type 0 where
  pub get :
      (id : String) (w : W)
      → Shrinks instance_owned_by_machine (instances w) (instances (p.api.get_instance id w).1)
  pub list :
      (o : ListOptions) (w : W)
      → Shrinks instance_owned_by_machine (instances w) (instances (p.api.list_instances o w).1)
  pub delete :
      (id : String) (w : W)
      → Shrinks instance_owned_by_machine (instances w) (instances (p.api.delete_instance id w).1)
  pub keeping : IsKeeping p (shrink_order instance_owned_by_machine instances)
  pub patch :
      (m : VultrMachine) (w : W)
      → Shrinks instance_owned_by_machine (instances w) (instances (p.kube.patch_machine m w).1)
  pub create :
      (req : InstanceCreateReq) (w : W)
      → Shrinks instance_owned_by_machine (instances w) (instances (p.api.create_instance req w).1)
        ⊎ ((i : Instance) × (i.label ≡ req.label)
            × ((i.tags ≡ req.tags) ⊎ ((i.tags ≡ []) × (i.hostname ≡ req.hostname)))
            × (instances (p.api.create_instance req w).1 ≡ i ∷ instances w))
  pub listed :
      (name : String) (w : W) (l : List Instance) (w' : W)
      → Pages p.api.list_instances w (first_page name) l w'
      → (i : Instance) → Memᴰ i (instances w)
      → i.label ≡ name
      → Memᴰ i l
