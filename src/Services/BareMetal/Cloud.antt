-- ===== src/Services/BareMetal/Cloud.antt =====
-- What the Vultr API and the Kubernetes API do to the bare metal servers of the account.
use mathlib.Core.List.{Memᴰ}
use cluster_api_provider_vul.Base.{
  ◌≡◌, refl, String, string_eq, true, false, List, ◌∷◌, ◌++◌, ◌⊎◌, contains, contains-append, arith,
}
use cluster_api_provider_vul.Api.Tags.{
  BuildTagParams, build_tags, tags_owned_by_machine, name_tag_from_name, cluster_uid_tag,
}
use cluster_api_provider_vul.Api.Tags.Ownership.{owned_build_tags_iff}
use cluster_api_provider_vul.Api.BareMetal.{VultrBareMetalMachine}
use cluster_api_provider_vul.Govultr.{BareMetalServer, BareMetalCreate, ListOptions}
use cluster_api_provider_vul.Kube.{Platform}
use cluster_api_provider_vul.Services.Account.{Ownership, Separates, Shrinks, shrink_order}
use cluster_api_provider_vul.Services.Keeps.{IsKeeping}
use cluster_api_provider_vul.Services.Paging.{Pages}
use cluster_api_provider_vul.Services.BareMetal.Listing.{first_page, server_owned}

-- The additional tags of a specification do not make the server of the machine `params` that of
-- another machine: they do not name another machine of this cluster, or another cluster.
abbrev pub Harmless : BuildTagParams → List String → Type 0
Harmless params additional =
    (q : BuildTagParams)
    → tags_owned_by_machine (build_tags params ++ additional) q ≡ true
    → (params.name ≡ q.name) × (params.cluster_uid ≡ q.cluster_uid)

-- Tags that are no name tag and no tag of a cluster's uid are harmless.
pub unreserved-Harmless :
    (params : BuildTagParams) (additional : List String)
    → ((x : String) → contains additional (name_tag_from_name x) ≡ false)
    → ((x : String) → contains additional (cluster_uid_tag x) ≡ false)
    → Harmless params additional
unfolding tags_owned_by_machine
unreserved-Harmless params additional no_name no_uid q owned = ground (
  arith,
  owned,
  no_name q.name,
  no_uid q.cluster_uid,
  contains-append (build_tags params) additional (name_tag_from_name q.name),
  contains-append (build_tags params) additional (cluster_uid_tag q.cluster_uid),
  owned_build_tags_iff params q,
)

-- A server made for a machine has its tags, and additional ones.
abbrev pub Made : BuildTagParams → BareMetalServer → Type 0
Made params s =
    (additional : List String) × (s.tags ≡ build_tags params ++ additional)
    × Harmless params additional

owned-same :
    (p q : BuildTagParams) (s : BareMetalServer)
    → p.name ≡ q.name
    → p.cluster_uid ≡ q.cluster_uid
    → server_owned p s ≡ server_owned q s
unfolding tags_owned_by_machine
owned-same p q s name uid = rw (name, uid) refl

owned-Made :
    (p q : BuildTagParams) (s : BareMetalServer)
    → Made p s
    → server_owned q s ≡ true
    → (p.name ≡ q.name) × (p.cluster_uid ≡ q.cluster_uid)
owned-Made p q s (additional, tags, harmless) owned = harmless q (rw⁻¹ tags owned)

-- Any machines may share the account.
abbrev pub server_owner : Ownership BareMetalServer
server_owner = record { owned = server_owned; among = λ params. Unit {0}; made = Made }

pub server_owner-Separates : Separates server_owner
server_owner-Separates = record {
  owned-same = owned-same;
  owned-Made = λ p q s from to. owned-Made p q s;
}

-- What the APIs document. A read, a deletion, an attachment and a patch start no server, a create
-- starts the requested one or fails, with the server started or not, and a listing by the name tag
-- that comes to its end shows every server with the tag.
pub record IsServerCloud {W : Type 0} (p : Platform W) (servers : W → List BareMetalServer)
    : Type 0 where
  pub get :
      (id : String) (w : W) → Shrinks server_owned (servers w) (servers (p.api.get_server id w).1)
  pub list :
      (o : ListOptions) (w : W)
      → Shrinks server_owned (servers w) (servers (p.api.list_servers o w).1)
  pub delete :
      (id : String) (w : W)
      → Shrinks server_owned (servers w) (servers (p.api.delete_server id w).1)
  pub list_vpcs :
      (id : String) (w : W)
      → Shrinks server_owned (servers w) (servers (p.api.list_vpc_info id w).1)
  pub attach :
      (id vpc_id : String) (w : W)
      → Shrinks server_owned (servers w) (servers (p.api.attach_vpc id vpc_id w).1)
  pub keeping : IsKeeping p (shrink_order server_owned servers)
  pub patch :
      (m : VultrBareMetalMachine) (w : W)
      → Shrinks server_owned (servers w) (servers (p.kube.patch_bare_metal m w).1)
  pub create :
      (req : BareMetalCreate) (w : W)
      → Shrinks server_owned (servers w) (servers (p.api.create_server req w).1)
        ⊎ ((s : BareMetalServer) × (s.tags ≡ req.tags)
            × (servers (p.api.create_server req w).1 ≡ s ∷ servers w))
  pub listed :
      (name : String) (w : W) (l : List BareMetalServer) (w' : W)
      → Pages p.api.list_servers w (first_page name) l w'
      → (s : BareMetalServer) → Memᴰ s (servers w)
      → contains s.tags (name_tag_from_name name) ≡ true
      → Memᴰ s l
