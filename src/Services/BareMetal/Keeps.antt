-- ===== src/Services/BareMetal/Keeps.antt =====
-- The services that start no bare metal server, whatever their outcome.
use cluster_api_provider_vul.Base.{
  String, ◌==◌, string_eq, arith, List, [], ◌∷◌, ◌++◌, ℕ, zero, suc, select,
}
use cluster_api_provider_vul.Base.Exec.{panics, pure, ◌>>=◌}
use cluster_api_provider_vul.Base.Respects.{
  Respects, bind-Respects, stops-Respects, pure-Respects, panics-Respects, if-Respects,
  option-Respects,
}
use cluster_api_provider_vul.Api.Tags.{BuildTagParams}
use cluster_api_provider_vul.Govultr.{SshKey, BareMetalServer, ListOptions, next_cursor}
use cluster_api_provider_vul.Kube.{Platform}
use cluster_api_provider_vul.Scope.Cluster.{ClusterScope}
use cluster_api_provider_vul.Services.Account.{Shrinks, Shrinks-refl, Shrinks-trans, shrink_order}
use cluster_api_provider_vul.Services.Keeps.{get_ssh_key-keeps}
use cluster_api_provider_vul.Services.Instance.{lift}
use cluster_api_provider_vul.Services.BareMetal.{
  get_bare_metal_server, delete_bare_metal_server, ssh_key_ids, matching_servers,
  find_bare_metal_server_by_tags, ensure_bare_metal_vpc,
}
use cluster_api_provider_vul.Services.BareMetal.Listing.{server_owned}
use cluster_api_provider_vul.Services.BareMetal.Cloud.{IsServerCloud}

module _ {W : Type 0} (p : Platform W) (servers : W → List BareMetalServer)
    (cloud : IsServerCloud p servers) where
  abbrev Fewer : W → W → Type 0
  Fewer w w' = Shrinks server_owned (servers w) (servers w')

  pub get_server-keeps :
      (id : String) → Respects (shrink_order server_owned servers) (get_bare_metal_server p id)
  unfolding get_bare_metal_server shrink_order
  get_server-keeps id = record {
    run = λ w.
        let stays : Fewer w w = Shrinks-refl (servers w) in
        let one : Fewer w (p.api.get_server id w).1 = cloud.get id w in ground (arith, stays, one);
  }

  pub delete_server-keeps :
      (id : String) → Respects (shrink_order server_owned servers) (delete_bare_metal_server p id)
  unfolding delete_bare_metal_server shrink_order
  delete_server-keeps id = record {
    run = λ w.
        let stays : Fewer w w = Shrinks-refl (servers w) in
        let one : Fewer w (p.api.delete_server id w).1 = cloud.delete id w in
        ground (arith, stays, one);
  }

  pub ensure_vpc-keeps :
      (id vpc_id : String)
      → Respects (shrink_order server_owned servers) (ensure_bare_metal_vpc p id vpc_id)
  unfolding ensure_bare_metal_vpc shrink_order
  ensure_vpc-keeps id vpc_id = record {
    run = λ w.
        let w' = (p.api.list_vpc_info id w).1 in
        let one : Fewer w w' = cloud.list_vpcs id w in
        let two : Fewer w (p.api.attach_vpc id vpc_id w').1 =
          Shrinks-trans one (cloud.attach id vpc_id w') in
        ground (arith, one, two);
  }

  pub ssh_key_ids-keeps :
      (ids : List String) → Respects (shrink_order server_owned servers) (ssh_key_ids p ids)
  unfolding ssh_key_ids shrink_order
  ssh_key_ids-keeps [] = pure-Respects []
  ssh_key_ids-keeps (id ∷ ids) = if-Respects (id == "") _ _ (ssh_key_ids-keeps ids) (
      bind-Respects _ _ (record { run = (get_ssh_key-keeps cloud.keeping id).run })
        (λ key.
          option-Respects {A = SshKey} key panics
            (λ k. ssh_key_ids p ids >>= λ rest. pure (k.id ∷ rest)) panics-Respects
            (λ k. bind-Respects _ _ (ssh_key_ids-keeps ids) (λ rest. pure-Respects (k.id ∷ rest)))))

  matching_servers-keeps :
      (params : BuildTagParams) (fuel : ℕ) (o : ListOptions) (matches : List BareMetalServer)
      → Respects (shrink_order server_owned servers) (matching_servers p params fuel o matches)
  unfolding matching_servers shrink_order
  matching_servers-keeps params zero o matches = stops-Respects
  matching_servers-keeps params (suc fuel) o matches = record {
    run = λ w.
        let (r, w') = p.api.list_servers o w in
        let one : Fewer w w' = cloud.list o w in
        let rest =
          matching_servers-keeps params fuel (record o { cursor = next_cursor r.meta })
            (matches ++ select (server_owned params) r.value) in
        let all = Shrinks-trans one (rest.run w') in ground (arith, one, all);
  }

  pub find_server-keeps :
      (sc : ClusterScope) (name role : String)
      → Respects (shrink_order server_owned servers) (find_bare_metal_server_by_tags p sc name role)
  unfolding find_bare_metal_server_by_tags shrink_order lift
  find_server-keeps sc name role =
      bind-Respects _ _ (matching_servers-keeps _ p.fuel _ [])
        (λ matches. record { run = λ w. Shrinks-refl (servers w) })
