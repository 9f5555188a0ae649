-- ===== src/Services/Instance/Keeps.antt =====
-- The services that start no instance, whatever their outcome.
use cluster_api_provider_vul.Base.{
  String, string_eq, arith, List, [], ◌∷◌, ◌++◌, ℕ, zero, suc, select,
}
use cluster_api_provider_vul.Base.Respects.{Respects, bind-Respects, stops-Respects, pure-Respects}
use cluster_api_provider_vul.Api.Tags.{BuildTagParams}
use cluster_api_provider_vul.Govultr.{Instance, ListOptions, next_cursor}
use cluster_api_provider_vul.Kube.{Platform}
use cluster_api_provider_vul.Scope.Cluster.{ClusterScope}
use cluster_api_provider_vul.Services.SshKeys.{get_ssh_key}
use cluster_api_provider_vul.Services.Instance.{
  get_instance, delete_instance, ssh_key_ids, matching_instances, find_instance_for_machine,
  instance_owned_by_machine, lift,
}
use cluster_api_provider_vul.Services.Account.{Shrinks, Shrinks-refl, Shrinks-trans, shrink_order}
use cluster_api_provider_vul.Services.Keeps.{get_ssh_key-keeps}
use cluster_api_provider_vul.Services.Instance.Cloud.{IsCloud}

module _ {W : Type 0} (p : Platform W) (instances : W → List Instance)
    (cloud : IsCloud p instances) where
  pub get_instance-keeps :
      (id : String)
      → Respects (shrink_order instance_owned_by_machine instances) (get_instance p id)
  unfolding get_instance shrink_order
  get_instance-keeps id = record {
    run = λ w.
        let none_lost : Shrinks instance_owned_by_machine (instances w) (instances w) =
          Shrinks-refl (instances w) in
        let one : Shrinks instance_owned_by_machine (instances w)
            (instances (p.api.get_instance id w).1) =
          (cloud.get id w) in
        ground (arith, none_lost, one);
  }

  pub delete_instance-keeps :
      (id : String)
      → Respects (shrink_order instance_owned_by_machine instances) (delete_instance p id)
  unfolding delete_instance shrink_order
  delete_instance-keeps id = record {
    run = λ w.
        let none_lost : Shrinks instance_owned_by_machine (instances w) (instances w) =
          Shrinks-refl (instances w) in
        let one : Shrinks instance_owned_by_machine (instances w)
            (instances (p.api.delete_instance id w).1) =
          (cloud.delete id w) in
        ground (arith, none_lost, one);
  }

  pub ssh_key_ids-keeps :
      (ids : List String)
      → Respects (shrink_order instance_owned_by_machine instances) (ssh_key_ids p ids)
  unfolding ssh_key_ids shrink_order
  ssh_key_ids-keeps [] = pure-Respects []
  ssh_key_ids-keeps (id ∷ ids) = record {
    run = λ w.
        let w' = (get_ssh_key p id w).1 in
        let one : Shrinks instance_owned_by_machine (instances w) (instances w') =
          (get_ssh_key-keeps cloud.keeping id).run w in
        let all : Shrinks instance_owned_by_machine (instances w)
            (instances (ssh_key_ids p ids w').1) =
          Shrinks-trans one ((ssh_key_ids-keeps ids).run w') in
        ground (arith, one, all);
  }

  matching_instances-keeps :
      (params : BuildTagParams) (name : String) (fuel : ℕ) (o : ListOptions)
      (matches : List Instance)
      → Respects
          (shrink_order instance_owned_by_machine instances)
          (matching_instances p params name fuel o matches)
  unfolding matching_instances shrink_order
  matching_instances-keeps params name zero o matches = stops-Respects
  matching_instances-keeps params name (suc fuel) o matches = record {
    run = λ w.
        let w' = (p.api.list_instances o w).1 in
        let r = (p.api.list_instances o w).0 in
        let one : Shrinks instance_owned_by_machine (instances w) (instances w') =
          (cloud.list o w) in
        let rest =
          matching_instances-keeps params name fuel (record o { cursor = next_cursor r.meta })
            (matches ++ select (instance_owned_by_machine params) r.value) in
        let all = Shrinks-trans one (rest.run w') in ground (arith, one, all);
  }

  pub find_instance_for_machine-keeps :
      (sc : ClusterScope) (name role : String)
      → Respects
          (shrink_order instance_owned_by_machine instances)
          (find_instance_for_machine p sc name role)
  unfolding find_instance_for_machine shrink_order lift
  find_instance_for_machine-keeps sc name role =
      bind-Respects _ _ (matching_instances-keeps _ name p.fuel _ [])
        (λ matches. record { run = λ w. Shrinks-refl (instances w) })
