-- ===== src/Services/Keeps.antt =====
-- The services that both kinds of machine use keep what the calls that they make keep.
use cluster_api_provider_vul.Base.{
  wrapf, plain, ◌≡◌, refl, String, string_eq, arith, List, [], ◌∷◌, ◌++◌, Option, none, some,
}
use cluster_api_provider_vul.Base.Respects.{
  Preorder, Respects, on_error-Respects, raise-Respects, pure-Respects,
}
use cluster_api_provider_vul.Base.Exec.{pure, raise, on_error}
use cluster_api_provider_vul.Govultr.{LoadBalancer, LoadBalancerReq}
use cluster_api_provider_vul.Kube.{Platform, CapiMachine}
use cluster_api_provider_vul.Scope.Bootstrap.{get_bootstrap_data}
use cluster_api_provider_vul.Services.SshKeys.{get_ssh_key}
use cluster_api_provider_vul.Services.LoadBalancer.{
  ensure_load_balancer_member, remove_load_balancer_member, remaining_members, instances_request,
}

-- The calls that neither start nor delete a server of any kind.
pub record IsKeeping {W : Type 0} (p : Platform W) (o : Preorder W) : Type 0 where
  pub ssh_key : (id : String) (w : W) → o.rel w (p.api.get_ssh_key id w).1
  pub get_balancer : (id : String) (w : W) → o.rel w (p.api.get_load_balancer id w).1
  pub update_balancer :
      (id : String) (req : LoadBalancerReq) (w : W)
      → o.rel w (p.api.update_load_balancer id req w).1
  pub secret : (namespace name : String) (w : W) → o.rel w (p.kube.get_secret namespace name w).1

module _ {W : Type 0} {p : Platform W} {o : Preorder W} (kept : IsKeeping p o) where
  pub get_ssh_key-keeps : (id : String) → Respects o (get_ssh_key p id)
  unfolding get_ssh_key
  get_ssh_key-keeps id = record {
    run = λ w.
        let stays : o.rel w w = o.reflexive w in
        let one : o.rel w (p.api.get_ssh_key id w).1 = kept.ssh_key id w in
        ground (arith, stays, one);
  }

  pub get_bootstrap_data-keeps :
      (machine : CapiMachine) (namespace : String)
      → Respects o (get_bootstrap_data p machine namespace)
  unfolding get_bootstrap_data
  get_bootstrap_data-keeps machine namespace = record {
    run = λ w. at machine.data_secret_name refl w;
  }
    where
      at :
          (n : Option String)
          → machine.data_secret_name ≡ n
          → (w : W) → o.rel w (get_bootstrap_data p machine namespace w).1
      at none e w = rw e (o.reflexive w)
      at (some name) e w =
          let one : o.rel w (p.kube.get_secret namespace name w).1 = kept.secret namespace name w in
          ground (arith, e, one)

  -- The bootstrap data, as `CreateInstance` and `CreateBareMetalServer` retrieve it.
  pub retrieve-keeps :
      (machine : CapiMachine) (namespace : String)
      → Respects o (
          on_error
            (get_bootstrap_data p machine namespace)
            (λ e. raise (wrapf (plain "failed to retrieve bootstrap data") e))
            pure)
  retrieve-keeps machine namespace =
      on_error-Respects _ _ _ (get_bootstrap_data-keeps machine namespace) (λ e. raise-Respects _)
        (λ a. pure-Respects a)

  pub ensure_load_balancer_member-keeps :
      (lb_id resource_id : String) → Respects o (ensure_load_balancer_member p lb_id resource_id)
  unfolding ensure_load_balancer_member
  ensure_load_balancer_member-keeps lb_id resource_id = record {
    run = λ w. at w (p.api.get_load_balancer lb_id w).0.value refl;
  }
    where
      at :
          (w : W) (balancer : Option LoadBalancer)
          → (p.api.get_load_balancer lb_id w).0.value ≡ balancer
          → o.rel w (ensure_load_balancer_member p lb_id resource_id w).1
      at w none e =
          let stays : o.rel w w = o.reflexive w in
          let one : o.rel w (p.api.get_load_balancer lb_id w).1 = kept.get_balancer lb_id w in
          ground (arith, e, stays, one)
      at w (some lb) e =
          let stays : o.rel w w = o.reflexive w in
          let w' = (p.api.get_load_balancer lb_id w).1 in
          let req = instances_request (lb.instances ++ resource_id ∷ []) in
          let w'' = (p.api.update_load_balancer lb_id req w').1 in
          let one : o.rel w w' = kept.get_balancer lb_id w in
          let two : o.rel w w'' = o.transitive w w' w'' one (kept.update_balancer lb_id req w') in
          ground (arith, e, stays, one, two)

  pub remove_load_balancer_member-keeps :
      (lb_id resource_id : String) → Respects o (remove_load_balancer_member p lb_id resource_id)
  unfolding remove_load_balancer_member
  remove_load_balancer_member-keeps lb_id resource_id = record {
    run = λ w. at w (p.api.get_load_balancer lb_id w).0.value refl;
  }
    where
      at :
          (w : W) (balancer : Option LoadBalancer)
          → (p.api.get_load_balancer lb_id w).0.value ≡ balancer
          → o.rel w (remove_load_balancer_member p lb_id resource_id w).1
      at w none e =
          let stays : o.rel w w = o.reflexive w in
          let one : o.rel w (p.api.get_load_balancer lb_id w).1 = kept.get_balancer lb_id w in
          ground (arith, e, stays, one)
      at w (some lb) e = with_rest (remaining_members resource_id lb.instances) refl
        where
          with_rest :
              (rest : List String)
              → remaining_members resource_id lb.instances ≡ rest
              → o.rel w (remove_load_balancer_member p lb_id resource_id w).1
          with_rest [] r =
              let stays : o.rel w w = o.reflexive w in
              let one : o.rel w (p.api.get_load_balancer lb_id w).1 = kept.get_balancer lb_id w in
              ground (arith, e, r, stays, one)
          with_rest (m ∷ more) r =
              let stays : o.rel w w = o.reflexive w in
              let w' = (p.api.get_load_balancer lb_id w).1 in
              let req = instances_request (m ∷ more) in
              let w'' = (p.api.update_load_balancer lb_id req w').1 in
              let one : o.rel w w' = kept.get_balancer lb_id w in
              let two : o.rel w w'' =
                o.transitive w w' w'' one (kept.update_balancer lb_id req w') in
              ground (arith, e, r, stays, one, two)
