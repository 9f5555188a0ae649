-- ===== src/Services/LoadBalancer/Members.antt =====
-- The members of the load balancer, before and after `EnsureLoadBalancerMember` and
-- `RemoveLoadBalancerMember`.
use cluster_api_provider_vul.Base.{
  ℕ, ◌≤◌, ◌<◌, ◌≡◌, ◌≢◌, refl, sym, ap, ◌∙◌, String, Bool, true, false, not, ◌&&◌, List, [], ◌∷◌,
  ◌++◌, contains, contains-append, length, ◌==◌, string_eq, nat_eq, eq_iff, none, some, Bool-cases,
  inl, inr, ◌⊎◌, ok, arith,
}
use cluster_api_provider_vul.Govultr.{Api, LoadBalancer}
use cluster_api_provider_vul.Kube.{Platform}
use cluster_api_provider_vul.Services.LoadBalancer.{
  instances_request, remaining_members, ensure_load_balancer_member, remove_load_balancer_member,
}

module _ {W : Type 0} (api : Api W) (id : String) where
  -- The load balancer `id` in the world `w`, as a read of it finds it.
  abbrev pub Stored : LoadBalancer → W → Type 0
  Stored lb w =
      ((api.get_load_balancer id w).0.error ≡ none)
      × ((api.get_load_balancer id w).0.value ≡ some lb)

  -- What the Vultr API documents of a load balancer: a read finds it again, and an update without
  -- an error replaces its instances by the given ones. The client omits an empty list, so the law
  -- speaks only of lists that are not.
  pub record StoresMembers : Type 0 where
    pub get-get :
        (lb : LoadBalancer) (w : W) → Stored lb w → Stored lb (api.get_load_balancer id w).1
    pub get-update :
        (lb : LoadBalancer) (l : List String) (w : W)
        → Stored lb w
        → l ≢ []
        → (api.update_load_balancer id (instances_request l) w).0.error ≡ none
        → Stored
            (record lb { instances = l })
            (api.update_load_balancer id (instances_request l) w).1

nat_neq : (m n : ℕ) → m < n → (m == n) ≡ false
nat_neq m n h = ground arith

module _ {W : Type 0} (p : Platform W) (id resource : String) where
  abbrev after_get : W → W
  after_get w = (p.api.get_load_balancer id w).1

  -- What `EnsureLoadBalancerMember` has done where it returns true.
  ensure_true :
      (lb : LoadBalancer) (w : W)
      → Stored p.api id lb w
      → (ensure_load_balancer_member p id resource w).0 ≡ ok true
      → let run =
          p.api.update_load_balancer id
            (instances_request (lb.instances ++ resource ∷ []))
            (after_get w) in
        ((contains lb.instances resource ≡ true)
          × ((ensure_load_balancer_member p id resource w).1 ≡ after_get w))
        ⊎ ((run.0.error ≡ none) × ((ensure_load_balancer_member p id resource w).1 ≡ run.1))
  unfolding ensure_load_balancer_member
  ensure_true lb w (fine, value) e = ground arith

  added-nonempty : (l : List String) → (l ++ resource ∷ []) ≢ []
  added-nonempty [] e = cc
  added-nonempty (m ∷ l) e = cc

  contains-added : (l : List String) → contains (l ++ resource ∷ []) resource ≡ true
  unfolding contains
  contains-added l =
      ground (arith, contains-append l (resource ∷ []) resource, eq_iff resource resource)

  contains-kept :
      (l : List String) (member : String)
      → contains l member ≡ true
      → contains (l ++ resource ∷ []) member ≡ true
  contains-kept l member h = rw (contains-append l (resource ∷ []) member, h) refl

  -- Where the load balancer is stored, `EnsureLoadBalancerMember` that returns true leaves it with
  -- the resource among its members and with all members that it had.
  pub ensure-Member :
      StoresMembers p.api id
      → (lb : LoadBalancer) (w : W) → Stored p.api id lb w
      → (ensure_load_balancer_member p id resource w).0 ≡ ok true
      → (lb' : LoadBalancer) × Stored p.api id lb' (ensure_load_balancer_member p id resource w).1
        × (contains lb'.instances resource ≡ true)
        × ((member : String)
            → contains lb.instances member ≡ true
            → contains lb'.instances member ≡ true)
  ensure-Member stores lb w stored e = elim (ensure_true lb w stored e) [
    | inl (already, same) ↦ rw same (lb, stores.get-get lb w stored, already, λ member h. h)
    | inr (updated, after) ↦ rw after (
      record lb { instances = lb.instances ++ resource ∷ [] },
      stores.get-update lb _ (after_get w) (stores.get-get lb w stored)
          (added-nonempty lb.instances) updated,
      contains-added lb.instances,
      contains-kept lb.instances,
    )
  ]

  contains-remaining :
      (l : List String) (member : String)
      → contains (remaining_members resource l) member
        ≡ (not (resource == member) && contains l member)
  unfolding contains remaining_members
  contains-remaining [] member = ground arith
  contains-remaining (m ∷ l) member = ground (
    arith,
    contains-remaining l member,
    eq_iff m resource,
    eq_iff resource member,
    eq_iff m member,
  )

  remaining_le : (l : List String) → length (remaining_members resource l) ≤ length l
  unfolding remaining_members
  remaining_le [] = omega arith
  remaining_le (m ∷ l) = ground (arith, remaining_le l)

  remaining_lt :
      (l : List String)
      → contains l resource ≡ true
      → length (remaining_members resource l) < length l
  unfolding contains remaining_members
  remaining_lt [] h = cc
  remaining_lt (m ∷ l) h = ground (arith, remaining_lt l, remaining_le l)

  length-remaining :
      (l : List String)
      → contains l resource ≡ true
      → (length (remaining_members resource l) == length l) ≡ false
  length-remaining l h = nat_neq _ _ (remaining_lt l h)

  -- What `RemoveLoadBalancerMember` has done where it ends without an error.
  remove_ok :
      (lb : LoadBalancer) (w : W)
      → id ≢ ""
      → Stored p.api id lb w
      → (remove_load_balancer_member p id resource w).0 ≡ ok tt
      → let remaining = remaining_members resource lb.instances in
        let run = p.api.update_load_balancer id (instances_request remaining) (after_get w) in
        (((contains lb.instances resource ≡ false) ⊎ (remaining ≡ []))
          × ((remove_load_balancer_member p id resource w).1 ≡ after_get w))
        ⊎ ((remaining ≢ [])
            × (run.0.error ≡ none)
            × ((remove_load_balancer_member p id resource w).1 ≡ run.1))
  unfolding remove_load_balancer_member
  remove_ok lb w named (fine, value) e = ground (
    arith,
    eq_iff id "",
    length-remaining lb.instances,
    Bool-cases (contains lb.instances resource),
  )

  absent_lem :
      (l : List String) (member : String)
      → contains l resource ≡ false
      → contains l member ≡ (not (resource == member) && contains l member)
  absent_lem l member h = go (resource == member) refl
    where
      go : (b : Bool) → (resource == member) ≡ b → contains l member ≡ (not b && contains l member)
      go true same = sym (ap (contains l) ((eq_iff resource member).0 same)) ∙ h
      go false differ = refl

  -- Where the load balancer is stored, `RemoveLoadBalancerMember` that ends without an error leaves
  -- it with the members that it had less the resource, or, if it had no other member, as it was.
  pub remove-Member :
      StoresMembers p.api id
      → (lb : LoadBalancer) (w : W) → id ≢ ""
      → Stored p.api id lb w
      → (remove_load_balancer_member p id resource w).0 ≡ ok tt
      → (lb' : LoadBalancer) × Stored p.api id lb' (remove_load_balancer_member p id resource w).1
        × (((member : String)
              → contains lb'.instances member
                ≡ (not (resource == member) && contains lb.instances member))
            ⊎ ((lb' ≡ lb) × (remaining_members resource lb.instances ≡ [])))
  remove-Member stores lb w named stored e = elim (remove_ok lb w named stored e) [
    | inl (inl absent, same) ↦
        rw same
          (lb, stores.get-get lb w stored, inl (λ member. absent_lem lb.instances member absent))
    | inl (inr sole, same) ↦ rw same (lb, stores.get-get lb w stored, inr (refl, sole))
    | inr (left, updated, after) ↦ rw after (
      record lb { instances = remaining_members resource lb.instances },
      stores.get-update lb _ (after_get w) (stores.get-get lb w stored) left updated,
      inl (contains-remaining lb.instances),
    )
  ]
