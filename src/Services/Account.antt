-- ===== src/Services/Account.antt =====
-- An abstract view of the account: the instances, or the servers, that each machine owns, and the
-- steps that a provider which never starts a second one for a machine may take.
use cluster_api_provider_vul.Base.{
  ◌≡◌, ◌≤◌, ℕ, ◌+◌, Bool, true, false, ◌⊎◌, inl, inr, Bool-cases, List, [], ◌∷◌, select, length,
  refl, if◌then◌else◌, arith,
}
use cluster_api_provider_vul.Base.Respects.{Preorder}
use cluster_api_provider_vul.Api.Tags.{BuildTagParams}

-- How a machine, by the parameters of its tags, knows what is its own, which machines share the
-- account, and what is made for one of them.
pub record Ownership (A : Type 0) : Type 1 where
  pub owned : BuildTagParams → A → Bool
  pub among : BuildTagParams → Type 0
  pub made : BuildTagParams → A → Type 0

-- What names a machine decides what it owns, and what is made for one machine no other owns.
pub record Separates {A : Type 0} (own : Ownership A) : Type 0 where
  pub owned-same :
      (p q : BuildTagParams) (a : A)
      → p.name ≡ q.name
      → p.cluster_uid ≡ q.cluster_uid
      → own.owned p a ≡ own.owned q a
  pub owned-Made :
      (p q : BuildTagParams) (a : A)
      → own.among p
      → own.among q
      → own.made p a
      → own.owned q a ≡ true
      → (p.name ≡ q.name) × (p.cluster_uid ≡ q.cluster_uid)

module _ {A : Type 0} (owned : BuildTagParams → A → Bool) where
  -- How many of them a machine takes for its own.
  unfoldable pub owned_count : BuildTagParams → List A → ℕ
  owned_count params l = length (select (owned params) l)

  -- No machine has more than before.
  pub record Shrinks (before after : List A) : Type 0 where
    pub no_more : (params : BuildTagParams) → owned_count params after ≤ owned_count params before

module _ {A : Type 0} (own : Ownership A) where
  -- One step: some go, or one is launched for a machine that has none.
  pub data Step (l l' : List A) : Type 0 where
    lose : Shrinks own.owned l l' → Step l l'
    launch :
        (params : BuildTagParams) (a : A)
        → own.among params
        → owned_count own.owned params l ≡ 0
        → own.made params a
        → l' ≡ a ∷ l
        → Step l l'

  pub data Run (l : List A) : List A → Type 0 where
    here : Run l l
    next : {l' l'' : List A} → Run l l' → Step l' l'' → Run l l''

  -- Every machine of the account owns at most one of them.
  pub record AtMostOne (l : List A) : Type 0 where
    pub at_most_one :
        (params : BuildTagParams) → own.among params → owned_count own.owned params l ≤ 1

module _ {A : Type 0} {owned : BuildTagParams → A → Bool} where
  pub Shrinks-refl : (l : List A) → Shrinks owned l l
  Shrinks-refl l = record { no_more = λ params. omega arith }

  pub Shrinks-trans :
      {l l' l'' : List A} → Shrinks owned l l' → Shrinks owned l' l'' → Shrinks owned l l''
  Shrinks-trans f g = record {
    no_more = λ params. let one = f.no_more params in let two = g.no_more params in omega arith;
  }

  pub none-kept :
      (params : BuildTagParams) {l l' : List A}
      → Shrinks owned l l'
      → owned_count owned params l ≡ 0
      → owned_count owned params l' ≡ 0
  none-kept params s none_before = let fewer = s.no_more params in omega arith

module _ {A : Type 0} {own : Ownership A} where
  pub Run-trans : {l l' l'' : List A} → Run own l l' → Run own l' l'' → Run own l l''
  Run-trans r here = r
  Run-trans r (next r' s) = next (Run-trans r r') s

  pub run_of_shrinks : {l l' : List A} → Shrinks own.owned l l' → Run own l l'
  run_of_shrinks s = next here (lose s)

module _ {A : Type 0} (owned : BuildTagParams → A → Bool) {W : Type 0} (items : W → List A) where
  -- The order on worlds for the calls that start none.
  unfoldable pub shrink_order : Preorder W
  shrink_order = record {
    rel = λ w w'. Shrinks owned (items w) (items w');
    reflexive = λ w. Shrinks-refl (items w);
    transitive = λ w w' w''. Shrinks-trans;
  }

module _ {A : Type 0} (own : Ownership A) {W : Type 0} (items : W → List A) where
  -- The order on worlds: from one to the other lead only such steps.
  unfoldable pub run_order : Preorder W
  unfolding Run-trans
  run_order = record {
    rel = λ w w'. Run own (items w) (items w');
    reflexive = λ w. here;
    transitive = λ w w' w''. Run-trans;
  }

-- No machine comes to own two.
module _ {A : Type 0} {own : Ownership A} (separates : Separates own) where
  owned_count-same :
      (p q : BuildTagParams) (l : List A)
      → p.name ≡ q.name
      → p.cluster_uid ≡ q.cluster_uid
      → owned_count own.owned p l ≡ owned_count own.owned q l
  unfolding owned_count select
  owned_count-same p q [] name uid = refl
  owned_count-same p q (a ∷ l) name uid =
      rw (separates.owned-same p q a name uid) (ground (arith, owned_count-same p q l name uid))

  owned_count-cons :
      (q : BuildTagParams) (a : A) (l : List A)
      → owned_count own.owned q (a ∷ l)
        ≡ (if own.owned q a then 1 + owned_count own.owned q l else owned_count own.owned q l)
  unfolding owned_count select
  owned_count-cons q a l = ground arith

  pub Step-AtMostOne : {l l' : List A} → Step own l l' → AtMostOne own l → AtMostOne own l'
  Step-AtMostOne (lose s) one = record {
    at_most_one =
        λ q among. let before = one.at_most_one q among in let fewer = s.no_more q in omega arith;
  }
  Step-AtMostOne {l} (launch p a from none_owned made grown) one = record {
    at_most_one = λ q to. rw grown (at q to (Bool-cases (own.owned q a)));
  }
    where
      at :
          (q : BuildTagParams)
          → own.among q
          → (own.owned q a ≡ true) ⊎ (own.owned q a ≡ false)
          → owned_count own.owned q (a ∷ l) ≤ 1
      at q to (inr e) =
          let before = one.at_most_one q to in
          let count = owned_count-cons q a l in ground (arith, e, before, count)
      at q to (inl e) =
          let (name, uid) = separates.owned-Made p q a from to made e in
          let same = owned_count-same p q l name uid in
          let count = owned_count-cons q a l in ground (arith, e, same, count, none_owned)

  pub Run-AtMostOne : {l l' : List A} → Run own l l' → AtMostOne own l → AtMostOne own l'
  Run-AtMostOne here one = one
  Run-AtMostOne (next r s) one = Step-AtMostOne s (Run-AtMostOne r one)
