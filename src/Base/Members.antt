-- ===== src/Base/Members.antt =====
-- The members of a selection.
use mathlib.Core.Path.{◌≡◌, refl, sym, ap, ◌∙◌}
use mathlib.Core.Bool.{Bool, true, false}
use mathlib.Core.List.{List, [], ◌∷◌, Memᴰ}
use mathlib.Core.List.Memᴰ.{head, tail, not-nil}
use native.Mathlib.Omega.{arith}
use cluster_api_provider_vul.Base.Lists.{select, length}
use cluster_api_provider_vul.Base.Tests.{if◌then◌else◌}

module _ {ℓ} {A : Type ℓ} (f : A → Bool) where
  pub mem-select : (a : A) (l : List A) → Memᴰ a l → f a ≡ true → Memᴰ a (select f l)
  unfolding select
  mem-select a [] m e = absurd (not-nil m)
  mem-select a (x ∷ l) (head same) e = rw (sym (ap f same) ∙ e) (head same)
  mem-select a (x ∷ l) (tail m) e = put (f x) (mem-select a l m e)
    where
      put : (b : Bool) → Memᴰ a (select f l) → Memᴰ a (if b then x ∷ select f l else select f l)
      put true rest = tail rest
      put false rest = rest

  pub mem_of_mem-select : (a : A) (l : List A) → Memᴰ a (select f l) → Memᴰ a l × (f a ≡ true)
  unfolding select
  mem_of_mem-select a [] m = absurd (not-nil m)
  mem_of_mem-select a (x ∷ l) m = take (f x) refl (mem_of_mem-select a l) m
    where
      take :
          (b : Bool)
          → f x ≡ b
          → (Memᴰ a (select f l) → Memᴰ a l × (f a ≡ true))
          → Memᴰ a (if b then x ∷ select f l else select f l)
          → Memᴰ a (x ∷ l) × (f a ≡ true)
      take true e rest (head same) = (head same, ap f same ∙ e)
      take true e rest (tail m) = let (t, fine) = rest m in (tail t, fine)
      take false e rest m = let (t, fine) = rest m in (tail t, fine)

  -- None is selected exactly if none passes.
  pub selected-nil : (l : List A) → ((a : A) → Memᴰ a l → f a ≡ false) → length (select f l) ≡ 0
  unfolding select
  selected-nil [] h = refl
  selected-nil (x ∷ l) h = rw (h x (head refl)) (selected-nil l (λ a m. h a (tail m)))

  pub not-selected : (l : List A) → select f l ≡ [] → (a : A) → Memᴰ a l → f a ≡ false
  unfolding select
  not-selected [] e a m = absurd (not-nil m)
  not-selected (x ∷ l) e a (head same) = ground (arith, same, e)
  not-selected (x ∷ l) e a (tail m) = not-selected l (ground (arith, e)) a m
