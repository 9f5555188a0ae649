-- ===== src/Tests/Keeping.antt =====
-- What a sample account keeps when it deletes or lists by a test.
use mathlib.Core.List.{Memᴰ}
use mathlib.Core.List.Memᴰ.{head, tail, not-nil}
use cluster_api_provider_vul.Base.{
  ◌≡◌, sym, ap, ◌∙◌, ◌≤◌, Bool, true, false, List, [], ◌∷◌, length, select, arith, if◌then◌else◌,
}
use cluster_api_provider_vul.Tests.Sample.{keep}

pub keep-fewer :
    {A : Type 0} (f g : A → Bool) (l : List A) → length (select f (keep g l)) ≤ length (select f l)
unfolding select
keep-fewer f g [] = omega arith
keep-fewer f g (i ∷ l) = ground (arith, keep-fewer f g l)

pub mem-keep :
    {A : Type 0} (f : A → Bool) (i : A) (l : List A) → Memᴰ i l → f i ≡ true → Memᴰ i (keep f l)
mem-keep f i [] m e = absurd (not-nil m)
mem-keep f i (j ∷ l) (head same) e = rw (sym (ap f same) ∙ e) (head same)
mem-keep {A} f i (j ∷ l) (tail m) e = put (f j) (mem-keep f i l m e)
  where
    put : (b : Bool) → Memᴰ i (keep f l) → Memᴰ i (if b then j ∷ keep f l else keep f l)
    put true rest = tail rest
    put false rest = rest
