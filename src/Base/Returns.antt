-- ===== src/Base/Returns.antt =====
-- What the value of every run that returns one satisfies.
use mathlib.Core.Path.{◌≡◌, sym, ◌∙◌, subst, ap}
use mathlib.Core.Bool.{Bool, true, false}
use mathlib.Core.Logic.{inl, inr}
use mathlib.Core.Option.{Option, none, some}
use cluster_api_provider_vul.Base.Tests.{if◌then◌else◌}
use cluster_api_provider_vul.Base.Errors.{GoError, Outcome, ok, err, panic, out_of_fuel}
use cluster_api_provider_vul.Base.Exec.{Exec, pure, raise, on_error, rescue, ◌>>=◌, bind-cases}

module _ {S A : Type 0} (P : A → Type 0) where
  pub record Returns (m : Exec S A) : Type 0 where
    pub holds : (s : S) (a : A) → (m s).0 ≡ ok a → P a

module _ {S A : Type 0} {P : A → Type 0} where
  pub pure-Returns : (a : A) → P a → Returns P (pure {S = S} a)
  unfolding pure
  pure-Returns a h = record { holds = λ s b e. let same : a ≡ b = cc in subst P same h }

  pub raise-Returns : (e : GoError) → Returns P (raise {S = S} e)
  unfolding raise
  raise-Returns e = record { holds = λ s b same. absurd cc }

  pub if-Returns :
      (b : Bool) (m n : Exec S A) → Returns P m → Returns P n → Returns P (if b then m else n)
  if-Returns true m n hm hn = hm
  if-Returns false m n hm hn = hn

module _ {S A B : Type 0} {P : A → Type 0} where
  -- A bind returns what its last part returns, of the values that its first part may return.
  pub bind-known :
      (Q : B → Type 0) (m : Exec S B) (f : B → Exec S A)
      → Returns Q m
      → ((b : B) → Q b → Returns P (f b))
      → Returns P (m >>= f)
  bind-known Q m f hm hf = record {
    holds = λ s a e. elim (bind-cases m f s) [
      | inl (b, ran, rest) ↦
          (hf b (hm.holds s b ran)).holds (m s).1 a (sym (ap (λ (x : Outcome A × S). x.0) rest) ∙ e)
      | inr (same, none_returned) ↦ absurd (none_returned a e)
    ];
  }

  pub bind-Returns :
      (m : Exec S B) (f : B → Exec S A) → ((b : B) → Returns P (f b)) → Returns P (m >>= f)
  bind-Returns m f hf =
      bind-known (λ b. Unit {0}) m f (record { holds = λ s b e. tt }) (λ b _. hf b)

  pub on_error-Returns :
      (m : Exec S B) (g : GoError → Exec S A) (f : B → Exec S A)
      → ((e : GoError) → Returns P (g e))
      → ((b : B) → Returns P (f b))
      → Returns P (on_error m g f)
  unfolding on_error
  on_error-Returns m g f hg hf = record { holds = λ s. at (m s).0 (m s).1 }
    where
      at : (r : Outcome B) (t : S) (a : A) → (rescue r f g t).0 ≡ ok a → P a
      at (ok b) t a e = (hf b).holds t a e
      at (err x) t a e = (hg x).holds t a e
      at panic t a e = absurd cc
      at out_of_fuel t a e = absurd cc

module _ {S A B : Type 0} {P : B → Type 0} where
  pub option-Returns :
      (x : Option A) (m : Exec S B) (f : A → Exec S B)
      → Returns P m
      → ((a : A) → Returns P (f a))
      → (let run : Exec S B = elim x [ none ↦ m | some a ↦ f a ] in Returns P run)
  option-Returns none m f hm hf = hm
  option-Returns (some a) m f hm hf = hf a
