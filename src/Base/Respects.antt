-- ===== src/Base/Respects.antt =====
-- What every run of a function keeps, whatever its outcome: a relation between the states before
-- and after.
use mathlib.Core.Path.{◌≡◌, refl}
use mathlib.Core.Bool.{Bool, true, false}
use mathlib.Core.Option.{Option, none, some}
use cluster_api_provider_vul.Base.Tests.{if◌then◌else◌}
use cluster_api_provider_vul.Base.Errors.{GoError, Outcome, ok, err, panic, out_of_fuel}
use cluster_api_provider_vul.Base.Exec.{
  Exec, pure, raise, panics, stops, call, continue, rescue, ◌>>=◌, on_error,
}

-- A reflexive and transitive relation between states.
pub record Preorder (S : Type 0) : Type 1 where
  pub rel : S → S → Type 0
  pub reflexive : (s : S) → rel s s
  pub transitive : (s t u : S) → rel s t → rel t u → rel s u

module _ {S : Type 0} (o : Preorder S) where
  pub record Respects {A : Type 0} (m : Exec S A) : Type 0 where
    pub run : (s : S) → o.rel s (m s).1

module _ {S : Type 0} {o : Preorder S} {A : Type 0} where
  pub pure-Respects : (a : A) → Respects o (pure {S = S} a)
  unfolding pure
  pure-Respects a = record { run = λ s. o.reflexive s }

  pub raise-Respects : (e : GoError) → Respects o (raise {S = S} {A = A} e)
  unfolding raise
  raise-Respects e = record { run = λ s. o.reflexive s }

  pub panics-Respects : Respects o (panics {S = S} {A = A})
  unfolding panics
  panics-Respects = record { run = λ s. o.reflexive s }

  pub stops-Respects : Respects o (stops {S = S} {A = A})
  unfolding stops
  stops-Respects = record { run = λ s. o.reflexive s }

  pub call-Respects : (f : S → A × S) → ((s : S) → o.rel s (f s).1) → Respects o (call f)
  unfolding call
  call-Respects f h = record { run = h }

  pub if-Respects :
      (b : Bool) (m n : Exec S A) → Respects o m → Respects o n → Respects o (if b then m else n)
  if-Respects true m n hm hn = hm
  if-Respects false m n hm hn = hn

module _ {S : Type 0} (o : Preorder S) {A B : Type 0} where
  -- The state after a bind is that after its first part, or that after the rest.
  bind_lem :
      (m : Exec S A) (f : A → Exec S B) (s : S)
      → ((a : A) → (m s).0 ≡ ok a → o.rel (m s).1 (f a (m s).1).1)
      → o.rel (m s).1 ((m >>= f) s).1
  unfolding ◌>>=◌
  bind_lem m f s h = go (m s).0 refl
    where
      go : (r : Outcome A) → (m s).0 ≡ r → o.rel (m s).1 (continue r f (m s).1).1
      go (ok a) e = h a e
      go (err x) e = o.reflexive (m s).1
      go panic e = o.reflexive (m s).1
      go out_of_fuel e = o.reflexive (m s).1

  rescue_lem :
      (m : Exec S A) (g : GoError → Exec S B) (f : A → Exec S B) (s : S)
      → ((e : GoError) → o.rel (m s).1 (g e (m s).1).1)
      → ((a : A) → (m s).0 ≡ ok a → o.rel (m s).1 (f a (m s).1).1)
      → o.rel (m s).1 (on_error m g f s).1
  unfolding on_error
  rescue_lem m g f s hg hf = go (m s).0 refl
    where
      go : (r : Outcome A) → (m s).0 ≡ r → o.rel (m s).1 (rescue r f g (m s).1).1
      go (ok a) e = hf a e
      go (err x) e = hg x
      go panic e = o.reflexive (m s).1
      go out_of_fuel e = o.reflexive (m s).1

module _ {S : Type 0} (o : Preorder S) {A B : Type 0} where
  -- A bind at one state: what follows may rely on the state that its first part leaves.
  pub bind-at :
      (m : Exec S A) (f : A → Exec S B) (s : S)
      → o.rel s (m s).1
      → ((a : A) → (m s).0 ≡ ok a → o.rel (m s).1 (f a (m s).1).1)
      → o.rel s ((m >>= f) s).1
  bind-at m f s first rest = o.transitive s (m s).1 ((m >>= f) s).1 first (bind_lem o m f s rest)

  pub on_error-at :
      (m : Exec S A) (g : GoError → Exec S B) (f : A → Exec S B) (s : S)
      → o.rel s (m s).1
      → ((e : GoError) → o.rel (m s).1 (g e (m s).1).1)
      → ((a : A) → (m s).0 ≡ ok a → o.rel (m s).1 (f a (m s).1).1)
      → o.rel s (on_error m g f s).1
  on_error-at m g f s first caught rest =
      o.transitive s (m s).1 (on_error m g f s).1 first (rescue_lem o m g f s caught rest)

module _ {S : Type 0} {o : Preorder S} {A B : Type 0} where
  pub bind-Respects :
      (m : Exec S A) (f : A → Exec S B)
      → Respects o m
      → ((a : A) → Respects o (f a))
      → Respects o (m >>= f)
  bind-Respects m f hm hf = record {
    run = λ s. bind-at o m f s (hm.run s) (λ a _. (hf a).run (m s).1);
  }

  pub on_error-Respects :
      (m : Exec S A) (g : GoError → Exec S B) (f : A → Exec S B)
      → Respects o m
      → ((e : GoError) → Respects o (g e))
      → ((a : A) → Respects o (f a))
      → Respects o (on_error m g f)
  on_error-Respects m g f hm hg hf = record {
    run =
        λ s. on_error-at o m g f s (hm.run s) (λ e. (hg e).run (m s).1) (λ a _. (hf a).run (m s).1);
  }

module _ {S : Type 0} {o : Preorder S} {A B : Type 0} where
  pub option-Respects :
      (x : Option A) (m : Exec S B) (f : A → Exec S B)
      → Respects o m
      → ((a : A) → Respects o (f a))
      → (let run : Exec S B = elim x [ none ↦ m | some a ↦ f a ] in Respects o run)
  option-Respects none m f hm hf = hm
  option-Respects (some a) m f hm hf = hf a
