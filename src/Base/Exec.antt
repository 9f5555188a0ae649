-- ===== src/Base/Exec.antt =====
-- Go functions that read and change a state: what was written before an early return stays
-- written, so the state comes back beside an error too.
use mathlib.Core.Path.{◌≡◌, refl, sym, subst}
use mathlib.Core.Logic.{◌≢◌, ◌⊎◌, inl, inr}
use cluster_api_provider_vul.Base.Errors.{GoError, Outcome, ok, err, panic, out_of_fuel}

abbrev pub Exec {ℓ} : Type ℓ → Type ℓ → Type ℓ
Exec S A = S → Outcome A × S

module _ {ℓ} {S A : Type ℓ} where
  unfoldable pub pure : A → Exec S A
  pure a s = (ok a, s)

  -- `return …, err`
  unfoldable pub raise : GoError → Exec S A
  raise e s = (err e, s)

  -- A nil pointer is dereferenced, or an index is out of range.
  unfoldable pub panics : Exec S A
  panics s = (panic, s)

  unfoldable pub stops : Exec S A
  stops s = (out_of_fuel, s)

  -- A call whose error is a value among its results.
  unfoldable pub call : (S → A × S) → Exec S A
  call f s = let (a, s') = f s in (ok a, s')

module _ {ℓ} {S A B : Type ℓ} where
  abbrev pub continue : Outcome A → (A → Exec S B) → Exec S B
  continue (ok a) f s = f a s
  continue (err e) f s = (err e, s)
  continue panic f s = (panic, s)
  continue out_of_fuel f s = (out_of_fuel, s)

  infixl 10 ◌>>=◌ ◌>>◌
  -- Opening this opens the actions above too.
  unfoldable pub ◌>>=◌ : Exec S A → (A → Exec S B) → Exec S B
  unfolding pure raise panics stops call
  ◌>>=◌ m f s = let (r, s') = m s in continue r f s'

  abbrev pub ◌>>◌ : Exec S A → Exec S B → Exec S B
  m >> n = m >>= λ _. n

  abbrev pub rescue : Outcome A → (A → Exec S B) → (GoError → Exec S B) → Exec S B
  rescue (ok a) f g s = f a s
  rescue (err e) f g s = g e s
  rescue panic f g s = (panic, s)
  rescue out_of_fuel f g s = (out_of_fuel, s)

  -- `a, err := m; if err != nil { g err } else { f a }`
  unfoldable pub on_error : Exec S A → (GoError → Exec S B) → (A → Exec S B) → Exec S B
  unfolding pure raise panics stops call
  on_error m g f s = let (r, s') = m s in rescue r f g s'

-- A bind whose first part succeeds, or does not.
module _ {ℓ} {S A B : Type ℓ} (m : Exec S A) (f : A → Exec S B) (s : S) where
  pub bind-ok : (a : A) → (m s).0 ≡ ok a → (m >>= f) s ≡ f a (m s).1
  unfolding ◌>>=◌
  bind-ok a e = rw e

  pub bind-err : (e : GoError) → (m s).0 ≡ err e → (m >>= f) s ≡ (err e, (m s).1)
  unfolding ◌>>=◌
  bind-err e h = rw h

  pub bind-panic : (m s).0 ≡ panic → (m >>= f) s ≡ (panic, (m s).1)
  unfolding ◌>>=◌
  bind-panic h = rw h

  pub bind-out_of_fuel : (m s).0 ≡ out_of_fuel → (m >>= f) s ≡ (out_of_fuel, (m s).1)
  unfolding ◌>>=◌
  bind-out_of_fuel h = rw h

-- Either a call returned a value, or what follows it does not run and the state is that of the call.
module _ {ℓ} {S A B : Type ℓ} (m : Exec S A) (f : A → Exec S B) (s : S) where
  bind-cases_at :
      (o : Outcome A)
      → (m s).0 ≡ o
      → ((a : A) × ((m s).0 ≡ ok a) × ((m >>= f) s ≡ f a (m s).1))
        ⊎ ((((m >>= f) s).1 ≡ (m s).1) × ((b : B) → ((m >>= f) s).0 ≢ ok b))
  bind-cases_at (ok a) h = inl (a, h, bind-ok m f s a h)
  bind-cases_at (err e) h = inr (rw (bind-err m f s e h) (refl, λ b p. cc))
  bind-cases_at panic h = inr (rw (bind-panic m f s h) (refl, λ b p. cc))
  bind-cases_at out_of_fuel h = inr (rw (bind-out_of_fuel m f s h) (refl, λ b p. cc))

  pub bind-cases :
      ((a : A) × ((m s).0 ≡ ok a) × ((m >>= f) s ≡ f a (m s).1))
      ⊎ ((((m >>= f) s).1 ≡ (m s).1) × ((b : B) → ((m >>= f) s).0 ≢ ok b))
  bind-cases = bind-cases_at (m s).0 refl

  -- A postcondition of a bind: one for each value that the first part returns, and one for the
  -- outcomes after which the rest does not run.
  pub bind-rule {κ} :
      (Q : Outcome B × S → Type κ)
      → ((a : A) → (m s).0 ≡ ok a → Q (f a (m s).1))
      → ((x : Outcome B × S) → x.1 ≡ (m s).1 → ((b : B) → x.0 ≢ ok b) → Q x)
      → Q ((m >>= f) s)
  bind-rule Q returned stopped = elim bind-cases [
    | inl (a, e, rest) ↦ subst Q (sym rest) (returned a e)
    | inr (same, none_returned) ↦ stopped ((m >>= f) s) same none_returned
  ]
