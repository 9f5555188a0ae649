-- ===== src/Base/Errors.antt =====
-- Go's `error` values as the provider makes them, and what a Go call can come to.
use Prim.Native.Nat.{ℕ}
use Prim.Native.String.{String}
use mathlib.Core.List.{List, []}

-- An operand of a format string.
pub data Arg : Type 0 where
  str : String → Arg
  int : ℕ → Arg
  strs : List String → Arg

-- A format string and its operands: what `Sprintf` is given.
pub record Format : Type 0 where
  pub format : String
  pub args : List Arg

abbrev pub plain : String → Format
plain s = record { format = s; args = [] }

abbrev pub sprintf : String → List Arg → Format
sprintf s l = record { format = s; args = l }

-- `errors.New` and `errors.Errorf`; `errors.Wrap`, `errors.Wrapf` and `fmt.Errorf` with `%w`; and an
-- error that a library returned, with its text.
pub data GoError : Type 0 where
  errorf : Format → GoError
  wrapf : Format → GoError → GoError
  foreign : String → GoError

-- A call returns a value or an error, panics, or has a loop that used up the model's fuel.
pub data Outcome {ℓ} (A : Type ℓ) : Type ℓ where
  ok : A → Outcome A
  err : GoError → Outcome A
  panic : Outcome A
  out_of_fuel : Outcome A
