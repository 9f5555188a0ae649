-- ===== src/Kube/Actions.antt =====
-- The steps of a reconciler on its state: reading and changing the object in memory, recording an
-- event, and calling a function that knows the world alone.
use cluster_api_provider_vul.Base.{
  Outcome, ok, err, panic, out_of_fuel, GoError, Option, none, some, String, errorf, plain, ◌++◌,
  [], ◌∷◌,
}
use cluster_api_provider_vul.Base.Exec.{Exec, raise, pure, call, ◌>>=◌}
use cluster_api_provider_vul.Kube.{Env, EventType}

module _ {W O : Type 0} where
  unfoldable pub get_object : Exec (Env W O) O
  get_object s = (ok s.object, s)

  unfoldable pub modify : (O → O) → Exec (Env W O) (Unit {0})
  modify f s = (ok tt, record s { object = f s.object })

  unfoldable pub emit : EventType → String → String → Exec (Env W O) (Unit {0})
  emit type reason action s = (
    ok tt,
    record s {
      events = s.events ++ (record { type = type; reason = reason; action = action } ∷ []);
    },
  )

module _ {W O A : Type 0} where
  unfoldable pub in_world : Exec W A → Exec (Env W O) A
  in_world m s = let (r, w) = m s.world in (r, record s { world = w })

module _ {W : Type 0} where
  -- `return ctrl.Result{}, err` of a call that returns only an error
  unfoldable pub fail_with : Option GoError → Exec W (Unit {0})
  unfolding raise pure
  fail_with none = pure tt
  fail_with (some e) = raise e

  -- A call of which only the error is used.
  unfoldable pub returned : (W → Option GoError × W) → Exec W (Unit {0})
  unfolding fail_with ◌>>=◌
  returned f = call f >>= fail_with

module _ {W A : Type 0} where
  -- `if x == nil { return nil, errors.New(…) }`
  unfoldable pub require : String → Option A → Exec W A
  unfolding raise pure
  require message none = raise (errorf (plain message))
  require message (some a) = pure a

module _ {S A : Type 0} where
  abbrev pub after_close : Outcome A → Outcome (Unit {0}) × S → Outcome A × S
  after_close (ok a) (ok u, s) = (ok a, s)
  after_close (ok a) (err e, s) = (err e, s)
  after_close (ok a) (panic, s) = (panic, s)
  after_close (ok a) (out_of_fuel, s) = (out_of_fuel, s)
  after_close (err e) (r, s) = (err e, s)
  after_close panic (r, s) = (panic, s)
  after_close out_of_fuel (r, s) = (out_of_fuel, s)

  -- `defer` of a `Close` whose error is returned unless there is one already. It runs after a
  -- panic too.
  unfoldable pub deferring : Exec S (Unit {0}) → Exec S A → Exec S A
  deferring close m s = let (r, s') = m s in after_close r (close s')

-- A reconcile of an object that was fetched: from here on there is an object in memory.
module _ {W O A : Type 0} where
  unfoldable pub with_object : O → Exec (Env W O) A → Exec (Env W (Option O)) A
  with_object o m s =
      let (r, s') = m (record { world = s.world; object = o; events = s.events }) in
      (r, record { world = s'.world; object = some s'.object; events = s'.events })
