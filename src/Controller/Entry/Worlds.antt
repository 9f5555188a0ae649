-- ===== src/Controller/Entry/Worlds.antt =====
-- An order on worlds, seen on the states of a `Reconcile`.
use cluster_api_provider_vul.Base.{◌≡◌, refl, string_eq, Option, none, some, GoError}
use cluster_api_provider_vul.Base.Exec.{Exec}
use cluster_api_provider_vul.Base.Respects.{Preorder, Respects, pure-Respects, raise-Respects}
use cluster_api_provider_vul.Kube.{Env}
use cluster_api_provider_vul.Kube.Actions.{in_world, fail_with, deferring, with_object}
use cluster_api_provider_vul.Controller.Entry.Closing.{state-deferring}

module _ {W : Type 0} (o : Preorder W) where
  -- An order on worlds, seen on the states of a reconcile.
  unfoldable pub on_world : {O : Type 0} → Preorder (Env W O)
  on_world = record {
    rel = λ s t. o.rel s.world t.world;
    reflexive = λ s. o.reflexive s.world;
    transitive = λ s t u. o.transitive s.world t.world u.world;
  }

  pub in_world-Respects :
      {O A : Type 0} (m : Exec W A) → Respects o m → Respects (on_world {O = O}) (in_world m)
  unfolding on_world in_world
  in_world-Respects m h = record { run = λ s. h.run s.world }

  pub fail_with-Respects : (e : Option GoError) → Respects o (fail_with e)
  unfolding fail_with
  fail_with-Respects none = pure-Respects tt
  fail_with-Respects (some e) = raise-Respects e

  -- Only the runs from the object count.
  pub with_object-Respects :
      {O A : Type 0} (x : O) (m : Exec (Env W O) A)
      → ((s : Env W O) → s.object ≡ x → o.rel s.world (m s).1.world)
      → Respects (on_world {O = Option O}) (with_object x m)
  unfolding on_world with_object
  with_object-Respects x m h = record {
    run = λ s. h (record { world = s.world; object = x; events = s.events }) refl;
  }

module _ {S A : Type 0} (o : Preorder S) where
  pub deferring-at :
      (close : Exec S (Unit {0})) (m : Exec S A) (s : S)
      → Respects o close
      → o.rel s (m s).1
      → o.rel s (deferring close m s).1
  unfolding deferring
  deferring-at close m s hc ran =
      rw (state-deferring close m s) (o.transitive s (m s).1 (close (m s).1).1 ran (hc.run (m s).1))
