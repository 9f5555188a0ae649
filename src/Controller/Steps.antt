-- ===== src/Controller/Steps.antt =====
-- What the steps of a reconcile do to the servers of the account.
use cluster_api_provider_vul.Base.{◌≡◌, refl, String, List}
use cluster_api_provider_vul.Base.Exec.{Exec}
use cluster_api_provider_vul.Base.Respects.{Preorder, Respects}
use cluster_api_provider_vul.Kube.{Env, EventType}
use cluster_api_provider_vul.Kube.Actions.{get_object, modify, emit, in_world}
use cluster_api_provider_vul.Services.Account.{Ownership, here, next, lose, run_order, shrink_order}

module _ {W O I : Type 0} (own : Ownership I) (items : W → List I) where
  abbrev pub env_order : Preorder (Env W O)
  env_order = run_order own (λ s. items s.world)

  -- An action that leaves the world alone.
  pub quiet-Respects :
      {A : Type 0} (m : Exec (Env W O) A)
      → ((s : Env W O) → (m s).1.world ≡ s.world)
      → Respects env_order m
  unfolding run_order
  quiet-Respects m h = record { run = λ s. rw (h s) here }

  pub get-Respects : Respects env_order get_object
  unfolding get_object
  get-Respects = quiet-Respects get_object (λ s. refl)

  pub modify-Respects : (f : O → O) → Respects env_order (modify f)
  unfolding modify
  modify-Respects f = quiet-Respects (modify f) (λ s. refl)

  pub emit-Respects :
      (type : EventType) (reason action : String) → Respects env_order (emit type reason action)
  unfolding emit
  emit-Respects type reason action = quiet-Respects (emit type reason action) (λ s. refl)

  pub in_world-Respects :
      {A : Type 0} (m : Exec W A)
      → Respects (shrink_order own.owned items) m
      → Respects env_order (in_world m)
  unfolding run_order shrink_order in_world
  in_world-Respects m h = record { run = λ s. next here (lose (h.run s.world)) }
