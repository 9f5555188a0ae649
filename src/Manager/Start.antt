-- ===== src/Manager/Start.antt =====
-- When the manager of the process is started, and how the process ends.
use cluster_api_provider_vul.Base.{
  ◌≡◌, ℕ, refl, List, [], ◌∷◌, ◌++◌, ◌⊎◌, inl, inr, Option, none, some, GoError, arith,
}
use cluster_api_provider_vul.Base.Exec.{◌>>=◌, on_error}
use cluster_api_provider_vul.Kube.Actions.{fail_with, returned}
use cluster_api_provider_vul.Controller.Watches.{
  cluster_controller, machine_controller, bare_metal_machine_controller, setup_cluster,
  setup_machine, setup_bare_metal_machine,
}
use cluster_api_provider_vul.Manager.{Flags, Runtime, manager_options, reconciler, run, main}

module _ {W : Type 0} where
  -- Calls one after another until one returns an error: the exit code 1 then, and 0 at the end.
  abbrev pub until_error : List (W → Option GoError × W) → W → ℕ × W
  until_error [] w = (0, w)
  until_error (f ∷ fs) w = elim (f w).0 [ none ↦ until_error fs (f w).1 | some e ↦ (1, (f w).1) ]

  -- All the calls return no error, one after another.
  abbrev pub Succeed : List (W → Option GoError × W) → W → Type 0
  Succeed [] w = Unit {0}
  Succeed (f ∷ fs) w = ((f w).0 ≡ none) × Succeed fs (f w).1

  -- The world after all the calls.
  abbrev pub after_all : List (W → Option GoError × W) → W → W
  after_all [] w = w
  after_all (f ∷ fs) w = after_all fs (f w).1

  -- How the process ends with its last call: the exit code, and the world.
  abbrev pub ended : Option GoError × W → ℕ × W
  ended (none, w) = (0, w)
  ended (some e, w) = (1, w)

  -- Calls before a last one that all succeed lead to the last one, and any other ones hide it.
  last_lem :
      (fs : List (W → Option GoError × W)) (last other : W → Option GoError × W) (w : W)
      → (Succeed fs w × (until_error (fs ++ last ∷ []) w ≡ ended (last (after_all fs w))))
        ⊎ (((until_error (fs ++ last ∷ []) w).0 ≡ 1)
            × (until_error (fs ++ other ∷ []) w ≡ until_error (fs ++ last ∷ []) w))
  last_lem [] last other w = inl (tt, only (last w))
    where
      only :
          (r : Option GoError × W)
          → (let x : ℕ × W = elim r.0 [ none ↦ (0, r.1) | some e ↦ (1, r.1) ] in x ≡ ended r)
      only (none, w') = refl
      only (some e, w') = refl
  last_lem (f ∷ fs) last other w = at (f w).0 refl (last_lem fs last other (f w).1)
    where
      Led : List (W → Option GoError × W) → W → Type 0
      Led gs v =
          (Succeed gs v × (until_error (gs ++ last ∷ []) v ≡ ended (last (after_all gs v))))
          ⊎ (((until_error (gs ++ last ∷ []) v).0 ≡ 1)
              × (until_error (gs ++ other ∷ []) v ≡ until_error (gs ++ last ∷ []) v))

      at : (r : Option GoError) → (f w).0 ≡ r → Led fs (f w).1 → Led (f ∷ fs) w
      at none fine rest =
          rw fine (elim rest [ inl (all, e) ↦ inl ((refl, all), e) | inr hidden ↦ inr hidden ])
      at (some e) failed rest = rw failed (inr (refl, refl))

  -- What has to succeed before the manager is started.
  abbrev pub preparations : Runtime W → Flags → List (W → Option GoError × W)
  preparations r flags =
      r.new_manager (manager_options flags)
      ∷ r.builder.complete cluster_controller (reconciler r flags "vultrcluster-controller")
      ∷ r.builder.cluster_to_typed_objects_mapper "VultrMachineList"
      ∷ r.builder.complete machine_controller (reconciler r flags "vultrmachine-controller")
      ∷ r.builder.cluster_to_typed_objects_mapper "VultrBareMetalMachineList"
      ∷ r.builder.complete bare_metal_machine_controller
          (reconciler r flags "vultrbaremetalmachine-controller")
      ∷ r.add_healthz_check "healthz"
      ∷ r.add_readyz_check "readyz"
      ∷ []

  main_lem :
      (r : Runtime W) (flags : Flags) (w : W)
      → main r flags w ≡ until_error (preparations r flags ++ r.start ∷ []) w
  unfolding main run setup_cluster setup_machine setup_bare_metal_machine returned fail_with ◌>>=◌
      on_error
  main_lem r flags w = ground arith

  -- Either every call that sets the manager up, its three controllers and both checks included,
  -- returns no error, and the process ends with the run of the manager, with exit code 0 if that
  -- returns no error and 1 if it does; or the process ends with exit code 1 and does not start the
  -- manager: with any other start of it the exit code and the world are the same.
  pub main-Starts :
      (r : Runtime W) (flags : Flags) (w : W) (other : W → Option GoError × W)
      → (Succeed (preparations r flags) w
          × (main r flags w ≡ ended (r.start (after_all (preparations r flags) w))))
        ⊎ (((main r flags w).0 ≡ 1) × (main (record r { start = other }) flags w ≡ main r flags w))
  main-Starts r flags w other =
      rw (main_lem r flags w, main_lem (record r { start = other }) flags w)
        (last_lem (preparations r flags) r.start other w)
