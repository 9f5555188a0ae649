-- ===== src/Scope/Bootstrap.antt =====
-- cloud/scope/helpers.go: the role and the bootstrap data of a Machine.
use cluster_api_provider_vul.Base.{
  ℕ, String, List, [], ◌∷◌, ◌==◌, string_eq, if◌then◌else◌, Option, none, some, errorf, wrapf,
  plain, sprintf, str,
}
use cluster_api_provider_vul.Base.Exec.{Exec, pure, raise, call, ◌>>=◌}
use cluster_api_provider_vul.Api.Tags.{control_plane_role_tag_value, worker_role_tag_value}
use cluster_api_provider_vul.Kube.{
  CapiMachine, SecretData, Fetched, found, missing, failed, Platform,
}

abbrev pub lookup : String → SecretData → Option (List ℕ)
lookup k [] = none
lookup k ((j, v) ∷ rest) = if j == k then some v else lookup k rest

module _ {W : Type 0} (p : Platform W) where
  -- `MachineRole`
  unfoldable pub machine_role : CapiMachine → String
  machine_role machine =
      if p.lib.is_control_plane_machine machine
      then control_plane_role_tag_value
      else worker_role_tag_value

  secret_value : String → String → Fetched SecretData → Exec W (List ℕ)
  secret_value namespace name (missing e) = raise (
      wrapf
        (sprintf "failed to retrieve bootstrap data secret %s/%s" (str namespace ∷ str name ∷ []))
        e)
  secret_value namespace name (failed e) = raise (
      wrapf
        (sprintf "failed to retrieve bootstrap data secret %s/%s" (str namespace ∷ str name ∷ []))
        e)
  secret_value namespace name (found secret) = elim (lookup "value" secret) [
    | none ↦ raise (errorf (plain "error retrieving bootstrap data: secret value key is missing"))
    | some value ↦ pure value
  ]

  -- `GetBootstrapData`
  unfoldable pub get_bootstrap_data : CapiMachine → String → Exec W (List ℕ)
  unfolding ◌>>=◌ secret_value
  get_bootstrap_data machine namespace = elim machine.data_secret_name [
    | none ↦ raise (
        errorf (
          plain
            "error retrieving bootstrap data: linked Machine's bootstrap.dataSecretName is nil"))
    | some name ↦ call (p.kube.get_secret namespace name) >>= secret_value namespace name
  ]
