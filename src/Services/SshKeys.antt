-- ===== src/Services/SshKeys.antt =====
-- cloud/services/sshkeys.go
use cluster_api_provider_vul.Base.{
  String, ◌==◌, string_eq, if◌then◌else◌, Option, none, some, errorf, plain,
}
use cluster_api_provider_vul.Base.Exec.{Exec, pure, raise, call, ◌>>=◌}
use cluster_api_provider_vul.Govultr.{SshKey}
use cluster_api_provider_vul.Kube.{Platform}

module _ {W : Type 0} (p : Platform W) where
  -- `GetSSHKey`
  unfoldable pub get_ssh_key : String → Exec W (Option SshKey)
  unfolding ◌>>=◌
  get_ssh_key id = if id == "" then raise (errorf (plain "missing ssh key")) else do
    r ← call (p.api.get_ssh_key id)
    elim r.error [ some e ↦ raise e | none ↦ pure r.value ]
