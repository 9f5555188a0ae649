-- ===== src/Services/BareMetal.antt =====
-- cloud/services/baremetal.go
pub mod Listing
pub mod Cloud
pub mod Keeps
pub mod Launch
use cluster_api_provider_vul.Base.{
  ℕ, zero, suc, ◌+◌, String, Bool, true, false, ◌&&◌, ◌||◌, List, [], ◌∷◌, ◌++◌, length, select,
  contains, ◌==◌, nat_eq, string_eq, leb, if◌then◌else◌, Option, none, some, GoError, errorf, wrapf,
  plain, sprintf, str, int, Outcome, ok, err,
}
use cluster_api_provider_vul.Base.Exec.{Exec, pure, raise, panics, stops, call, on_error, ◌>>=◌}
use cluster_api_provider_vul.Api.Tags.{
  BuildTagParams, build_tags, tags_owned_by_machine, name_tag_from_name,
}
use cluster_api_provider_vul.Api.Machine.{NodeAddress, internal_ip, external_ip}
use cluster_api_provider_vul.Api.BareMetal.{VultrBareMetalMachine, VultrBareMetalMachineSpec}
use cluster_api_provider_vul.Govultr.{
  BareMetalServer, BareMetalCreate, VpcInfo, ListOptions, status, next_cursor, response_code,
}
use cluster_api_provider_vul.Kube.{CapiMachine, Library, Platform}
use cluster_api_provider_vul.Scope.Bootstrap.{machine_role, get_bootstrap_data}
use cluster_api_provider_vul.Scope.Cluster.{ClusterScope, machine_tag_params}
use cluster_api_provider_vul.Services.Base64.{base64_encode}
use cluster_api_provider_vul.Services.CloudConfig.{Bytes, bytes, starts_with}
use cluster_api_provider_vul.Services.CloudConfig.Prepend.{Yaml, prepend_cloud_config_run_cmds}
use cluster_api_provider_vul.Services.SshKeys.{get_ssh_key}
use cluster_api_provider_vul.Services.Instance.{lift, address_if_set}

abbrev pub bare_metal_list_page_size : ℕ
bare_metal_list_page_size = 100

-- `hasTags`
unfoldable pub has_tags : List String → List String → Bool
unfolding contains
has_tags tags [] = true
has_tags tags (w ∷ wanted) = contains tags w && has_tags tags wanted

unfoldable pub unique_match : String → List BareMetalServer → Outcome (Option BareMetalServer)
unique_match name [] = ok none
unique_match name (s ∷ []) = ok (some s)
unique_match name (s ∷ t ∷ more) = err (
    errorf (
      sprintf "found %d bare metal servers tagged for machine %q, expected at most one"
        (int (length (s ∷ t ∷ more)) ∷ str name ∷ [])))

abbrev or_true : Option Bool → Bool
or_true none = true
or_true (some b) = b

-- `buildBareMetalCreateRequest`
unfoldable pub build_bare_metal_create_request :
    VultrBareMetalMachineSpec → String → List String → Bytes → List String → BareMetalCreate
build_bare_metal_create_request spec name ssh_key_ids encoded_user_data tags = record {
  region = spec.region;
  plan = spec.plan_id;
  os_id = spec.os_id;
  label = name;
  hostname = name;
  ssh_key_ids = ssh_key_ids;
  user_data = encoded_user_data;
  mdisk_mode = spec.mdisk_mode;
  enable_ipv6 = some (or_true spec.enable_ipv6);
  activation_email = some false;
  tags = tags ++ spec.additional_tags;
}

abbrev vpc_address : Option VpcInfo → List NodeAddress
vpc_address none = []
vpc_address (some vpc) =
    address_if_set vpc.ip_address (record { type = internal_ip; address = vpc.ip_address })

unfoldable pub get_bare_metal_server_addresses : BareMetalServer → Option VpcInfo → List NodeAddress
get_bare_metal_server_addresses server vpc =
    vpc_address vpc
    ++ address_if_set server.main_ip (record { type = external_ip; address = server.main_ip })

-- `strings.ToLower`, on ASCII letters
abbrev pub to_lower : Bytes → Bytes
to_lower [] = []
to_lower (c ∷ s) = (if leb b'A' c && leb c b'Z' then c + 32 else c) ∷ to_lower s

-- `strings.Contains`, for a text to find that is not empty
unfoldable pub has_text : Bytes → Bytes → Bool
has_text [] t = false
has_text (c ∷ s) t = starts_with (c ∷ s) t || has_text s t

-- The two messages that `IsTerminalVPCAttachError` looks for.
unfoldable pub is_terminal_message : Bytes → Bool
unfolding has_text
is_terminal_message msg =
    has_text msg (bytes "does not support vpc") || has_text msg (bytes "not support vpc networking")

unfoldable pub is_terminal_vpc_attach_error : Library → GoError → Bool
unfolding is_terminal_message
is_terminal_vpc_attach_error lib e = is_terminal_message (to_lower (bytes (lib.error_text e)))

-- The entry of a VPC in a list of attachments.
unfoldable pub find_vpc : String → List VpcInfo → Option VpcInfo
find_vpc id [] = none
find_vpc id (info ∷ infos) = if info.id == id then some info else find_vpc id infos

module _ {W : Type 0} (p : Platform W) where
  unfoldable pub get_bare_metal_server : String → Exec W (Option BareMetalServer)
  unfolding ◌>>=◌
  get_bare_metal_server id = if id == "" then pure none else do
    r ← call (p.api.get_server id)
    elim r.error [
      | some e ↦
          if status r == 404
          then pure none
          else raise (wrapf (sprintf "failed to get bare metal server with ID %q" (str id ∷ [])) e)
      | none ↦ elim r.value [
        | some s ↦ pure (some s)
        | none ↦ raise (
            errorf (
              sprintf "Vultr API returned HTTP %d without a server for ID %q"
                (int (response_code r.response) ∷ str id ∷ [])))
      ]
    ]

  -- The loop of `FindBareMetalServerByTags` over the pages, with fuel for each page.
  unfoldable pub matching_servers :
      BuildTagParams → ℕ → ListOptions → List BareMetalServer → Exec W (List BareMetalServer)
  unfolding ◌>>=◌
  matching_servers params zero options matches = stops
  matching_servers params (suc fuel) options matches = do
    r ← call (p.api.list_servers options)
    let matches' = matches ++ select (λ s. tags_owned_by_machine s.tags params) r.value
    let next =
        matching_servers params fuel (record options { cursor = next_cursor r.meta }) matches'
    elim r.error [
      | some e ↦ raise (wrapf (plain "failed to list bare metal servers") e)
      | none ↦ if next_cursor r.meta == "" then pure matches' else next
    ]

  unfoldable pub find_bare_metal_server_by_tags :
      ClusterScope → String → String → Exec W (Option BareMetalServer)
  unfolding ◌>>=◌ lift machine_tag_params
  find_bare_metal_server_by_tags sc name role = do
    matches ←
        matching_servers (machine_tag_params sc name role) p.fuel
          (record {
            per_page = bare_metal_list_page_size;
            tag = name_tag_from_name name;
            label = "";
            cursor = "";
          })
          []
    lift (unique_match name matches)

  -- The loop over `Spec.SSHKey`, which passes over empty ids.
  unfoldable pub ssh_key_ids : List String → Exec W (List String)
  unfolding ◌>>=◌ get_ssh_key
  ssh_key_ids [] = pure []
  ssh_key_ids (id ∷ ids) =
      let more = ssh_key_ids ids in
      if id == "" then more else do
        key ← get_ssh_key p id
        elim key [ none ↦ panics | some k ↦ (do rest ← more; pure (k.id ∷ rest)) ]

  unfoldable pub send_create : BareMetalCreate → Exec W BareMetalServer
  send_create req = do
    r ← call (p.api.create_server req)
    let failure = raise (
        errorf (
          sprintf "Vultr API returned HTTP %d without a server for the create of %q"
            (int (response_code r.response) ∷ str req.label ∷ [])))
    elim r.error [
      | some e ↦ raise (wrapf (plain "failed to create bare metal server") e)
      | none ↦ elim r.value [ none ↦ failure | some s ↦ if s.id == "" then failure else pure s ]
    ]

  unfoldable pub create_bare_metal_server :
      {V : Type 0}
      → Yaml V
      → ClusterScope
      → CapiMachine
      → VultrBareMetalMachine
      → Exec W BareMetalServer
  unfolding ◌>>=◌ ssh_key_ids send_create lift build_bare_metal_create_request get_bootstrap_data
      on_error machine_tag_params
  create_bare_metal_server yaml sc machine m = do
    data' ←
        on_error (get_bootstrap_data p machine m.namespace)
          (λ e. raise (wrapf (plain "failed to retrieve bootstrap data") e)) pure
    user_data ← lift (prepend_cloud_config_run_cmds yaml data' (bytes "ufw disable" ∷ []))
    keys ← ssh_key_ids m.spec.ssh_key
    let tags = build_tags (machine_tag_params sc m.name (machine_role p machine))
    send_create (build_bare_metal_create_request m.spec m.name keys (base64_encode user_data) tags)

  unfoldable pub delete_bare_metal_server : String → Exec W Bool
  unfolding ◌>>=◌
  delete_bare_metal_server id =
      if id == ""
      then raise (errorf (plain "cannot delete bare metal server: missing server id"))
      else do
        r ← call (p.api.delete_server id)
        elim r.error [
          | none ↦ pure true
          | some e ↦
              if status r == 404
              then pure false
              else raise
                  (wrapf (sprintf "failed to delete bare metal server with id %q" (str id ∷ [])) e)
        ]

  request_attachment : String → String → Exec W (Option VpcInfo)
  request_attachment server_id vpc_id = do
    r ← call (p.api.attach_vpc server_id vpc_id)
    elim r.error [
      | none ↦ pure none
      | some e ↦ raise (
          wrapf
            (sprintf "failed to attach VPC %q to bare metal server %q"
              (str vpc_id ∷ str server_id ∷ []))
            e)
    ]

  -- `EnsureBareMetalVPC`: `attached` with the attachment is `some`, and `false` with nil is `none`.
  unfoldable pub ensure_bare_metal_vpc : String → String → Exec W (Option VpcInfo)
  unfolding ◌>>=◌ find_vpc request_attachment
  ensure_bare_metal_vpc server_id vpc_id = do
    r ← call (p.api.list_vpc_info server_id)
    elim r.error [
      | some e ↦
          raise
            (wrapf (sprintf "failed to list VPCs of bare metal server %q" (str server_id ∷ [])) e)
      | none ↦ elim (find_vpc vpc_id r.value) [
        | some info ↦ pure (some info)
        | none ↦ request_attachment server_id vpc_id
      ]
    ]
