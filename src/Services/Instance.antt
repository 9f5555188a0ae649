-- ===== src/Services/Instance.antt =====
-- cloud/services/instance.go
pub mod Listing
pub mod Adoption
pub mod Cloud
pub mod Keeps
pub mod Launch
use cluster_api_provider_vul.Base.{
  ℕ, zero, suc, String, Bool, true, false, ◌&&◌, List, [], ◌∷◌, ◌++◌, map, length, select, ◌==◌,
  nat_eq, string_eq, if◌then◌else◌, Option, none, some, GoError, errorf, wrapf, plain, sprintf, str,
  int, strs, Outcome, ok, err, panic, out_of_fuel,
}
use cluster_api_provider_vul.Base.Exec.{
  Exec, pure, raise, panics, stops, call, on_error, ◌>>=◌, ◌>>◌,
}
use cluster_api_provider_vul.Api.Tags.{BuildTagParams, build_tags, tags_owned_by_machine}
use cluster_api_provider_vul.Api.Machine.{VultrMachine, NodeAddress, internal_ip, external_ip}
use cluster_api_provider_vul.Govultr
use cluster_api_provider_vul.Govultr.{
  Instance, InstanceCreateReq, ListOptions, Reply, SshKey, status, next_cursor, response_code,
}
use cluster_api_provider_vul.Kube.{CapiMachine, Platform}
use cluster_api_provider_vul.Scope.Bootstrap.{machine_role, get_bootstrap_data}
use cluster_api_provider_vul.Scope.Cluster.{ClusterScope, machine_tag_params}
use cluster_api_provider_vul.Services.Base64.{base64_encode}
use cluster_api_provider_vul.Services.CloudConfig.{Bytes, bytes, append_to_user_data_cloud_config}
use cluster_api_provider_vul.Services.SshKeys.{get_ssh_key}

abbrev pub is_empty_list : List String → Bool
is_empty_list [] = true
is_empty_list (t ∷ tags) = false

unfoldable pub instance_owned_by_machine : BuildTagParams → Instance → Bool
instance_owned_by_machine params instance' =
    if instance'.label == params.name
    then if tags_owned_by_machine instance'.tags params
      then true
      else is_empty_list instance'.tags && instance'.hostname == params.name
    else false

-- The switch on the number of matches that ends `FindInstanceForMachine`.
unfoldable pub unique_match : String → List Instance → Outcome (Option Instance)
unique_match name [] = ok none
unique_match name (i ∷ []) = ok (some i)
unique_match name (i ∷ j ∷ more) = err (
    errorf (
      sprintf "found %d instances for machine %q, expected at most one: %s"
        (int (length (i ∷ j ∷ more)) ∷ str name ∷ strs (map (λ m. m.id) (i ∷ j ∷ more)) ∷ [])))

-- The value of `AttachVPC`
abbrev attached_vpcs : String → List String
attached_vpcs vpc_id = if vpc_id == "" then [] else vpc_id ∷ []

unfoldable pub create_request : VultrMachine → List String → Bytes → List String → InstanceCreateReq
create_request m ssh_key_ids user_data tags = record {
  label = m.name;
  hostname = m.name;
  region = m.spec.region;
  plan = m.spec.plan_id;
  ssh_keys = ssh_key_ids;
  snapshot_id = m.spec.snapshot;
  user_data = user_data;
  enable_ipv6 = some true;
  attach_vpc = attached_vpcs m.spec.vpc_id;
  tags = tags;
}

abbrev pub address_if_set : String → NodeAddress → List NodeAddress
address_if_set value address = if value == "" then [] else address ∷ []

unfoldable pub get_instance_address : Instance → List NodeAddress
get_instance_address i =
    address_if_set i.internal_ip (record { type = internal_ip; address = i.internal_ip })
    ++ address_if_set i.main_ip (record { type = external_ip; address = i.main_ip })

module _ {W A : Type 0} where
  -- A function with no effect on the world.
  unfoldable pub lift : Outcome A → Exec W A
  lift r w = (r, w)

module _ {W : Type 0} (p : Platform W) where
  unfoldable pub get_instance : String → Exec W (Option Instance)
  unfolding ◌>>=◌
  get_instance id = if id == "" then pure none else do
    r ← call (p.api.get_instance id)
    elim r.error [
      | some e ↦
          if status r == 404
          then pure none
          else raise (wrapf (sprintf "failed to get instance with ID %q" (str id ∷ [])) e)
      | none ↦ elim r.value [
        | some i ↦ pure (some i)
        | none ↦ raise (
            errorf (
              sprintf "Vultr API returned HTTP %d without an instance for ID %q"
                (int (response_code r.response) ∷ str id ∷ [])))
      ]
    ]

  -- The loop of `FindInstanceForMachine` over the pages of the list, with fuel for each page.
  unfoldable pub matching_instances :
      BuildTagParams → String → ℕ → ListOptions → List Instance → Exec W (List Instance)
  unfolding ◌>>=◌
  matching_instances params name zero options matches = stops
  matching_instances params name (suc fuel) options matches = do
    r ← call (p.api.list_instances options)
    let matches' = matches ++ select (instance_owned_by_machine params) r.value
    let next =
        matching_instances params name fuel (record options { cursor = next_cursor r.meta })
          matches'
    elim r.error [
      | some e ↦ raise (wrapf (sprintf "failed to list instances labelled %q" (str name ∷ [])) e)
      | none ↦ if next_cursor r.meta == "" then pure matches' else next
    ]

  unfoldable pub find_instance_for_machine :
      ClusterScope → String → String → Exec W (Option Instance)
  unfolding ◌>>=◌ lift machine_tag_params
  find_instance_for_machine sc name role = do
    matches ←
        matching_instances (machine_tag_params sc name role) name p.fuel
          (record { per_page = 0; tag = ""; label = name; cursor = "" }) []
    lift (unique_match name matches)

  -- The loop over `Spec.SSHKey`. A key that is nil without an error is dereferenced.
  unfoldable pub ssh_key_ids : List String → Exec W (List String)
  unfolding ◌>>=◌ get_ssh_key
  ssh_key_ids [] = pure []
  ssh_key_ids (id ∷ ids) = do
    key ← get_ssh_key p id
    let more = ssh_key_ids ids
    elim key [ none ↦ panics | some k ↦ (do rest ← more; pure (k.id ∷ rest)) ]

  unfoldable pub send_create : InstanceCreateReq → Exec W Instance
  send_create req = do
    r ← call (p.api.create_instance req)
    let failure = raise (
        errorf (
          sprintf "Vultr API returned HTTP %d without an instance for the create of %q"
            (int (response_code r.response) ∷ str req.label ∷ [])))
    elim r.error [
      | some e ↦ raise (wrapf (plain "Failed to create new instance") e)
      | none ↦ elim r.value [ none ↦ failure | some i ↦ if i.id == "" then failure else pure i ]
    ]

  unfoldable pub create_instance : ClusterScope → CapiMachine → VultrMachine → Exec W Instance
  unfolding ◌>>=◌ ssh_key_ids send_create lift create_request get_bootstrap_data on_error
      machine_tag_params
  create_instance sc machine m = do
    data' ←
        on_error (get_bootstrap_data p machine m.namespace)
          (λ e. raise (wrapf (plain "failed to retrieve bootstrap data") e)) pure
    updated ← lift (append_to_user_data_cloud_config data' (bytes "ufw disable" ∷ []))
    keys ← ssh_key_ids m.spec.ssh_key
    let tags = build_tags (machine_tag_params sc m.name (machine_role p machine))
    send_create (create_request m keys (base64_encode updated) tags)

  unfoldable pub delete_instance : String → Exec W Bool
  unfolding ◌>>=◌
  delete_instance id =
      if id == ""
      then raise (errorf (plain "cannot delete instance. instance does not have an instance id"))
      else do
        r ← call (p.api.delete_instance id)
        elim r.error [
          | none ↦ pure true
          | some e ↦
              if status r == 404
              then pure false
              else raise (wrapf (sprintf "failed to delete instance with id %q" (str id ∷ [])) e)
        ]
