-- ===== src/Tests/Values.antt =====
-- Tags, defaults, captured statuses and ids on concrete values.
use cluster_api_provider_vul.Base.{
  ◌≡◌, refl, ℕ, pos, String, true, Option, none, some, List, [], ◌∷◌, ◌++◌, ◌↔◌, ok, panic, false,
}
use cluster_api_provider_vul.Text.{has_infix}
use cluster_api_provider_vul.Scope.ProviderId.{
  provider_id_to_resource_id, resource_id_to_provider_id,
}
use cluster_api_provider_vul.Scope.ProviderId.RoundTrip.{resource_id-round_trip}
use cluster_api_provider_vul.Services.CloudConfig.{
  Bytes, bytes, index_of, take, drop, append_to_user_data_cloud_config,
}
use cluster_api_provider_vul.Services.CloudConfig.Append.{
  command_lines, append_after_runcmd, append_without_runcmd,
}
use cluster_api_provider_vul.Api.Tags.{BuildTagParams, build_tags, tags_owned_by_machine}
use cluster_api_provider_vul.Api.Tags.Ownership.{owned_build_tags_iff}
use cluster_api_provider_vul.Api.LoadBalancer.{apply_defaults}
use cluster_api_provider_vul.Api.LoadBalancer.Defaults.{
  IsComplete, apply_defaults-IsComplete, apply_defaults_of_IsComplete,
}
use cluster_api_provider_vul.Api.Cluster.{zero_load_balancer}
use cluster_api_provider_vul.Services.Instance.{create_request, instance_owned_by_machine}
use cluster_api_provider_vul.Services.Instance.Adoption.{created-owned_iff}
use cluster_api_provider_vul.Vultrerrors.{Context, capture, round_trips, load, captured_status}
use cluster_api_provider_vul.Vultrerrors.Laws.{rounds_of, status-capture}
use cluster_api_provider_vul.Govultr.{Instance}
use cluster_api_provider_vul.Tests.Sample.{vultr_machine}

abbrev params : String → BuildTagParams
params name = record { cluster_name = "c1"; cluster_uid = "uid"; name = name; role = "worker" }

abbrev tagged : List String → Instance
tagged tags = record {
  id = "i-1";
  label = "m1";
  hostname = "m1";
  tags = tags;
  status = "active";
  vcpu_count = pos 2;
  ram = pos 4096;
  disk = pos 80;
  main_ip = "203.0.113.7";
  internal_ip = "10.0.0.7";
}

owned_build_tags_iff_example :
    (tags_owned_by_machine (build_tags (params "m1")) (params "m2") ≡ true)
    ↔ ((params "m1").name ≡ (params "m2").name)
      × ((params "m1").cluster_uid ≡ (params "m2").cluster_uid)
owned_build_tags_iff_example = owned_build_tags_iff (params "m1") (params "m2")

created-owned_iff_example :
    (instance_owned_by_machine (params "m2") (tagged (build_tags (params "m1"))) ≡ true)
    ↔ ((params "m1").name ≡ (params "m2").name)
      × ((params "m1").cluster_uid ≡ (params "m2").cluster_uid)
unfolding create_request
created-owned_iff_example =
    created-owned_iff (params "m1") (params "m2") (vultr_machine none) [] []
      (tagged (build_tags (params "m1"))) refl refl refl

apply_defaults-IsComplete_example : IsComplete (apply_defaults zero_load_balancer)
apply_defaults-IsComplete_example = apply_defaults-IsComplete zero_load_balancer

apply_defaults_of_IsComplete_example :
    apply_defaults (apply_defaults zero_load_balancer) ≡ apply_defaults zero_load_balancer
apply_defaults_of_IsComplete_example =
    apply_defaults_of_IsComplete (apply_defaults zero_load_balancer)
      (apply_defaults-IsComplete zero_load_balancer)

abbrev outer_context : Context
outer_context = record { capture_cell = some 0 }

abbrev inner_context : Context
inner_context = record { capture_cell = some 1 }

-- A call on the outer context, then two on the captured one.
abbrev rounds : List (Context × Option ℕ)
rounds = (outer_context, some 500) ∷ (inner_context, some 404) ∷ (inner_context, none) ∷ []

status-capture_example :
    let ((own, cell), h') = capture outer_context (7 ∷ []) in
    (own.capture_cell ≡ some cell)
    × (load (round_trips rounds h') cell ≡ captured_status (rounds_of cell rounds))
status-capture_example = status-capture outer_context (7 ∷ []) rounds

-- "runcmd:" and one entry, and a text without it.
abbrev with_runcmd : Bytes
with_runcmd = bytes "a\nruncmd:\n  - b\n"

finds_runcmd : index_of with_runcmd (bytes "runcmd:") ≡ some 2
unfolding index_of
finds_runcmd = refl

append_after_runcmd_example :
    append_to_user_data_cloud_config with_runcmd (bytes "c" ∷ [])
    ≡ ok (take 9 with_runcmd ++ command_lines (bytes "c" ∷ []) ++ drop 9 with_runcmd)
append_after_runcmd_example = append_after_runcmd with_runcmd (bytes "c" ∷ []) 2 finds_runcmd

finds_none : index_of (bytes "#!") (bytes "runcmd:") ≡ none
unfolding index_of
finds_none = refl

append_without_runcmd_example :
    append_to_user_data_cloud_config (bytes "#!") (bytes "c" ∷ []) ≡ panic
append_without_runcmd_example = append_without_runcmd (bytes "#!") (bytes "c") [] finds_none

no_separator : has_infix "ab-1" "://" ≡ false
unfolding has_infix
no_separator = refl

resource_id-round_trip_example :
    provider_id_to_resource_id (resource_id_to_provider_id "ab-1") ≡ "ab-1"
resource_id-round_trip_example = resource_id-round_trip "ab-1" no_separator
