-- ===== src/Api/Tags.antt =====
-- api/v1beta2/tags.go
pub mod Ownership
use cluster_api_provider_vul.Base.{String, ◌<>◌, Bool, ◌&&◌, List, [], ◌∷◌, string_eq, contains}

abbrev pub Tags : Type 0
Tags = List String

abbrev pub tag_prefix : String
tag_prefix = "capvultr"

abbrev pub control_plane_role_tag_value : String
control_plane_role_tag_value = "control-plane"

abbrev pub worker_role_tag_value : String
worker_role_tag_value = "worker"

unfoldable pub cluster_tag : String → String
cluster_tag cluster_name = tag_prefix <> ":cluster:" <> cluster_name

unfoldable pub cluster_uid_tag : String → String
cluster_uid_tag cluster_uid = tag_prefix <> ":cluster-uid:" <> cluster_uid

unfoldable pub role_tag : String → String
role_tag role = tag_prefix <> ":role:" <> role

unfoldable pub name_tag_from_name : String → String
name_tag_from_name name = "name:" <> name

pub record BuildTagParams : Type 0 where
  pub cluster_name : String
  pub cluster_uid : String
  pub name : String
  pub role : String

unfoldable pub build_tags : BuildTagParams → Tags
unfolding cluster_tag cluster_uid_tag role_tag name_tag_from_name
build_tags params =
    cluster_tag params.cluster_name
    ∷ cluster_uid_tag params.cluster_uid
    ∷ role_tag params.role
    ∷ name_tag_from_name params.name
    ∷ []

unfoldable pub tags_owned_by_machine : List String → BuildTagParams → Bool
unfolding contains
tags_owned_by_machine tags params =
    contains tags (name_tag_from_name params.name)
    && contains tags (cluster_uid_tag params.cluster_uid)
