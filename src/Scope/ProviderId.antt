-- ===== src/Scope/ProviderId.antt =====
-- cloud/scope/helpers.go: provider ids of the form vultr://<id>.
pub mod RoundTrip
use cluster_api_provider_vul.Base.{
  String, ◌<>◌, List, [], ◌∷◌, ◌==◌, string_eq, if◌then◌else◌, ◌≡◌, refl,
}
use cluster_api_provider_vul.Text.{split_from}

abbrev pub provider_id_scheme : String
provider_id_scheme = "vultr"

-- The rest of `ProviderIDToResourceID`, after the split.
abbrev parts_to_resource_id : List String → String
parts_to_resource_id (scheme ∷ id ∷ []) = if scheme == provider_id_scheme then id else ""
parts_to_resource_id parts = ""

unfoldable pub provider_id_to_resource_id : String → String
unfolding split_from
provider_id_to_resource_id provider_id = parts_to_resource_id (split_from ":" "//" 0 provider_id)

unfoldable pub resource_id_to_provider_id : String → String
resource_id_to_provider_id resource_id = provider_id_scheme <> "://" <> resource_id

parse_tests :
    (provider_id_to_resource_id "vultr://ab-1" ≡ "ab-1")
    × (provider_id_to_resource_id "vultr://a://b" ≡ "")
    × (provider_id_to_resource_id "aws://a" ≡ "")
    × (provider_id_to_resource_id "vultr:///a:/" ≡ "/a:/")
unfolding provider_id_to_resource_id
parse_tests = (refl, refl, refl, refl)
