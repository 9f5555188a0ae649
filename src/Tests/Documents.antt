-- ===== src/Tests/Documents.antt =====
-- Cloud-configs with a document library whose documents are the entries of "runcmd".
use cluster_api_provider_vul.Base.{
  ℕ, ◌≡◌, ◌≢◌, refl, String, ◌==◌, string_eq, eq_iff, if◌then◌else◌, some, [], ◌∷◌, length, Outcome,
  ok, err, out_of_fuel, errorf, plain, arith,
}
use cluster_api_provider_vul.Services.CloudConfig.{Bytes, bytes, split_cloud_config_header}
use cluster_api_provider_vul.Services.CloudConfig.Header.{split_header-ne-out_of_fuel}
use cluster_api_provider_vul.Services.CloudConfig.Prepend.{
  null, items, other, Doc, lookup, Yaml, IsLawful, prepend_cloud_config_run_cmds,
}
use cluster_api_provider_vul.Services.CloudConfig.Prepend.Runcmd.{Prepended, prepend-Prepended}

abbrev unwritable : Outcome Bytes
unwritable = err (errorf (plain "not a list of commands"))

abbrev write_commands : Doc ℕ → Outcome Bytes
write_commands [] = unwritable
write_commands ((k, null) ∷ doc) = unwritable
write_commands ((k, other v) ∷ doc) = unwritable
write_commands ((k, items l) ∷ e ∷ doc) = unwritable
write_commands ((k, items l) ∷ []) = if k == "runcmd" then ok l else unwritable

-- A scalar is written as one byte: the length of its text.
abbrev list_yaml : Yaml ℕ
list_yaml = record {
  scalar = length;
  unmarshal = λ s. ok (some (("runcmd", items s) ∷ []));
  marshal = write_commands;
}

read_written :
    (doc : Doc ℕ) (out : Bytes)
    → write_commands doc ≡ ok out
    → (k : String) → lookup k (("runcmd", items out) ∷ []) ≡ lookup k doc
unfolding lookup
read_written [] out e k = cc
read_written ((j, null) ∷ doc) out e k = cc
read_written ((j, other v) ∷ doc) out e k = cc
read_written ((j, items l) ∷ d ∷ doc) out e k = cc
read_written ((j, items l) ∷ []) out e k =
    ground (arith, eq_iff j "runcmd", eq_iff j k, eq_iff "runcmd" k)

list_yaml-IsLawful : IsLawful list_yaml
list_yaml-IsLawful = record {
  unmarshal-marshal = λ doc out e. (("runcmd", items out) ∷ [], refl, read_written doc out e);
}

abbrev user_data : Bytes
user_data = bytes "#cloud-config\nab"

splits : split_cloud_config_header user_data ≡ ok ([], bytes "ab")
unfolding split_cloud_config_header
splits = refl

prepends : (r : Bytes) × (prepend_cloud_config_run_cmds list_yaml user_data (bytes "c" ∷ []) ≡ ok r)
unfolding prepend_cloud_config_run_cmds split_cloud_config_header
prepends = (_, refl)

prepend-Prepended_example : Prepended list_yaml [] (bytes "ab") (bytes "c" ∷ []) prepends.0
prepend-Prepended_example =
    prepend-Prepended list_yaml list_yaml-IsLawful user_data [] (bytes "ab") (bytes "c") []
      prepends.0 splits refl prepends.1

split_header-ne-out_of_fuel_example : split_cloud_config_header user_data ≢ out_of_fuel
split_header-ne-out_of_fuel_example = split_header-ne-out_of_fuel user_data
