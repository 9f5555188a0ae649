-- ===== src/Services/CloudConfig/Prepend.antt =====
-- `PrependCloudConfigRunCmds` of cloud/services/cloudconfig.go. The YAML library is a parameter.
pub mod Runcmd
use cluster_api_provider_vul.Base.{
  String, Option, none, some, List, [], ◌∷◌, ◌++◌, map, ◌==◌, string_eq, if◌then◌else◌, Outcome, ok,
  err, panic, out_of_fuel, errorf, wrapf, plain, ◌≡◌,
}
use cluster_api_provider_vul.Services.CloudConfig.{
  Bytes, cloud_config_header, is_empty, split_cloud_config_header,
}

-- A value of the document: null, a list, or a value that is neither, over scalars and maps that
-- the code does not look into.
pub data Value (V : Type 0) : Type 0 where
  null : Value V
  items : List V → Value V
  other : V → Value V

-- `map[string]interface{}`
abbrev pub Doc : Type 0 → Type 0
Doc V = List (String × Value V)

module _ {V : Type 0} where
  unfoldable pub lookup : String → Doc V → Option (Value V)
  lookup k [] = none
  lookup k ((j, v) ∷ doc) = if j == k then some v else lookup k doc

  -- `doc[k] = v`
  unfoldable pub insert : String → Value V → Doc V → Doc V
  insert k v [] = (k, v) ∷ []
  insert k v ((j, w) ∷ doc) = if j == k then (k, v) ∷ doc else (j, w) ∷ insert k v doc

  abbrev pub or_empty_doc : Option (Doc V) → Doc V
  or_empty_doc none = []
  or_empty_doc (some doc) = doc

-- `sigs.k8s.io/yaml`; `scalar` is the value of a string. A null document unmarshals to a nil map.
pub record Yaml (V : Type 0) : Type 0 where
  pub scalar : Bytes → V
  pub unmarshal : Bytes → Outcome (Option (Doc V))
  pub marshal : Doc V → Outcome Bytes

-- What is written is read back as a map with the same entries.
pub record IsLawful {V : Type 0} (yaml : Yaml V) : Type 0 where
  pub unmarshal-marshal :
      (doc : Doc V) (out : Bytes)
      → yaml.marshal doc ≡ ok out
      → (doc' : Doc V) × (yaml.unmarshal out ≡ ok (some doc'))
        × ((k : String) → lookup k doc' ≡ lookup k doc)

-- `if err != nil { return errors.Wrap(err, …) }`
abbrev wrapped {ℓ} : {A : Type ℓ} → String → Outcome A → Outcome A
wrapped context (ok a) = ok a
wrapped context (err e) = err (wrapf (plain context) e)
wrapped context panic = panic
wrapped context out_of_fuel = out_of_fuel

infixl 10 ◌>>=◌
abbrev pub ◌>>=◌ {ℓ κ} : {A : Type ℓ} {B : Type κ} → Outcome A → (A → Outcome B) → Outcome B
ok a >>= f = f a
err e >>= f = err e
panic >>= f = panic
out_of_fuel >>= f = out_of_fuel

module _ {V : Type 0} (yaml : Yaml V) where
  -- The commands of an existing "runcmd", where it is absent, null or a list.
  abbrev pub runcmd_list : Option (Value V) → Outcome (List V)
  runcmd_list none = ok []
  runcmd_list (some null) = ok []
  runcmd_list (some (items list)) = ok list
  runcmd_list (some (other v)) = err (errorf (plain "cloud-config runcmd is not a list"))

  prepend_to_body : Bytes → Bytes → List Bytes → Outcome Bytes
  prepend_to_body prefix body cmds = do
    parsed ← wrapped "failed to parse cloud-config user data" (yaml.unmarshal body)
    let doc = or_empty_doc parsed
    runcmd ← runcmd_list (lookup "runcmd" doc)
    out ←
        wrapped "failed to serialize cloud-config user data"
          (yaml.marshal (insert "runcmd" (items (map yaml.scalar cmds ++ runcmd)) doc))
    ok (prefix ++ cloud_config_header ++ 10 ∷ out)

  unfoldable pub prepend_cloud_config_run_cmds : Bytes → List Bytes → Outcome Bytes
  unfolding prepend_to_body lookup insert
  prepend_cloud_config_run_cmds user_data [] = ok user_data
  prepend_cloud_config_run_cmds user_data (cmd ∷ cmds) = do
    (prefix, body) ← split_cloud_config_header user_data
    if is_empty body then ok user_data else prepend_to_body prefix body (cmd ∷ cmds)
