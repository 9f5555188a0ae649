-- ===== src/Services/CloudConfig.antt =====
-- The edits of the user data, over bytes: cloud/services/cloudconfig.go, and
-- `appendToUserDataCloudConfig` of cloud/services/instance.go.
pub mod Prepend
pub mod Append
pub mod Header
use Prim.Native.Char.{code}
use Prim.Native.String
use cluster_api_provider_vul.Base.{
  ℕ, zero, suc, ◌+◌, ◌-◌, String, Bool, true, false, ◌&&◌, ◌||◌, Option, none, some, List, [], ◌∷◌,
  ◌++◌, map, length, ◌==◌, nat_eq, string_eq, ltb, leb, if◌then◌else◌, Outcome, ok, err, panic,
  out_of_fuel, GoError, errorf, wrapf, plain,
}

abbrev pub Bytes : Type 0
Bytes = List ℕ

-- The bytes of an ASCII text.
abbrev pub bytes : String → Bytes
bytes String.[] = []
bytes (String.◌∷◌ c s) = code c ∷ bytes s

abbrev pub starts_with : Bytes → Bytes → Bool
starts_with s [] = true
starts_with [] (d ∷ t) = false
starts_with (c ∷ s) (d ∷ t) = c == d && starts_with s t

abbrev pub next_index : Option ℕ → Option ℕ
next_index none = none
next_index (some i) = some (suc i)

-- `strings.Index`, for a text to find that is not empty; none stands for -1.
unfoldable pub index_of : Bytes → Bytes → Option ℕ
index_of [] sep = none
index_of (c ∷ s) sep =
    let later = next_index (index_of s sep) in if starts_with (c ∷ s) sep then some zero else later

abbrev pub take : ℕ → Bytes → Bytes
take zero s = []
take (suc n) [] = []
take (suc n) (c ∷ s) = c ∷ take n s

abbrev pub drop : ℕ → Bytes → Bytes
drop zero s = s
drop (suc n) [] = []
drop (suc n) (c ∷ s) = drop n s

-- `runcmdIndex` before the loop: -1 + 7 where there is no "runcmd:".
abbrev pub runcmd_index : Bytes → ℕ
runcmd_index user_data = elim (index_of user_data (bytes "runcmd:")) [ none ↦ 6 | some i ↦ i + 7 ]

-- The loop of `appendToUserDataCloudConfig`. A slice beyond the end panics.
unfoldable pub insert_commands : Bytes → ℕ → List Bytes → Outcome Bytes
insert_commands user_data index [] = ok user_data
insert_commands user_data index (cmd ∷ cmds) =
    let line = bytes "\n  - " ++ cmd in
    let rest =
      insert_commands (take index user_data ++ line ++ drop index user_data) (index + length line)
        cmds in
    if leb index (length user_data) then rest else panic

unfoldable pub append_to_user_data_cloud_config : Bytes → List Bytes → Outcome Bytes
unfolding insert_commands index_of
append_to_user_data_cloud_config user_data commands =
    insert_commands user_data (runcmd_index user_data) commands

-- ASCII's white space; `strings.TrimSpace` also trims that of Unicode.
abbrev is_space : ℕ → Bool
is_space c = c == 32 || (leb 9 c && leb c 13)

abbrev pub trim_left : Bytes → Bytes
trim_left [] = []
trim_left (c ∷ s) = let rest = trim_left s in if is_space c then rest else c ∷ s

abbrev cons_trimmed : ℕ → Bytes → Bytes
cons_trimmed c [] = if is_space c then [] else c ∷ []
cons_trimmed c (d ∷ s) = c ∷ d ∷ s

abbrev pub trim_right : Bytes → Bytes
trim_right [] = []
trim_right (c ∷ s) = cons_trimmed c (trim_right s)

abbrev pub trim_space : Bytes → Bytes
trim_space s = trim_right (trim_left s)

abbrev before_line : ℕ → Bytes × Bytes → Bytes × Bytes
before_line c (line, tail) = (c ∷ line, tail)

-- `strings.Cut` at "\n", without the flag that it found one
abbrev pub cut_line : Bytes → Bytes × Bytes
cut_line [] = ([], [])
cut_line (c ∷ s) = let later = before_line c (cut_line s) in if c == 10 then ([], s) else later

abbrev pub is_empty : Bytes → Bool
is_empty [] = true
is_empty (c ∷ s) = false

abbrev pub cloud_config_header : Bytes
cloud_config_header = bytes "#cloud-config"

-- The loop of `splitCloudConfigHeader`, with fuel for each line.
unfoldable pub split_header_from : ℕ → Bytes → Bytes → Outcome (Bytes × Bytes)
split_header_from zero prefix rest = out_of_fuel
split_header_from (suc fuel) prefix rest =
    let (line, tail) = cut_line rest in
    let trimmed = trim_space line in
    let next = split_header_from fuel (prefix ++ line ++ 10 ∷ []) tail in
    if starts_with trimmed cloud_config_header
    then ok (prefix, tail)
    else if is_empty trimmed || starts_with trimmed (bytes "## template:")
    then (if is_empty tail then ok ([], []) else next)
    else ok ([], [])

unfoldable pub split_cloud_config_header : Bytes → Outcome (Bytes × Bytes)
unfolding split_header_from
split_cloud_config_header user_data = split_header_from (suc (length user_data)) [] user_data
