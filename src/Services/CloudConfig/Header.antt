-- ===== src/Services/CloudConfig/Header.antt =====
-- The loop of `splitCloudConfigHeader` ends.
use cluster_api_provider_vul.Base.{
  ℕ, zero, suc, ◌<◌, ◌≡◌, ◌≢◌, refl, Bool, true, false, inl, ◌⊎◌, ◌||◌, nat_eq, [], ◌∷◌, ◌++◌,
  length, if◌then◌else◌, Outcome, ok, out_of_fuel, arith,
}
use cluster_api_provider_vul.Services.CloudConfig.{
  Bytes, bytes, cut_line, is_empty, starts_with, trim_space, cloud_config_header, split_header_from,
  split_cloud_config_header,
}

length-cut_line :
    (s : Bytes) → (is_empty (cut_line s).1 ≡ true) ⊎ (length (cut_line s).1 < length s)
length-cut_line [] = inl refl
length-cut_line (c ∷ s) = ground (arith, length-cut_line s)

-- One step, on the tests for the header, for a line to pass over and for the end of the text.
step-ne-out_of_fuel :
    (header passed ended : Bool) (parts : Bytes × Bytes) (next : Outcome (Bytes × Bytes))
    → (ended ≡ false → next ≢ out_of_fuel)
    → (if header
        then ok parts
        else if passed
        then (if ended then ok ([], []) else next)
        else ok ([], []))
      ≢ out_of_fuel
step-ne-out_of_fuel true passed ended parts next h e = cc
step-ne-out_of_fuel false true true parts next h e = cc
step-ne-out_of_fuel false true false parts next h e = h refl e
step-ne-out_of_fuel false false ended parts next h e = cc

tail-lt :
    (rest : Bytes) → is_empty (cut_line rest).1 ≡ false → length (cut_line rest).1 < length rest
tail-lt rest h = ground (arith, length-cut_line rest)

split-ne-out_of_fuel :
    (fuel : ℕ) (prefix rest : Bytes)
    → length rest < fuel
    → split_header_from fuel prefix rest ≢ out_of_fuel
unfolding split_header_from
split-ne-out_of_fuel zero prefix rest lt = absurd (omega arith)
split-ne-out_of_fuel (suc fuel) prefix rest lt =
    let line : Bytes = (cut_line rest).0 in
    let tail : Bytes = (cut_line rest).1 in
    step-ne-out_of_fuel (starts_with (trim_space line) cloud_config_header)
      (is_empty (trim_space line) || starts_with (trim_space line) (bytes "## template:"))
      (is_empty tail) (prefix, tail) (split_header_from fuel (prefix ++ line ++ 10 ∷ []) tail)
      (λ h.
        split-ne-out_of_fuel fuel (prefix ++ line ++ 10 ∷ []) tail
          (omega (arith, lt, tail-lt rest h)))

-- The loop of `splitCloudConfigHeader` ends on every text: it never takes more steps than the text
-- has bytes, and one.
pub split_header-ne-out_of_fuel :
    (user_data : Bytes) → split_cloud_config_header user_data ≢ out_of_fuel
unfolding split_cloud_config_header
split_header-ne-out_of_fuel user_data =
    split-ne-out_of_fuel (suc (length user_data)) [] user_data (omega arith)
