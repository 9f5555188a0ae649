-- ===== src/Services/Base64.antt =====
-- `base64.StdEncoding.EncodeToString`, in which the create requests carry their user data.
use Prim.Native.Nat.{◌/◌}
use cluster_api_provider_vul.Base.{
  ℕ, ◌+◌, ◌-◌, ◌*◌, ◌%◌, List, [], ◌∷◌, ltb, ◌==◌, nat_eq, if◌then◌else◌, ◌≡◌, refl,
}

-- The byte for six bits: A to Z, a to z, 0 to 9, + and /.
abbrev base64_digit : ℕ → ℕ
base64_digit n =
    if ltb n 26
    then n + 65
    else if ltb n 52
    then n + 71
    else if ltb n 62
    then n - 4
    else if n == 62
    then 43
    else 47

unfoldable pub base64_encode : List ℕ → List ℕ
base64_encode [] = []
base64_encode (a ∷ []) = base64_digit (a / 4) ∷ base64_digit (a % 4 * 16) ∷ b'=' ∷ b'=' ∷ []
base64_encode (a ∷ b ∷ []) =
    base64_digit (a / 4)
    ∷ base64_digit (a % 4 * 16 + b / 16)
    ∷ base64_digit (b % 16 * 4)
    ∷ b'='
    ∷ []
base64_encode (a ∷ b ∷ c ∷ rest) =
    base64_digit (a / 4)
    ∷ base64_digit (a % 4 * 16 + b / 16)
    ∷ base64_digit (b % 16 * 4 + c / 64)
    ∷ base64_digit (c % 64)
    ∷ base64_encode rest

-- "light w." is "bGlnaHQgdy4=".
encode_light :
    base64_encode (108 ∷ 105 ∷ 103 ∷ 104 ∷ 116 ∷ 32 ∷ 119 ∷ 46 ∷ [])
    ≡ 98 ∷ 71 ∷ 108 ∷ 110 ∷ 97 ∷ 72 ∷ 81 ∷ 103 ∷ 100 ∷ 121 ∷ 52 ∷ 61 ∷ []
unfolding base64_encode
encode_light = refl
