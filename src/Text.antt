-- ===== src/Text.antt =====
-- The functions of Go's `strings` that the provider calls on names and ids, over characters: every
-- separator is ASCII, so cutting by characters and by bytes is the same.
use Prim.Native.Char.{Char, code}
use Prim.Native.String.{[], ◌∷◌}
use cluster_api_provider_vul.Base.{
  ℕ, zero, suc, ◌==◌, nat_eq, String, Bool, true, false, ◌&&◌, ◌||◌, List, if◌then◌else◌,
}

-- `strings.HasPrefix`
abbrev pub has_prefix : String → String → Bool
has_prefix s [] = true
has_prefix [] (d ∷ p) = false
has_prefix (c ∷ s) (d ∷ p) = code c == code d && has_prefix s p

-- `strings.Contains`, for a text to find that is not empty
unfoldable pub has_infix : String → String → Bool
has_infix [] sep = false
has_infix (c ∷ s) sep = has_prefix (c ∷ s) sep || has_infix s sep

abbrev pub push_head : Char → List String → List String
push_head c List.[] = List.◌∷◌ (c ∷ []) List.[]
push_head c (List.◌∷◌ p ps) = List.◌∷◌ (c ∷ p) ps

abbrev pub count_chars : String → ℕ
count_chars [] = zero
count_chars (c ∷ s) = suc (count_chars s)

-- The loop of `strings.Split` for the separator `d ∷ sep`. The number is that of the characters of
-- a separator that are still to skip.
unfoldable pub split_from : Char → String → ℕ → String → List String
split_from d sep skip [] = List.◌∷◌ [] List.[]
split_from d sep (suc k) (c ∷ s) = split_from d sep k s
split_from d sep zero (c ∷ s) =
    let found = has_prefix (c ∷ s) (d ∷ sep) in
    let rest = split_from d sep (if found then count_chars sep else zero) s in
    if found then List.◌∷◌ [] rest else push_head c rest
