-- ===== src/Scope/ProviderId/RoundTrip.antt =====
-- Provider ids, built and read back.
use text.Mathlib.TextLemmas.{nil-append, cons-append}
use cluster_api_provider_vul.Base.{
  ◌≡◌, refl, ap, ◌∙◌, String, ◌<>◌, Bool, false, ◌||◌, List, string_eq, arith,
}
use cluster_api_provider_vul.Text.{has_prefix, has_infix, split_from}
use cluster_api_provider_vul.Scope.ProviderId.{
  provider_id_to_resource_id, resource_id_to_provider_id,
}

or_false : (a b : Bool) → (a || b) ≡ false → (a ≡ false) × (b ≡ false)
or_false a b h = ground arith

-- A text without the separator is one part.
split_whole :
    (s : String) → has_infix s "://" ≡ false → split_from ":" "//" 0 s ≡ List.◌∷◌ s List.[]
unfolding has_infix split_from
split_whole String.[] h = refl
split_whole (String.◌∷◌ c s) h =
    let (here, later) = or_false (has_prefix (String.◌∷◌ c s) "://") (has_infix s "://") h in
    rw (here, split_whole s later) refl

separator_lem : (s : String) → "://" <> s ≡ String.◌∷◌ ":" (String.◌∷◌ "/" (String.◌∷◌ "/" s))
separator_lem s =
    cons-append ":" "//" s
    ∙ ap (String.◌∷◌ ":") (
        cons-append "/" "/" s
        ∙ ap (String.◌∷◌ "/") (cons-append "/" "" s ∙ ap (String.◌∷◌ "/") (nil-append s)))

built_lem :
    (t : String)
    → "vultr" <> t
      ≡ String.◌∷◌ "v" (String.◌∷◌ "u" (String.◌∷◌ "l" (String.◌∷◌ "t" (String.◌∷◌ "r" t))))
built_lem t =
    cons-append "v" "ultr" t
    ∙ ap (String.◌∷◌ "v") (
        cons-append "u" "ltr" t
        ∙ ap (String.◌∷◌ "u") (
            cons-append "l" "tr" t
            ∙ ap (String.◌∷◌ "l") (
                cons-append "t" "r" t
                ∙ ap (String.◌∷◌ "t") (cons-append "r" "" t ∙ ap (String.◌∷◌ "r") (nil-append t)))))

-- The scheme and the separator of a built id are cut off, whatever follows.
split_scheme :
    (s : String)
    → split_from ":" "//" 0 (resource_id_to_provider_id s)
      ≡ List.◌∷◌ "vultr" (split_from ":" "//" 0 s)
unfolding split_from resource_id_to_provider_id
split_scheme s =
    ap (split_from ":" "//" 0) (built_lem ("://" <> s))
    ∙ ap
        (λ t.
          split_from ":" "//" 0
            (String.◌∷◌ "v" (String.◌∷◌ "u" (String.◌∷◌ "l" (String.◌∷◌ "t" (String.◌∷◌ "r" t))))))
        (separator_lem s)

-- `ProviderIDToResourceID` reads back the id that `ResourceIDToProviderID` was given, for an id
-- that does not contain "://".
pub resource_id-round_trip :
    (id : String)
    → has_infix id "://" ≡ false
    → provider_id_to_resource_id (resource_id_to_provider_id id) ≡ id
unfolding provider_id_to_resource_id
resource_id-round_trip id h = rw (split_scheme id, split_whole id h) refl
