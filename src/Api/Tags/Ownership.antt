-- ===== src/Api/Tags/Ownership.antt =====
-- Whose machine a list of tags names.
use Prim.Native.Char.{Char, code}
use text.Mathlib.TextLemmas.{append_cancel_left, cons-append, append_assoc, head-eq_of_cons-eq}
use cluster_api_provider_vul.Base.{
  String, ◌<>◌, ◌==◌, ◌||◌, false, ◌≡◌, ◌≢◌, ◌↔◌, refl, ap, sym, ◌∙◌, true, ◌++◌, List, string_eq,
  contains, contains-append, arith, eq_iff,
}
use cluster_api_provider_vul.Api.Tags.{
  cluster_tag, cluster_uid_tag, role_tag, name_tag_from_name, BuildTagParams, build_tags,
  tags_owned_by_machine,
}

heads_differ :
    (c d : Char) (p q s t : String)
    → code c ≢ code d
    → (String.◌∷◌ c p) <> s ≢ (String.◌∷◌ d q) <> t
heads_differ c d p q s t h e =
    h (ap code (head-eq_of_cons-eq (sym (cons-append c p s) ∙ e ∙ cons-append d q t)))

name_tag_inj : (s t : String) → name_tag_from_name s ≡ name_tag_from_name t → s ≡ t
unfolding name_tag_from_name
name_tag_inj s t e = append_cancel_left "name:" s t e

cluster_uid_tag_inj : (s t : String) → cluster_uid_tag s ≡ cluster_uid_tag t → s ≡ t
unfolding cluster_uid_tag
cluster_uid_tag_inj s t e =
    append_cancel_left ":cluster-uid:" s t (append_cancel_left "capvultr" _ _ e)

-- A tag of the provider's own prefix is no name tag.
prefixed-ne-name_tag : (s t : String) → "capvultr" <> s ≢ name_tag_from_name t
unfolding name_tag_from_name
prefixed-ne-name_tag s t e = heads_differ "c" "n" "apvultr" "ame:" s t (omega arith) e

cluster_tag-ne-uid_tag : (s t : String) → cluster_tag s ≢ cluster_uid_tag t
unfolding cluster_tag cluster_uid_tag
cluster_tag-ne-uid_tag s t e = heads_differ ":" "-" "" "uid:" s t (omega arith) (
    append_cancel_left ":cluster" (":" <> s) ("-uid:" <> t) (
      sym (append_assoc ":cluster" ":" s)
      ∙ append_cancel_left "capvultr" _ _ e
      ∙ append_assoc ":cluster" "-uid:" t))

role_tag-ne-uid_tag : (s t : String) → role_tag s ≢ cluster_uid_tag t
unfolding role_tag cluster_uid_tag
role_tag-ne-uid_tag s t e = heads_differ "r" "c" "ole:" "luster-uid:" s t (omega arith) (
    append_cancel_left ":" ("role:" <> s) ("cluster-uid:" <> t) (
      sym (append_assoc ":" "role:" s)
      ∙ append_cancel_left "capvultr" _ _ e
      ∙ append_assoc ":" "cluster-uid:" t))

name_tag-ne-uid_tag : (s t : String) → name_tag_from_name s ≢ cluster_uid_tag t
unfolding cluster_uid_tag
name_tag-ne-uid_tag s t e = prefixed-ne-name_tag (":cluster-uid:" <> t) s (sym e)

cluster_tag-ne-name_tag : (s t : String) → cluster_tag s ≢ name_tag_from_name t
unfolding cluster_tag
cluster_tag-ne-name_tag s t = prefixed-ne-name_tag (":cluster:" <> s) t

uid_tag-ne-name_tag : (s t : String) → cluster_uid_tag s ≢ name_tag_from_name t
unfolding cluster_uid_tag
uid_tag-ne-name_tag s t = prefixed-ne-name_tag (":cluster-uid:" <> s) t

role_tag-ne-name_tag : (s t : String) → role_tag s ≢ name_tag_from_name t
unfolding role_tag
role_tag-ne-name_tag s t = prefixed-ne-name_tag (":role:" <> s) t

contains-build_tags :
    (p : BuildTagParams) (t : String)
    → contains (build_tags p) t ≡ (
        cluster_tag p.cluster_name == t
        || (cluster_uid_tag p.cluster_uid == t
            || (role_tag p.role == t || (name_tag_from_name p.name == t || false))))
unfolding contains build_tags
contains-build_tags p t = refl

module _ (p : BuildTagParams) (x : String) where
  contains_name_tag : (contains (build_tags p) (name_tag_from_name x) ≡ true) ↔ (p.name ≡ x)
  contains_name_tag = ground (
    arith,
    contains-build_tags p (name_tag_from_name x),
    eq_iff (cluster_tag p.cluster_name) (name_tag_from_name x),
    eq_iff (cluster_uid_tag p.cluster_uid) (name_tag_from_name x),
    eq_iff (role_tag p.role) (name_tag_from_name x),
    eq_iff (name_tag_from_name p.name) (name_tag_from_name x),
    cluster_tag-ne-name_tag p.cluster_name x,
    uid_tag-ne-name_tag p.cluster_uid x,
    role_tag-ne-name_tag p.role x,
    name_tag_inj p.name x,
  )

  contains_uid_tag : (contains (build_tags p) (cluster_uid_tag x) ≡ true) ↔ (p.cluster_uid ≡ x)
  contains_uid_tag = ground (
    arith,
    contains-build_tags p (cluster_uid_tag x),
    eq_iff (cluster_tag p.cluster_name) (cluster_uid_tag x),
    eq_iff (cluster_uid_tag p.cluster_uid) (cluster_uid_tag x),
    eq_iff (role_tag p.role) (cluster_uid_tag x),
    eq_iff (name_tag_from_name p.name) (cluster_uid_tag x),
    cluster_tag-ne-uid_tag p.cluster_name x,
    role_tag-ne-uid_tag p.role x,
    name_tag-ne-uid_tag p.name x,
    cluster_uid_tag_inj p.cluster_uid x,
  )

-- The tags that the provider puts on the machine of `p` identify the machine of `q` exactly when
-- the two have one name and one cluster uid, whatever the cluster names and the roles.
pub owned_build_tags_iff :
    (p q : BuildTagParams)
    → (tags_owned_by_machine (build_tags p) q ≡ true)
      ↔ ((p.name ≡ q.name) × (p.cluster_uid ≡ q.cluster_uid))
unfolding tags_owned_by_machine
owned_build_tags_iff p q =
    ground (arith, contains_name_tag p q.name, contains_uid_tag p q.cluster_uid)

-- More tags, such as the additional tags of a specification, never hide the owner.
pub owned-append :
    (tags more : List String) (p : BuildTagParams)
    → tags_owned_by_machine tags p ≡ true
    → tags_owned_by_machine (tags ++ more) p ≡ true
unfolding tags_owned_by_machine
owned-append tags more p h = ground (
  arith,
  contains-append tags more (name_tag_from_name p.name),
  contains-append tags more (cluster_uid_tag p.cluster_uid),
)
