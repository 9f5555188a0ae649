-- ===== src/Services/CloudConfig/Prepend/Runcmd.antt =====
-- What `PrependCloudConfigRunCmds` makes of a document.
use cluster_api_provider_vul.Base.{
  ◌≡◌, ◌≢◌, refl, sym, ◌∙◌, String, ◌==◌, string_eq, eq_iff, eq_false_of_ne, if◌then◌else◌, false,
  Option, some, List, [], ◌∷◌, ◌++◌, map, Outcome, ok, err, panic, out_of_fuel, arith,
}
use cluster_api_provider_vul.Services.CloudConfig.{
  Bytes, cloud_config_header, is_empty, split_cloud_config_header,
}
use cluster_api_provider_vul.Services.CloudConfig.Prepend.{
  Value, items, Doc, lookup, insert, or_empty_doc, Yaml, IsLawful, runcmd_list, wrapped, ◌>>=◌,
  prepend_to_body, prepend_cloud_config_run_cmds,
}

module _ {V : Type 0} where
  lookup-insert :
      (k : String) (v : Value V) (doc : Doc V) (j : String)
      → lookup j (insert k v doc) ≡ (if k == j then some v else lookup j doc)
  unfolding lookup insert
  lookup-insert k v [] j = refl
  lookup-insert k v ((i, w) ∷ doc) j =
      ground (arith, lookup-insert k v doc j, eq_iff i k, eq_iff k j, eq_iff i j)

  pub lookup-insert_other :
      (k : String) (v : Value V) (doc : Doc V) (j : String)
      → j ≢ k
      → lookup j (insert k v doc) ≡ lookup j doc
  lookup-insert_other k v doc j h =
      rw (lookup-insert k v doc j, eq_false_of_ne k j (λ e. h (sym e))) refl

module _ {A B : Type 0} where
  bind_inv :
      (m : Outcome A) (f : A → Outcome B) (b : B)
      → (m >>= f) ≡ ok b
      → (a : A) × (m ≡ ok a) × (f a ≡ ok b)
  bind_inv (ok a) f b e = (a, refl, e)
  bind_inv (err x) f b e = cc
  bind_inv panic f b e = cc
  bind_inv out_of_fuel f b e = cc

module _ {A : Type 0} where
  wrapped_inv : (context : String) (m : Outcome A) (a : A) → wrapped context m ≡ ok a → m ≡ ok a
  wrapped_inv context (ok b) a e = e
  wrapped_inv context (err x) a e = cc
  wrapped_inv context panic a e = cc
  wrapped_inv context out_of_fuel a e = cc

module _ {V : Type 0} (yaml : Yaml V) where
  -- How the result is made of the prefix, the body and the commands: it is the prefix, the header
  -- line and a document that reads back with the commands before the old ones under "runcmd", and
  -- with every other entry as in the body.
  pub record Prepended (prefix body : Bytes) (cmds : List Bytes) (result : Bytes) : Type 0 where
    pub out : Bytes
    pub before : Option (Doc V)
    pub after : Doc V
    pub old : List V
    pub shape : result ≡ prefix ++ cloud_config_header ++ 10 ∷ out
    pub parsed : yaml.unmarshal body ≡ ok before
    pub reads_back : yaml.unmarshal out ≡ ok (some after)
    pub old_list : runcmd_list yaml (lookup "runcmd" (or_empty_doc before)) ≡ ok old
    pub runcmd : lookup "runcmd" after ≡ some (items (map yaml.scalar cmds ++ old))
    pub others : (k : String) → k ≢ "runcmd" → lookup k after ≡ lookup k (or_empty_doc before)

  prepend_to_body-Prepended :
      IsLawful yaml
      → (prefix body : Bytes) (cmds : List Bytes) (result : Bytes)
      → prepend_to_body yaml prefix body cmds ≡ ok result
      → Prepended prefix body cmds result
  unfolding prepend_to_body
  prepend_to_body-Prepended lawful prefix body cmds result e =
      let (before, parsed, e1) = bind_inv _ _ result e in
      let (old, old_list, e2) = bind_inv _ _ result e1 in
      let (out, written, e3) = bind_inv _ _ result e2 in
      let (after, reads_back, same) =
        lawful.unmarshal-marshal _ out (wrapped_inv _ _ out written) in
      let runcmd : Value V = items (map yaml.scalar cmds ++ old) in
      record {
        out = out;
        before = before;
        after = after;
        old = old;
        shape = cc;
        parsed = wrapped_inv _ _ before parsed;
        reads_back = reads_back;
        old_list = old_list;
        runcmd = same "runcmd" ∙ lookup-insert "runcmd" runcmd (or_empty_doc before) "runcmd";
        others = λ k h. same k ∙ lookup-insert_other "runcmd" runcmd (or_empty_doc before) k h;
      }

  prepend_lem :
      (user_data prefix body cmd : Bytes) (cmds : List Bytes)
      → split_cloud_config_header user_data ≡ ok (prefix, body)
      → is_empty body ≡ false
      → prepend_cloud_config_run_cmds yaml user_data (cmd ∷ cmds)
        ≡ prepend_to_body yaml prefix body (cmd ∷ cmds)
  unfolding prepend_cloud_config_run_cmds
  prepend_lem user_data prefix body cmd cmds split nonempty = rw (split, nonempty) refl

  -- Where writing a document and reading it back keeps its entries, the header is split off with a
  -- body that is not empty, and there is a command, `PrependCloudConfigRunCmds` that returns a
  -- result returns the prefix, the header line and a document in which the commands stand before
  -- the old ones under "runcmd", and every other entry is that of the body.
  pub prepend-Prepended :
      IsLawful yaml
      → (user_data prefix body cmd : Bytes) (cmds : List Bytes) (result : Bytes)
      → split_cloud_config_header user_data ≡ ok (prefix, body)
      → is_empty body ≡ false
      → prepend_cloud_config_run_cmds yaml user_data (cmd ∷ cmds) ≡ ok result
      → Prepended prefix body (cmd ∷ cmds) result
  prepend-Prepended lawful user_data prefix body cmd cmds result split nonempty e =
      prepend_to_body-Prepended lawful prefix body (cmd ∷ cmds) result
        (sym (prepend_lem user_data prefix body cmd cmds split nonempty) ∙ e)
