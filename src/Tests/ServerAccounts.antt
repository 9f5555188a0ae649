-- ===== src/Tests/ServerAccounts.antt =====
-- The bare metal servers of a small account over the reconciles of its machines.
use mathlib.Core.List.{Memᴰ}
use mathlib.Core.Path.{subst}
use cluster_api_provider_vul.Base.{
  ◌≡◌, refl, sym, ◌∙◌, String, string_eq, true, List, [], ◌∷◌, inr, none, contains, arith, length,
  select,
}
use cluster_api_provider_vul.Base.Exec.{◌>>=◌, on_error}
use cluster_api_provider_vul.Api.Tags.{name_tag_from_name, build_tags, tags_owned_by_machine}
use cluster_api_provider_vul.Govultr.{BareMetalServer}
use cluster_api_provider_vul.Kube.{Platform, found}
use cluster_api_provider_vul.Services.Account.{owned_count, Shrinks-refl, AtMostOne, shrink_order}
use cluster_api_provider_vul.Services.BareMetal.Cloud.{
  IsServerCloud, server_owner, unreserved-Harmless,
}
use cluster_api_provider_vul.Services.BareMetal.Listing.{first_page}
use cluster_api_provider_vul.Services.Paging.{Pages, last, more}
use cluster_api_provider_vul.Controller.Entry
use cluster_api_provider_vul.Controller.Entry.{reconcile, vultr_bare_metal_machine}
use cluster_api_provider_vul.Controller.Entry.Bounds.{Paced, reconcile-Paced}
use cluster_api_provider_vul.Scope.Cluster.{new_cluster_scope}
use cluster_api_provider_vul.Controller.BareMetal.{
  reconcile_normal, find_or_create_server, close, reconcile_server,
}
use cluster_api_provider_vul.Services.BareMetal.{
  find_bare_metal_server_by_tags, matching_servers, create_bare_metal_server, send_create,
  ssh_key_ids, unique_match,
}
use cluster_api_provider_vul.Services.CloudConfig.Prepend.{prepend_cloud_config_run_cmds}
use cluster_api_provider_vul.Scope.Bootstrap.{get_bootstrap_data, machine_role}
use cluster_api_provider_vul.Services.CloudConfig.{split_cloud_config_header}
use cluster_api_provider_vul.Scope.BareMetal.{
  new_bare_metal_machine_scope, has_terminal_failure, get_server_id, get_provider_id,
}
use cluster_api_provider_vul.Scope.ProviderId.{provider_id_to_resource_id}
use cluster_api_provider_vul.Kube.Actions.{
  fail_with, require, with_object, deferring, in_world, get_object, modify, emit,
}
use cluster_api_provider_vul.Controller.BareMetal.Launch.{HarmlessTags}
use cluster_api_provider_vul.Controller.BareMetal.History.{
  called_in, IsServerReading, ServerHistory, start, reconciled, ServerHistory-AtMostOne,
}
use cluster_api_provider_vul.Tests.Keeping.{keep-fewer, mem-keep}
use cluster_api_provider_vul.Tests.Sample.{
  Account, sample, vultr_machine, account_kube, holds, balanced_cluster, empty_account,
  bare_metal_machine,
}
use cluster_api_provider_vul.Tests.Servers.{empty_yaml}

-- The sample account, with the VultrMachine m1, the VultrBareMetalMachine b1 and
-- their VultrCluster.
abbrev served : Platform Account
served = record sample {
  kube = record account_kube {
    get_machine = λ namespace name w. (found (vultr_machine none), w);
    get_bare_metal = λ namespace name w. (found (bare_metal_machine none), w);
    get_cluster = λ namespace name w. (found balanced_cluster, w);
  };
}

abbrev listed_servers : Account → List BareMetalServer
listed_servers w = w.servers

contains-holds : (l : List String) (t : String) → contains l t ≡ holds l t
unfolding contains
contains-holds [] t = refl
contains-holds (x ∷ l) t = rw (contains-holds l t) refl

all-listed :
    (name : String) (w : Account) (l : List BareMetalServer) (w' : Account)
    → Pages served.api.list_servers w (first_page name) l w'
    → (s : BareMetalServer) → Memᴰ s w.servers
    → contains s.tags (name_tag_from_name name) ≡ true
    → Memᴰ s l
all-listed name w l w' (last fine ended same world) s m e = rw same (
    mem-keep (λ v. holds v.tags (name_tag_from_name name)) s w.servers m
      (sym (contains-holds s.tags (name_tag_from_name name)) ∙ e))
all-listed name w l w' (more rest fine goes_on same pages) s m e = absurd (goes_on refl)

served-IsServerCloud : IsServerCloud served listed_servers
unfolding owned_count shrink_order
served-IsServerCloud = record {
  get = λ id w. Shrinks-refl w.servers;
  list = λ o w. Shrinks-refl w.servers;
  delete = λ id w. record { no_more = λ params. keep-fewer _ _ w.servers };
  list_vpcs = λ id w. Shrinks-refl w.servers;
  attach = λ id vpc_id w. Shrinks-refl w.servers;
  keeping = record {
    ssh_key = λ id w. Shrinks-refl w.servers;
    get_balancer = λ id w. Shrinks-refl w.servers;
    update_balancer = λ id req w. Shrinks-refl w.servers;
    secret = λ namespace name w. Shrinks-refl w.servers;
  };
  patch = λ m w. Shrinks-refl w.servers;
  create = λ req w. inr (_, refl, refl);
  listed = all-listed;
}

abbrev after_reconcile : Account → Account
after_reconcile w =
    (reconcile served (vultr_bare_metal_machine served empty_yaml) "default" "b1"
      (called_in w)).1.world

plain-HarmlessTags : HarmlessTags (bare_metal_machine none)
unfolding contains
plain-HarmlessTags params = unreserved-Harmless params [] (λ x. refl) (λ x. refl)

served-IsServerReading : IsServerReading served listed_servers
served-IsServerReading = record {
  get_bare_metal = λ namespace name w. Shrinks-refl w.servers;
  harmless = λ namespace name w m e.
      let same : bare_metal_machine none ≡ m = cc in subst HarmlessTags same plain-HarmlessTags;
  get_owner_machine = λ namespace name w. Shrinks-refl w.servers;
  get_cluster_from_metadata = λ machine w. Shrinks-refl w.servers;
  ensure_paused_condition = λ cluster namespace name w. Shrinks-refl w.servers;
  get_cluster = λ namespace name w. Shrinks-refl w.servers;
  new_patch_helper = λ namespace name w. Shrinks-refl w.servers;
}

two_reconciles :
    ServerHistory served empty_yaml listed_servers empty_account
      (after_reconcile (after_reconcile empty_account))
two_reconciles = reconciled "default" "b1" (reconciled "default" "b1" start refl) refl

none-AtMostOne : AtMostOne server_owner []
unfolding owned_count select
none-AtMostOne = record { at_most_one = λ params among. omega arith }

ServerHistory-AtMostOne_example :
    AtMostOne server_owner (after_reconcile (after_reconcile empty_account)).servers
ServerHistory-AtMostOne_example =
    ServerHistory-AtMostOne served empty_yaml listed_servers served-IsServerCloud
      served-IsServerReading two_reconciles none-AtMostOne

-- The first reconcile of b1 starts its server, and the second adopts it.
two_reconciles_start_one : length (after_reconcile (after_reconcile empty_account)).servers ≡ 1
unfolding reconcile new_bare_metal_machine_scope require new_cluster_scope fail_with with_object
    deferring close reconcile_normal find_or_create_server find_bare_metal_server_by_tags
    matching_servers create_bare_metal_server send_create ssh_key_ids prepend_cloud_config_run_cmds
    get_bootstrap_data ◌>>=◌ on_error in_world get_object modify emit has_terminal_failure
    get_server_id get_provider_id provider_id_to_resource_id select unique_match
    split_cloud_config_header reconcile_server build_tags machine_role tags_owned_by_machine
two_reconciles_start_one = refl

reconcile-Paced_example :
    Paced
      (reconcile served
        (Entry.vultr_machine served)
        "default"
        "b1"
        (record { world = empty_account; object = none; events = [] })).0
    × Paced
        (reconcile served
          (vultr_bare_metal_machine served empty_yaml)
          "default"
          "b1"
          (called_in empty_account)).0
reconcile-Paced_example =
    reconcile-Paced served empty_yaml "default" "b1"
      (record { world = empty_account; object = none; events = [] }) (called_in empty_account)
