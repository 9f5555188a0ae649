-- ===== src/Tests/Accounts.antt =====
-- The instances of a small account over the reconciles of its machines.
use mathlib.Core.List.{Memᴰ}
use cluster_api_provider_vul.Base.{
  ◌≡◌, refl, sym, ap, String, ◌==◌, string_eq, List, [], ◌∷◌, none, inr, length, select, arith,
  eq_iff,
}
use cluster_api_provider_vul.Govultr.{Instance}
use cluster_api_provider_vul.Kube.{Platform, CapiCluster, found}
use cluster_api_provider_vul.Services.Account.{
  owned_count, Shrinks-refl, Run, AtMostOne, shrink_order,
}
use cluster_api_provider_vul.Services.Instance.Cloud.{IsCloud, instance_owner, OfCluster}
use cluster_api_provider_vul.Services.Instance.Listing.{first_page}
use cluster_api_provider_vul.Services.Paging.{Pages, last, more}
use cluster_api_provider_vul.Controller.Entry.{reconcile}
use cluster_api_provider_vul.Controller.Entry
use cluster_api_provider_vul.Scope.Cluster.{new_cluster_scope}
use cluster_api_provider_vul.Controller.Machine.{
  reconcile_normal, find_or_create_instance, persist_id, patch_object, record_details,
  join_load_balancer, report_status, reconcile_instance,
}
use cluster_api_provider_vul.Api.Tags.{tags_owned_by_machine}
use cluster_api_provider_vul.Services.Instance.{
  instance_owned_by_machine, find_instance_for_machine, matching_instances, unique_match,
  create_instance, send_create, ssh_key_ids,
}
use cluster_api_provider_vul.Services.LoadBalancer.{ensure_load_balancer_member}
use cluster_api_provider_vul.Services.CloudConfig.{append_to_user_data_cloud_config}
use cluster_api_provider_vul.Scope.Bootstrap.{get_bootstrap_data}
use cluster_api_provider_vul.Scope.Machine.{
  new_machine_scope, has_terminal_failure, get_instance_id, get_provider_id,
}
use cluster_api_provider_vul.Scope.ProviderId.{provider_id_to_resource_id}
use cluster_api_provider_vul.Base.Exec.{◌>>=◌, on_error}
use cluster_api_provider_vul.Kube.Actions.{
  in_world, fail_with, require, with_object, deferring, get_object, modify, emit,
}
use cluster_api_provider_vul.Controller.Machine.History.{
  called_in, IsReading, History, start, reconciled, reconcile-Run, OneCluster, History-AtMostOne,
}
use cluster_api_provider_vul.Tests.Keeping.{keep-fewer, mem-keep}
use cluster_api_provider_vul.Tests.Sample.{
  Account, sample, account_api, make_instance, error_reply, the_cluster, account_kube,
  empty_account, balanced_cluster, vultr_machine,
}

-- The sample account, with the VultrMachine m1 and its VultrCluster, where the tag step of every
-- create fails.
abbrev served : Platform Account
served = record sample {
  api = record account_api {
    create_instance = λ req w. (
      error_reply none 500,
      record w { instances = record (make_instance req) { tags = [] } ∷ w.instances },
    );
  };
  kube = record account_kube {
    get_machine = λ namespace name w. (found (vultr_machine none), w);
    get_cluster = λ namespace name w. (found balanced_cluster, w);
  };
}

abbrev listed_instances : Account → List Instance
listed_instances w = w.instances

all-listed :
    (name : String) (w : Account) (l : List Instance) (w' : Account)
    → Pages served.api.list_instances w (first_page name) l w'
    → (i : Instance) → Memᴰ i w.instances
    → i.label ≡ name
    → Memᴰ i l
all-listed name w l w' (last fine ended same world) i m e =
    rw same (mem-keep (λ j. j.label == name) i w.instances m ((eq_iff i.label name).1 e))
all-listed name w l w' (more rest fine goes_on same pages) i m e = absurd (goes_on refl)

served-IsCloud : IsCloud served listed_instances
unfolding owned_count shrink_order
served-IsCloud = record {
  get = λ id w. Shrinks-refl w.instances;
  list = λ o w. Shrinks-refl w.instances;
  delete = λ id w. record { no_more = λ params. keep-fewer _ _ w.instances };
  keeping = record {
    ssh_key = λ id w. Shrinks-refl w.instances;
    get_balancer = λ id w. Shrinks-refl w.instances;
    update_balancer = λ id req w. Shrinks-refl w.instances;
    secret = λ namespace name w. Shrinks-refl w.instances;
  };
  patch = λ m w. Shrinks-refl w.instances;
  create = λ req w. inr (_, refl, inr (refl, refl), refl);
  listed = all-listed;
}

served-IsReading : IsReading served listed_instances
served-IsReading = record {
  get_machine = λ namespace name w. Shrinks-refl w.instances;
  get_owner_machine = λ namespace name w. Shrinks-refl w.instances;
  get_cluster_from_metadata = λ machine w. Shrinks-refl w.instances;
  ensure_paused_condition = λ cluster namespace name w. Shrinks-refl w.instances;
  get_cluster = λ namespace name w. Shrinks-refl w.instances;
  new_patch_helper = λ namespace name w. Shrinks-refl w.instances;
}

abbrev after_reconcile : Account → Account
after_reconcile w =
    (reconcile served (Entry.vultr_machine served) "default" "m1" (called_in w)).1.world

-- The first reconcile of m1 starts its instance.
first_reconcile : length (after_reconcile empty_account).instances ≡ 1
unfolding reconcile new_machine_scope require reconcile_normal new_cluster_scope
    find_or_create_instance find_instance_for_machine matching_instances unique_match
    create_instance send_create ssh_key_ids persist_id patch_object record_details
    join_load_balancer report_status reconcile_instance ensure_load_balancer_member
    get_bootstrap_data ◌>>=◌ on_error in_world fail_with with_object deferring get_object modify
    emit has_terminal_failure get_instance_id get_provider_id provider_id_to_resource_id
    append_to_user_data_cloud_config select
first_reconcile = refl

-- The second one adopts it by its label and hostname.
second_reconcile : length (after_reconcile (after_reconcile empty_account)).instances ≡ 1
unfolding reconcile new_machine_scope require reconcile_normal new_cluster_scope
    find_or_create_instance find_instance_for_machine matching_instances unique_match
    create_instance send_create ssh_key_ids persist_id patch_object record_details
    join_load_balancer report_status reconcile_instance ensure_load_balancer_member
    get_bootstrap_data ◌>>=◌ on_error in_world fail_with with_object deferring get_object modify
    emit has_terminal_failure get_instance_id get_provider_id provider_id_to_resource_id
    append_to_user_data_cloud_config select instance_owned_by_machine tags_owned_by_machine
second_reconcile = refl

reconcile-Run_example :
    Run (instance_owner (λ params. Unit {0})) [] (after_reconcile empty_account).instances
reconcile-Run_example =
    reconcile-Run served listed_instances served-IsCloud served-IsReading "default" "m1"
      empty_account

two_reconciles :
    History served listed_instances empty_account (after_reconcile (after_reconcile empty_account))
two_reconciles = reconciled "default" "m1" (reconciled "default" "m1" start refl) refl

-- All machines of the sample are of one cluster.
abbrev only_cluster : String → String
only_cluster name = "uid"

served-OneCluster : OneCluster served only_cluster
served-OneCluster = record {
  uid = λ namespace name machine w w' cluster own e.
      let same : the_cluster ≡ cluster = cc in sym (ap (λ (k : CapiCluster). k.uid) same);
}

none-AtMostOne : AtMostOne (instance_owner (OfCluster only_cluster)) []
unfolding owned_count select
none-AtMostOne = record { at_most_one = λ params among. omega arith }

History-AtMostOne_example :
    AtMostOne
      (instance_owner (OfCluster only_cluster))
      (after_reconcile (after_reconcile empty_account)).instances
History-AtMostOne_example =
    History-AtMostOne served listed_instances served-IsCloud served-IsReading only_cluster
      served-OneCluster two_reconciles none-AtMostOne
