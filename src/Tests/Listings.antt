-- ===== src/Tests/Listings.antt =====
-- Listings of one and of two pages.
use cluster_api_provider_vul.Base.{
  ◌≡◌, ◌≢◌, refl, ℕ, pos, String, Bool, true, false, none, some, List, [], ◌∷◌, ◌↔◌, ◌≤◌, ◌<◌, ◌==◌,
  string_eq, if◌then◌else◌, select, ok, out_of_fuel, arith,
}
use cluster_api_provider_vul.Govultr.{Instance, BareMetalServer, Reply, next_cursor}
use cluster_api_provider_vul.Kube.{Platform}
use cluster_api_provider_vul.Scope.Cluster.{machine_tag_params}
use cluster_api_provider_vul.Services.Instance.{
  find_instance_for_machine, instance_owned_by_machine,
}
use cluster_api_provider_vul.Services.Paging.{Pages, last, more, page_count, Ends}
use cluster_api_provider_vul.Services.Instance.Listing.{first_page, find_exact, find-ne-out_of_fuel}
use cluster_api_provider_vul.Services.BareMetal.{find_bare_metal_server_by_tags}
use cluster_api_provider_vul.Services.BareMetal.Listing as Servers
use cluster_api_provider_vul.Services.BareMetal.Listing.{server_owned, find_server_exact}
use cluster_api_provider_vul.Tests.Sample.{
  Account, sample, account_api, cluster_scope, empty_account,
}

abbrev an_instance : String → Instance
an_instance id = record {
  id = id;
  label = "m1";
  hostname = "m1";
  tags = [];
  status = "active";
  vcpu_count = pos 2;
  ram = pos 4096;
  disk = pos 80;
  main_ip = "203.0.113.7";
  internal_ip = "10.0.0.7";
}

-- The listing of an account in two pages of one instance each.
abbrev page : String → Reply (List Instance)
page cursor = record {
  value = an_instance (if cursor == "" then "i-1" else "i-2") ∷ [];
  error = none;
  response = some 200;
  meta = some (record { links = some (if cursor == "" then "next" else "") });
  rounds = some 200 ∷ [];
}

abbrev two_pages : Platform Account
two_pages = record sample {
  api = record account_api { list_instances = λ o w. (page o.cursor, w) };
}

second_page :
    Pages two_pages.api.list_instances empty_account
      (record (first_page "m1") { cursor = "next" })
      (an_instance "i-2" ∷ [])
      empty_account
second_page = last refl refl refl refl

both_pages :
    Pages two_pages.api.list_instances empty_account
      (first_page "m1")
      (an_instance "i-1" ∷ an_instance "i-2" ∷ [])
      empty_account
both_pages = more (an_instance "i-2" ∷ []) refl goes_on refl second_page
  where
    goes_on : next_cursor (page "").meta ≢ ""
    goes_on h = cc

enough : page_count two_pages.api.list_instances both_pages ≤ two_pages.fuel
unfolding page_count both_pages second_page
enough = omega arith

find_exact_example :
    let owned =
      select
        (instance_owned_by_machine (machine_tag_params cluster_scope "m1" "worker"))
        (an_instance "i-1" ∷ an_instance "i-2" ∷ []) in
    (((find_instance_for_machine two_pages cluster_scope "m1" "worker" empty_account).0 ≡ ok none)
      ↔ (owned ≡ []))
    × ((i : Instance)
        → ((find_instance_for_machine two_pages cluster_scope "m1" "worker" empty_account).0
            ≡ ok (some i))
          ↔ (owned ≡ i ∷ []))
find_exact_example = find_exact two_pages cluster_scope "m1" "worker" both_pages enough

abbrev pages_left : Account → String → ℕ
pages_left w cursor = if cursor == "" then 1 else 0

abbrev next_of : Bool → String
next_of first = if first then "next" else ""

falls_lem :
    (w : Account) (first : Bool)
    → next_of first ≢ ""
    → pages_left w (next_of first) < (if first then 1 else 0)
falls_lem w true h = omega arith
falls_lem w false h = absurd (h refl)

falls : Ends two_pages.api.list_instances pages_left
falls o w h = falls_lem w (o.cursor == "") h

short : pages_left empty_account "" < two_pages.fuel
short = omega arith

find-ne-out_of_fuel_example :
    (find_instance_for_machine two_pages cluster_scope "m1" "worker" empty_account).0 ≢ out_of_fuel
find-ne-out_of_fuel_example =
    find-ne-out_of_fuel two_pages pages_left falls cluster_scope "m1" "worker" empty_account short

abbrev a_server : String → BareMetalServer
a_server id = record {
  id = id;
  label = "b1";
  tags = "name:b1" ∷ "capvultr:cluster-uid:uid" ∷ [];
  status = "active";
  plan = "vbm-4c-32gb";
  cpu_count = pos 8;
  ram = "32768 MB";
  disk = "2x 240GB SSD";
  main_ip = "203.0.113.8";
}

-- The servers of an account in two pages, of which the second is empty.
abbrev server_page : String → Reply (List BareMetalServer)
server_page cursor = record {
  value = if cursor == "" then a_server "s-1" ∷ [] else [];
  error = none;
  response = some 200;
  meta = some (record { links = some (if cursor == "" then "next" else "") });
  rounds = some 200 ∷ [];
}

abbrev served : Platform Account
served = record sample {
  api = record account_api { list_servers = λ o w. (server_page o.cursor, w) };
}

server_pages :
    Pages served.api.list_servers empty_account
      (Servers.first_page "b1")
      (a_server "s-1" ∷ [])
      empty_account
server_pages = more [] refl goes_on refl (last refl refl refl refl)
  where
    goes_on : next_cursor (server_page "").meta ≢ ""
    goes_on h = cc

enough_for_servers : page_count served.api.list_servers server_pages ≤ served.fuel
unfolding page_count server_pages
enough_for_servers = omega arith

find_server_exact_example :
    let owned =
      select
        (server_owned (machine_tag_params cluster_scope "b1" "worker"))
        (a_server "s-1" ∷ []) in
    let run = find_bare_metal_server_by_tags served cluster_scope "b1" "worker" empty_account in
    ((run.0 ≡ ok none) ↔ (owned ≡ []))
    × ((s : BareMetalServer) → (run.0 ≡ ok (some s)) ↔ (owned ≡ s ∷ []))
    × (run.1 ≡ empty_account)
find_server_exact_example =
    find_server_exact served cluster_scope "b1" "worker" server_pages enough_for_servers
