-- ===== src/Tests/Sample.antt =====
-- A small Vultr account with one load balancer, and a Kubernetes API that accepts every patch.
use cluster_api_provider_vul.Base.{
  ℕ, suc, pos, ◌≡◌, refl, ◌==◌, nat_eq, string_eq, ◌&&◌, ◌||◌, not, String, Bool, true, false,
  Option, none, some, List, [], ◌∷◌, contains, if◌then◌else◌, foreign, arith, eq_iff,
}
use cluster_api_provider_vul.Api.Conditions.{
  Condition, ConditionStatus, condition_true, condition_false, condition_unknown,
}
use cluster_api_provider_vul.Api.Cluster.{VultrCluster, zero_vultr_cluster}
use cluster_api_provider_vul.Api.Machine.{VultrMachine}
use cluster_api_provider_vul.Api.BareMetal.{VultrBareMetalMachine}
use cluster_api_provider_vul.Govultr.{
  Instance, InstanceCreateReq, BareMetalServer, BareMetalCreate, LoadBalancer, Reply, Api,
}
use cluster_api_provider_vul.Kube.{
  CapiCluster, CapiMachine, Library, IsLawful, Kube, Platform, Env, found, missing,
}
use cluster_api_provider_vul.Scope.Cluster.{ClusterScope, set_api_server_loadbalancers_ref}
use cluster_api_provider_vul.Scope.Machine.{MachineScope}
use cluster_api_provider_vul.Scope.BareMetal.{BareMetalMachineScope}

pub record Account : Type 0 where
  pub instances : List Instance
  pub servers : List BareMetalServer
  pub members : List String
  pub patches : ℕ

abbrev pub ok_reply : {A : Type 0} → A → Reply A
ok_reply a = record {
  value = a;
  error = none;
  response = some 200;
  meta = none;
  rounds = some 200 ∷ [];
}

abbrev pub error_reply : {A : Type 0} → A → ℕ → Reply A
error_reply a code = record {
  value = a;
  error = some (foreign "not found");
  response = none;
  meta = none;
  rounds = some code ∷ [];
}

abbrev pub find_instance : String → List Instance → Reply (Option Instance)
find_instance id [] = error_reply none 404
find_instance id (i ∷ more) = if i.id == id then ok_reply (some i) else find_instance id more

abbrev find_server : String → List BareMetalServer → Reply (Option BareMetalServer)
find_server id [] = error_reply none 404
find_server id (s ∷ more) = if s.id == id then ok_reply (some s) else find_server id more

abbrev pub keep : {A : Type 0} → (A → Bool) → List A → List A
keep f [] = []
keep f (a ∷ l) = let rest = keep f l in if f a then a ∷ rest else rest

abbrev pub holds : List String → String → Bool
holds [] t = false
holds (x ∷ l) t = x == t || holds l t

abbrev pub make_instance : InstanceCreateReq → Instance
make_instance req = record {
  id = "i-1";
  label = req.label;
  hostname = req.hostname;
  tags = req.tags;
  status = "pending";
  vcpu_count = pos 2;
  ram = pos 4096;
  disk = pos 80;
  main_ip = "203.0.113.7";
  internal_ip = "10.0.0.7";
}

abbrev make_server : BareMetalCreate → BareMetalServer
make_server req = record {
  id = "s-1";
  label = req.label;
  tags = req.tags;
  status = "pending";
  plan = req.plan;
  cpu_count = pos 8;
  ram = "32768 MB";
  disk = "2x 240GB SSD";
  main_ip = "203.0.113.8";
}

abbrev pub balancer : List String → LoadBalancer
balancer members = record {
  id = "lb-1";
  label = "c1-uid";
  status = "active";
  ipv4 = "203.0.113.1";
  instances = members;
}

abbrev pub account_api : Api Account
account_api = record {
  get_instance = λ id w. (find_instance id w.instances, w);
  list_instances = λ o w. (ok_reply (keep (λ i. i.label == o.label) w.instances), w);
  create_instance = λ req w. (
    ok_reply (some (make_instance req)),
    record w { instances = make_instance req ∷ w.instances },
  );
  delete_instance =
      λ id w. (ok_reply tt, record w { instances = keep (λ i. not (i.id == id)) w.instances });
  get_server = λ id w. (find_server id w.servers, w);
  list_servers = λ o w. (ok_reply (keep (λ s. holds s.tags o.tag) w.servers), w);
  create_server = λ req w.
      (ok_reply (some (make_server req)), record w { servers = make_server req ∷ w.servers });
  delete_server =
      λ id w. (ok_reply tt, record w { servers = keep (λ s. not (s.id == id)) w.servers });
  list_vpc_info = λ id w. (ok_reply [], w);
  attach_vpc = λ id vpc w. (ok_reply tt, w);
  get_load_balancer = λ id w. (ok_reply (some (balancer w.members)), w);
  create_load_balancer = λ req w. (ok_reply (some (balancer [])), w);
  update_load_balancer = λ id req w. (ok_reply tt, record w { members = req.instances });
  delete_load_balancer = λ id w. (ok_reply tt, w);
  get_ssh_key = λ id w. (ok_reply (some (record { id = id })), w);
}

abbrev pub the_cluster : CapiCluster
the_cluster = record {
  name = "c1";
  uid = "uid";
  infrastructure_ref_name = "c1";
  infrastructure_provisioned = some true;
  conditions = [];
}

abbrev pub the_machine : CapiMachine
the_machine = record {
  namespace = "default";
  labels = [];
  data_secret_name = some "m1-bootstrap";
  infrastructure_ref_name = "m1";
  infrastructure_ref_kind = "VultrMachine";
}

-- A VultrMachine in the middle of its life, with a given provider id.
abbrev pub vultr_machine : Option String → VultrMachine
vultr_machine provider_id = record {
  name = "m1";
  namespace = "default";
  finalizers = [];
  deleting = false;
  spec = record {
    provider_id = provider_id;
    snapshot = "";
    plan_id = "vc2-2c-4gb";
    region = "ewr";
    ssh_key = [];
    vpc_id = "";
    vpc_only = false;
    firewall_group_id = "";
    vpc2_id = "";
  };
  status = record {
    ready = false;
    cpu = pos 0;
    ram = pos 0;
    storage = pos 0;
    initialization = record { provisioned = false };
    addresses = [];
    subscription_status = none;
    power_status = none;
    server_state = none;
    conditions = [];
  };
}

abbrev pub bare_metal_machine : Option String → VultrBareMetalMachine
bare_metal_machine provider_id = record {
  name = "b1";
  namespace = "default";
  finalizers = [];
  deleting = false;
  spec = record {
    provider_id = provider_id;
    region = "ewr";
    plan_id = "vbm-4c-32gb";
    os_id = pos 2284;
    ssh_key = [];
    vpc_id = "";
    mdisk_mode = "";
    enable_ipv6 = none;
    additional_tags = [];
  };
  status = record {
    ready = false;
    initialization = record { provisioned = none };
    addresses = [];
    cpu = pos 0;
    ram = "";
    disk = "";
    subscription_status = none;
    vpc = none;
    conditions = [];
  };
}

-- Conditions as a list with one entry for each type, and finalizers as a list.
abbrev put_condition : Condition → List Condition → List Condition
put_condition c [] = c ∷ []
put_condition c (d ∷ l) =
    let rest = put_condition c l in if d.type == c.type then c ∷ l else d ∷ rest

abbrev read_condition : List Condition → String → Option Condition
read_condition [] t = none
read_condition (d ∷ l) t = let rest = read_condition l t in if d.type == t then some d else rest

abbrev drop_finalizer : String → List String → List String
drop_finalizer f [] = []
drop_finalizer f (g ∷ l) = let rest = drop_finalizer f l in if g == f then rest else g ∷ rest

abbrev status_is : ConditionStatus → Option Condition → Bool
status_is s none = false
status_is condition_true (some c) = elim c.status [ condition_true ↦ true | _ ↦ false ]
status_is condition_false (some c) = elim c.status [ condition_false ↦ true | _ ↦ false ]
status_is condition_unknown (some c) = elim c.status [ condition_unknown ↦ true | _ ↦ false ]

abbrev reason_of : Option Condition → String
reason_of none = ""
reason_of (some c) = c.reason

abbrev pub list_library : Library
list_library = record {
  set_condition = put_condition;
  get_condition = read_condition;
  is_true = λ l t. t == "InfrastructureReady" || status_is condition_true (read_condition l t);
  is_false = λ l t. status_is condition_false (read_condition l t);
  get_reason = λ l t. reason_of (read_condition l t);
  add_finalizer = λ f l. f ∷ drop_finalizer f l;
  remove_finalizer = drop_finalizer;
  is_control_plane_machine = λ m. true;
  error_text = λ e. "error";
}

read-put_condition :
    (c : Condition) (l : List Condition) (t : String)
    → read_condition (put_condition c l) t ≡ (if c.type == t then some c else read_condition l t)
read-put_condition c [] t = refl
read-put_condition c (d ∷ l) t =
    ground (arith, read-put_condition c l t, eq_iff d.type c.type, eq_iff c.type t, eq_iff d.type t)

contains-drop :
    (f g : String) (l : List String)
    → contains (drop_finalizer f l) g ≡ (not (f == g) && contains l g)
unfolding contains
contains-drop f g [] = ground arith
contains-drop f g (h ∷ l) = ground (arith, contains-drop f g l, eq_iff h f, eq_iff f g, eq_iff h g)

contains-add :
    (f g : String) (l : List String)
    → contains (f ∷ drop_finalizer f l) g ≡ (f == g || contains l g)
unfolding contains
contains-add f g l = ground (arith, contains-drop f g l)

-- The list functions are as the documentation of the libraries says.
pub list_library-IsLawful : IsLawful list_library
list_library-IsLawful = record {
  get-set = read-put_condition;
  contains-add = contains-add;
  contains-remove = contains-drop;
}

abbrev pub account_kube : Kube Account
account_kube = record {
  get_secret = λ namespace name w. (found (("value", 35 ∷ 33 ∷ 47 ∷ 98 ∷ 105 ∷ 110 ∷ []) ∷ []), w);
  get_cluster = λ namespace name w. (missing (foreign "not found"), w);
  get_machine = λ namespace name w. (missing (foreign "not found"), w);
  get_bare_metal = λ namespace name w. (missing (foreign "not found"), w);
  get_owner_cluster = λ c w. (found (some the_cluster), w);
  get_owner_machine = λ namespace name w. (found (some the_machine), w);
  get_cluster_from_metadata = λ m w. (found the_cluster, w);
  is_paused = λ cluster c. false;
  ensure_paused_condition =
      λ cluster namespace name w. (record { is_paused = false; requeue = false; error = none }, w);
  new_patch_helper = λ namespace name w. (none, w);
  patch_cluster = λ c w. (none, record w { patches = suc w.patches });
  patch_machine = λ m w. (none, record w { patches = suc w.patches });
  patch_bare_metal = λ m w. (none, record w { patches = suc w.patches });
  list_machines = λ namespace name w. (found (the_machine ∷ []), w);
}

abbrev pub sample : Platform Account
sample = record {
  lib = list_library;
  api = account_api;
  kube = account_kube;
  getenv = λ name. if name == "VULTR_API_KEY" then "key" else "";
  fuel = 3;
}

-- The same, where every patch of a VultrMachine fails.
abbrev pub failing_patches : Platform Account
failing_patches = record sample {
  kube = record account_kube { patch_machine = λ m w. (some (foreign "conflict"), w) };
}

-- A VultrCluster whose status names the load balancer lb-1.
abbrev pub balanced_cluster : VultrCluster
balanced_cluster =
    set_api_server_loadbalancers_ref
      (record {
        resource_id = "lb-1";
        resource_subscription_status = "active";
        resource_power_status = "";
        resource_server_state = "";
      })
      zero_vultr_cluster

abbrev pub cluster_scope : ClusterScope
cluster_scope = record { cluster = the_cluster; vultr_cluster = balanced_cluster }

abbrev pub machine_scope : MachineScope
machine_scope = record { machine = the_machine; cluster = the_cluster }

abbrev pub bare_metal_scope : BareMetalMachineScope
bare_metal_scope = record { machine = the_machine; cluster = the_cluster }

abbrev pub empty_account : Account
empty_account = record { instances = []; servers = []; members = []; patches = 0 }

abbrev pub start : {O : Type 0} → O → Env Account O
start o = record { world = empty_account; object = o; events = [] }
