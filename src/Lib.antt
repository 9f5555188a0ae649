-- ===== src/Lib.antt =====
-- The Cluster API provider for Vultr: its three reconcilers, the services that call the Vultr API,
-- and the objects that they keep.
--
-- A reconcile fetches an object, builds scopes around it, changes the object in memory while it
-- calls services, and patches the object when it ends. The files follow the repository:
--
-- Api: api/v1beta2. The objects as records with the fields that the program reads or writes;
-- Api/Tags is tags.go, Api/LoadBalancer is the load balancer part of types.go with
-- `ApplyDefaults`, Api/Conditions the reasons and conditions.
-- Vultrerrors: cloud/vultrerrors. The status that a context captures lives in a cell of a heap,
-- shared by the transport and the function that reads it.
-- Govultr and Kube: what the program uses of the Vultr client, of Kubernetes, Cluster API and
-- controller-runtime. The calls are parameters over a state of the world: `Govultr.Api` and
-- `Kube.Kube`; `Kube.Library` holds the pure functions, and `Kube.IsLawful` what their
-- documentation says of them. `Kube.Platform` is all of them together.
-- Scope: cloud/scope. Scope/ProviderId, Scope/Bootstrap are helpers.go, Scope/Cluster is
-- cluster.go and common.go, Scope/Machine and Scope/BareMetal the setters of the two machines.
-- Services: cloud/services, a file for each Go file; Services/CloudConfig also has
-- `appendToUserDataCloudConfig` of instance.go. Services/Paging is the loop over the pages of a
-- listing, of which the two listings are instances. Services/Account is an abstract view of the
-- account: the instances, or the servers, that each machine owns, and the steps that never give a
-- machine a second one. Services/Instance/Cloud and Services/BareMetal/Cloud are what the APIs do
-- to the two kinds of server, as the records of laws `IsCloud` and `IsServerCloud`.
-- Controller: internal/controller. Controller/Machine, Controller/BareMetal and
-- Controller/Cluster are the reconcilers, Controller/Entry the `Reconcile` of the two machines,
-- Controller/Mapping the requests that a VultrCluster gives, Controller/Watches the three
-- `SetupWithManager`, Controller/Reconciler util/reconciler. Controller/Machine/History
-- and Controller/BareMetal/History are the sequences of reconciles of any machines of a kind, with
-- other changes of the account in between; Controller/Steps is what single steps do to it.
-- Manager: cmd/main.go, from the parsed flags to the exit code.
-- Tests: an account with a few objects, and concrete inputs.
--
-- A function that can fail is an `Exec`: it takes a state and returns a value, an error, a panic
-- or the end of its fuel, always beside the state, so that writes before an early return stay. The
-- state of a service is the world; the state of a reconcile is `Kube.Env`, the world with the
-- object in memory and the events so far. A nil pointer dereference and a slice out of range are
-- panics. Go's `defer` of the closing patch is `Kube.Actions.deferring`. What all runs of a
-- function keep is a `Preorder` of states, and `Base.Respects` composes its proofs, as
-- `Base.Returns` does for what all its values satisfy.
--
-- Fuel: the two listings page until a reply has no next cursor, so they take `Platform.fuel`
-- pages; Services/Paging proves that a listing that comes to an end is read to its end.
-- The split of a cloud-config header takes one more than the number of bytes, since each line takes
-- one at least.
--
-- Errors keep the format and the operands of their message, and events their type, reason and
-- action; texts are not rendered, and `Library.error_text` stands for the text of an error.
-- Conditions have no transition time. Names and ids are strings of characters, user data is a list
-- of bytes; trimming and lower case are those of ASCII. `Errorf` of an error's text is an error
-- that wraps it. YAML is a parameter, `Services.CloudConfig.Prepend.Yaml`.
--
-- Not modelled: logs, deadlines of contexts, the parsing of the command line, the registration of
-- types, generated code, manifests and templates, and methods of the scopes that nothing calls.
pub mod Base
pub mod Api
pub mod Text
pub mod Vultrerrors
pub mod Govultr
pub mod Kube
pub mod Scope
pub mod Services
pub mod Controller
pub mod Manager
mod Tests
