-- ===== src/Api/Conditions.antt =====
-- api/v1beta2/conditions.go: the condition types and reasons; and the condition that they go into.
use cluster_api_provider_vul.Base.{String, GoError}
use cluster_api_provider_vul.Base.{Format}

abbrev pub ready_condition : String
ready_condition = "Ready"

abbrev pub load_balancer_ready_condition : String
load_balancer_ready_condition = "LoadBalancerReady"

abbrev pub error_fetching_lb_reason : String
error_fetching_lb_reason = "ErrorFetchingLoadBalancer"

abbrev pub error_creating_lb_reason : String
error_creating_lb_reason = "ErrorCreatingLoadBalancer"

abbrev pub waiting_for_ip_reason : String
waiting_for_ip_reason = "WaitingForIP"

abbrev pub waiting_for_cluster_infrastructure_reason : String
waiting_for_cluster_infrastructure_reason = "WaitingForClusterInfrastructure"

abbrev pub waiting_for_bootstrap_data_reason : String
waiting_for_bootstrap_data_reason = "WaitingForBootstrapData"

abbrev pub waiting_for_load_balancer_reason : String
waiting_for_load_balancer_reason = "WaitingForLoadBalancer"

abbrev pub deleting_reason : String
deleting_reason = "Deleting"

abbrev pub unexpected_status_reason : String
unexpected_status_reason = "UnexpectedStatus"

abbrev pub instance_pending_reason : String
instance_pending_reason = "InstancePending"

abbrev pub instance_active_reason : String
instance_active_reason = "InstanceActive"

abbrev pub instance_creation_failed_reason : String
instance_creation_failed_reason = "InstanceCreationFailed"

abbrev pub instance_not_found_reason : String
instance_not_found_reason = "InstanceNotFound"

abbrev pub server_pending_reason : String
server_pending_reason = "ServerPending"

abbrev pub vpc_attach_requested_reason : String
vpc_attach_requested_reason = "VPCAttachRequested"

abbrev pub server_active_reason : String
server_active_reason = "ServerActive"

abbrev pub server_creation_failed_reason : String
server_creation_failed_reason = "ServerCreationFailed"

abbrev pub server_not_found_reason : String
server_not_found_reason = "ServerNotFound"

abbrev pub vpc_attach_failed_reason : String
vpc_attach_failed_reason = "VPCAttachFailed"

pub data ConditionStatus : Type 0 where
  condition_true condition_false condition_unknown : ConditionStatus

-- A condition's message: a format with its operands, or the text of an error.
pub data Message : Type 0 where
  formatted : Format → Message
  of_error : GoError → Message

-- `metav1.Condition`, without the time of its last transition.
pub record Condition : Type 0 where
  pub type : String
  pub status : ConditionStatus
  pub reason : String
  pub message : Message
