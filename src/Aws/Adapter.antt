-- ===== src/Aws/Adapter.antt =====
-- aws/adapter.go: the adapter of AWS as a record, what it is configured with and what it tells. A
-- method that returns its receiver returns the new record. The clients of the APIs are arguments of
-- the operations that call them.
pub mod Setters
pub mod Filters
pub mod Subnets
pub mod Building
pub mod Instances
pub mod Targets
pub mod Cni
pub mod Stacks
pub mod States
use kube_ingress_aws_control.Prelude.{
  ℕ, ◌*◌, String, Bool, true, false, not, ◌&&◌, Option, none, some, List, [], ◌∷◌, map, ◌==◌, eqb,
  leb, keep, length, if◌then◌else◌,
}
use kube_ingress_aws_control.Prelude.Dict.{Dict, keys}
use kube_ingress_aws_control.Certs.{Duration, second}
use kube_ingress_aws_control.Aws.{load_balancer_type_application, load_balancer_type_network}
use kube_ingress_aws_control.Aws.Asg.{AutoScalingGroupDetails}
use kube_ingress_aws_control.Aws.Ec2.{SecurityGroupDetails, InstanceDetails, Filter}
use kube_ingress_aws_control.Aws.Ec2.Subnets.{SubnetDetails}

abbrev pub minute : Duration
minute = 60 * second

abbrev pub ip_address_type_ipv4 : String
ip_address_type_ipv4 = "ipv4"

abbrev pub ip_address_type_dualstack : String
ip_address_type_dualstack = "dualstack"

abbrev pub target_access_mode_aws_cni : String
target_access_mode_aws_cni = "AWSCNI"

abbrev pub target_access_mode_host_port : String
target_access_mode_host_port = "HostPort"

abbrev pub target_access_mode_legacy : String
target_access_mode_legacy = "Legacy"

-- the values of elbv2Types.TargetTypeEnum that the code names
abbrev pub target_type_instance : String
target_type_instance = "instance"

abbrev pub target_type_ip : String
target_type_ip = "ip"

-- manifest
pub record Manifest : Type 0 where
  pub security_group : SecurityGroupDetails
  pub instance_details : Option InstanceDetails
  pub subnets : List SubnetDetails
  pub filters : List Filter
  pub asg_filters : Dict (List String)
  pub cluster_id : String
  pub vpc_id : String

-- TargetCNIconfig; the channel as the messages that were sent, the first one first, with
-- none for a nil slice
pub record TargetCniConfig : Type 0 where
  pub enabled : Bool
  pub target_group_ch : List (Option (List String))

-- An adapter that NewAdapter has returned, so that its manifest is there.
pub record Adapter : Type 0 where
  pub manifest : Manifest
  pub health_check_path : String
  pub health_check_port : ℕ
  pub health_check_interval : Duration
  pub health_check_timeout : Duration
  pub alb_healthy_threshold_count : ℕ
  pub alb_unhealthy_threshold_count : ℕ
  pub nlb_healthy_threshold_count : ℕ
  pub target_type : String
  pub target_port : ℕ
  pub alb_http_target_port : ℕ
  pub nlb_http_target_port : ℕ
  pub target_https : Bool
  pub creation_timeout : Duration
  pub idle_connection_timeout : Duration
  pub deregistration_delay_timeout : Duration
  pub targeted_auto_scaling_groups : Dict AutoScalingGroupDetails
  pub owned_auto_scaling_groups : Dict AutoScalingGroupDetails
  pub ec2_details : Dict InstanceDetails
  pub single_instances : Dict InstanceDetails
  pub obsolete_instances : List String
  pub stack_termination_protection : Bool
  pub stack_tags : Dict String
  pub controller_id : String
  pub ssl_policy : String
  pub ip_address_type : String
  pub alb_logs_s3_bucket : String
  pub alb_logs_s3_prefix : String
  pub nlb_zone_affinity : String
  pub http_redirect_to_https : Bool
  pub nlb_cross_zone : Bool
  pub nlb_http_enabled : Bool
  pub custom_filter : String
  pub internal_domains : List String
  pub deny_internal_domains : Bool
  pub deny_internal_resp_body : String
  pub deny_internal_resp_content_type : String
  pub deny_internal_resp_status_code : ℕ
  pub target_cni : TargetCniConfig

-- NewAdapter, with the manifest that it has built
unfoldable pub new_adapter : String → Manifest → Adapter
new_adapter new_controller_id manifest = record {
  manifest = manifest;
  health_check_path = "/kube-system/healthz";
  health_check_port = 9999;
  health_check_interval = 10 * second;
  health_check_timeout = 5 * second;
  alb_healthy_threshold_count = 5;
  alb_unhealthy_threshold_count = 2;
  nlb_healthy_threshold_count = 3;
  target_type = "";
  target_port = 9999;
  alb_http_target_port = 0;
  nlb_http_target_port = 0;
  target_https = false;
  creation_timeout = 5 * minute;
  idle_connection_timeout = 0;
  deregistration_delay_timeout = 0;
  targeted_auto_scaling_groups = [];
  owned_auto_scaling_groups = [];
  ec2_details = [];
  single_instances = [];
  obsolete_instances = [];
  stack_termination_protection = false;
  stack_tags = [];
  controller_id = new_controller_id;
  ssl_policy = "ELBSecurityPolicy-2016-08";
  ip_address_type = ip_address_type_ipv4;
  alb_logs_s3_bucket = "";
  alb_logs_s3_prefix = "";
  nlb_zone_affinity = "any_availability_zone";
  http_redirect_to_https = false;
  nlb_cross_zone = false;
  nlb_http_enabled = false;
  custom_filter = "";
  internal_domains = [];
  deny_internal_domains = false;
  deny_internal_resp_body = "";
  deny_internal_resp_content_type = "";
  deny_internal_resp_status_code = 0;
  target_cni = record { enabled = false; target_group_ch = [] };
}

-- the setters that check their argument
module _ (a : Adapter) where
  unfoldable pub with_idle_connection_timeout : Duration → Adapter
  with_idle_connection_timeout interval =
      if leb (1 * second) interval && leb interval (4000 * second)
      then record a { idle_connection_timeout = interval }
      else a

  unfoldable pub with_deregistration_delay_timeout : Duration → Adapter
  with_deregistration_delay_timeout interval =
      if leb (1 * second) interval && leb interval (3600 * second)
      then record a { deregistration_delay_timeout = interval }
      else a

  unfoldable pub with_ip_address_type : String → Adapter
  with_ip_address_type ip_address_type =
      if ip_address_type == ip_address_type_dualstack
      then record a { ip_address_type = ip_address_type }
      else a

  -- the target type of a mode, the old one for any other mode
  abbrev type_of_mode : String → String
  type_of_mode mode =
      if mode == target_access_mode_host_port
      then target_type_instance
      else if mode == target_access_mode_aws_cni
      then target_type_ip
      else if mode == target_access_mode_legacy
      then ""
      else a.target_type

  unfoldable pub with_target_access_mode : String → Adapter
  with_target_access_mode mode = record a {
    target_cni = record a.target_cni { enabled = mode == target_access_mode_aws_cni };
    target_type = type_of_mode mode;
  }

  -- InstanceID
  abbrev id_of : Option InstanceDetails → String
  id_of none = "<none>"
  id_of (some i) = i.id

  unfoldable pub instance_id : String
  instance_id = id_of a.manifest.instance_details

  unfoldable pub single_instance_ids : List String
  single_instance_ids = keys a.single_instances

  -- RunningSingleInstances
  unfoldable pub running_single_instances : List String
  running_single_instances = keys (keep (λ e. e.1.running) a.single_instances)

  unfoldable pub cached_instances : ℕ
  cached_instances = length a.ec2_details

  unfoldable pub http_target_port : String → ℕ
  http_target_port load_balancer_type =
      if load_balancer_type == load_balancer_type_application && not (eqb a.alb_http_target_port 0)
      then a.alb_http_target_port
      else if load_balancer_type == load_balancer_type_network && not (eqb a.nlb_http_target_port 0)
      then a.nlb_http_target_port
      else a.target_port

  unfoldable pub http_disabled : String → Bool
  http_disabled load_balancer_type =
      if load_balancer_type == load_balancer_type_network then not a.nlb_http_enabled else false
