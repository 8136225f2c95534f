-- ===== src/Aws/StackSpec.antt =====
-- aws/cf.go: the specification of a stack (stackSpec).
use kube_ingress_aws_control.Prelude.{ℕ, String, Bool, Option, List}
use kube_ingress_aws_control.Prelude.Dict.{Dict}
use kube_ingress_aws_control.Certs.{Time, Duration}
use kube_ingress_aws_control.Aws.CloudWatch.{Alarm}

pub record HealthCheck : Type 0 where
  pub path : String
  pub port : ℕ
  pub interval : Duration
  pub timeout : Duration

pub record DenyResp : Type 0 where
  pub status_code : ℕ
  pub content_type : String
  pub body : String

-- A target type is a text, which is empty where none is set.
pub record StackSpec : Type 0 where
  pub name : String
  pub scheme : String
  pub owner_ingress : String
  pub subnets : List String
  pub certificate_arns : Dict Time
  pub security_group_id : String
  pub cluster_id : String
  pub vpc_id : String
  pub health_check : Option HealthCheck
  pub alb_healthy_threshold_count : ℕ
  pub alb_unhealthy_threshold_count : ℕ
  pub nlb_healthy_threshold_count : ℕ
  pub target_type : String
  pub target_port : ℕ
  pub target_https : Bool
  pub http_disabled : Bool
  pub http_target_port : ℕ
  pub timeout_in_minutes : ℕ
  pub stack_termination_protection : Bool
  pub idle_connection_timeout_seconds : ℕ
  pub deregistration_delay_timeout_seconds : ℕ
  pub controller_id : String
  pub ssl_policy : String
  pub ip_address_type : String
  pub loadbalancer_type : String
  pub alb_logs_s3_bucket : String
  pub alb_logs_s3_prefix : String
  pub waf_web_acl_id : String
  pub nlb_zone_affinity : String
  pub cw_alarms : List Alarm
  pub http_redirect_to_https : Bool
  pub nlb_cross_zone : Bool
  pub http2 : Bool
  pub deny_internal_domains : Bool
  pub deny_internal_domains_response : DenyResp
  pub internal_domains : List String
  pub tags : Dict String
