-- ===== src/Aws/Adapter/Setters.antt =====
-- aws/adapter.go: the setters that only store their argument.
use kube_ingress_aws_control.Prelude.{ℕ, String, Bool, List}
use kube_ingress_aws_control.Prelude.Dict.{Dict}
use kube_ingress_aws_control.Certs.{Duration}
use kube_ingress_aws_control.Aws.Adapter.{Adapter}

module _ (a : Adapter) where
  unfoldable pub with_health_check_path : String → Adapter
  with_health_check_path x = record a { health_check_path = x }

  unfoldable pub with_health_check_port : ℕ → Adapter
  with_health_check_port x = record a { health_check_port = x }

  unfoldable pub with_alb_healthy_threshold_count : ℕ → Adapter
  with_alb_healthy_threshold_count x = record a { alb_healthy_threshold_count = x }

  unfoldable pub with_alb_unhealthy_threshold_count : ℕ → Adapter
  with_alb_unhealthy_threshold_count x = record a { alb_unhealthy_threshold_count = x }

  unfoldable pub with_nlb_healthy_threshold_count : ℕ → Adapter
  with_nlb_healthy_threshold_count x = record a { nlb_healthy_threshold_count = x }

  unfoldable pub with_target_port : ℕ → Adapter
  with_target_port x = record a { target_port = x }

  unfoldable pub with_alb_http_target_port : ℕ → Adapter
  with_alb_http_target_port x = record a { alb_http_target_port = x }

  unfoldable pub with_nlb_http_target_port : ℕ → Adapter
  with_nlb_http_target_port x = record a { nlb_http_target_port = x }

  unfoldable pub with_target_https : Bool → Adapter
  with_target_https x = record a { target_https = x }

  unfoldable pub with_health_check_interval : Duration → Adapter
  with_health_check_interval x = record a { health_check_interval = x }

  unfoldable pub with_health_check_timeout : Duration → Adapter
  with_health_check_timeout x = record a { health_check_timeout = x }

  unfoldable pub with_creation_timeout : Duration → Adapter
  with_creation_timeout x = record a { creation_timeout = x }

  unfoldable pub with_controller_id : String → Adapter
  with_controller_id x = record a { controller_id = x }

  unfoldable pub with_ssl_policy : String → Adapter
  with_ssl_policy x = record a { ssl_policy = x }

  unfoldable pub with_stack_termination_protection : Bool → Adapter
  with_stack_termination_protection x = record a { stack_termination_protection = x }

  unfoldable pub with_stack_tags : Dict String → Adapter
  with_stack_tags x = record a { stack_tags = x }

  unfoldable pub with_alb_logs_s3_bucket : String → Adapter
  with_alb_logs_s3_bucket x = record a { alb_logs_s3_bucket = x }

  unfoldable pub with_alb_logs_s3_prefix : String → Adapter
  with_alb_logs_s3_prefix x = record a { alb_logs_s3_prefix = x }

  unfoldable pub with_http_redirect_to_https : Bool → Adapter
  with_http_redirect_to_https x = record a { http_redirect_to_https = x }

  unfoldable pub with_nlb_cross_zone : Bool → Adapter
  with_nlb_cross_zone x = record a { nlb_cross_zone = x }

  unfoldable pub with_nlb_zone_affinity : String → Adapter
  with_nlb_zone_affinity x = record a { nlb_zone_affinity = x }

  unfoldable pub with_nlb_http_enabled : Bool → Adapter
  with_nlb_http_enabled x = record a { nlb_http_enabled = x }

  unfoldable pub with_internal_domains : List String → Adapter
  with_internal_domains x = record a { internal_domains = x }

  unfoldable pub with_deny_internal_domains : Bool → Adapter
  with_deny_internal_domains x = record a { deny_internal_domains = x }

  unfoldable pub with_internal_domains_deny_response : String → Adapter
  with_internal_domains_deny_response x = record a { deny_internal_resp_body = x }

  unfoldable pub with_internal_domains_deny_response_status_code : ℕ → Adapter
  with_internal_domains_deny_response_status_code x = record a {
    deny_internal_resp_status_code = x;
  }

  unfoldable pub with_internal_domains_deny_response_content_type : String → Adapter
  with_internal_domains_deny_response_content_type x = record a {
    deny_internal_resp_content_type = x;
  }
