-- ===== src/Aws/Adapter/Stacks.antt =====
-- aws/adapter.go: the stacks that the adapter creates, updates, reads and deletes (CreateStack,
-- UpdateStack, DeleteStack).
pub mod Detached
use kube_ingress_aws_control.Prelude.{
  ◌/◌, String, Bool, Option, none, some, List, [], ◌∷◌, ◌==◌, any, Result, if◌then◌else◌,
}
use kube_ingress_aws_control.Prelude.Dict.{Dict, insert}
use kube_ingress_aws_control.Certs.{Time, second}
use kube_ingress_aws_control.Aws.{ssl_policies}
use kube_ingress_aws_control.Aws.StackSpec.{StackSpec}
use kube_ingress_aws_control.Aws.Asg.{AwsError, AutoScalingGroupDetails}
use kube_ingress_aws_control.Aws.Asg.Targets.{TargetGroupApi, detach_target_groups}
use kube_ingress_aws_control.Aws.Ec2.{AdapterError, wrapped, invalid_ssl_policy}
use kube_ingress_aws_control.Aws.LoadBalancer.{Alarm}
use kube_ingress_aws_control.Aws.Naming.{normalize_stack_name}
use kube_ingress_aws_control.Aws.Stack.{Stack}
use kube_ingress_aws_control.Aws.Stack.Spec.{Formats, CloudFormationApi}
use kube_ingress_aws_control.Aws.Stack.Spec
use kube_ingress_aws_control.Aws.Template.{Template}
use kube_ingress_aws_control.Aws.Template.Listeners.{TemplateFormats}
use kube_ingress_aws_control.Aws.Template.Generate.{generate_template}
use kube_ingress_aws_control.Aws.Adapter.{Adapter, minute, http_target_port, http_disabled}
use kube_ingress_aws_control.Aws.Adapter.Subnets.{find_lb_subnets}

-- certARNs: each certificate with the zero time
unfoldable pub without_times : List String → Dict Time → Dict Time
unfolding insert
without_times [] m = m
without_times (arn ∷ arns) m = without_times arns (insert arn 0 m)

-- stackName; `uuid` is the one that is generated for the name
unfoldable pub stack_name : String → Adapter → String
unfolding normalize_stack_name
stack_name uuid a = normalize_stack_name uuid a.manifest.cluster_id

-- what both calls are told of the load balancer
pub record Request : Type 0 where
  pub scheme : String
  pub security_group : String
  pub owner : String
  pub ssl_policy : String
  pub ip_address_type : String
  pub waf_web_acl_id : String
  pub cw_alarms : List Alarm
  pub load_balancer_type : String
  pub http2 : Bool

-- The specification that both calls make. The duration of a creation, at most 2^63 - 1 nanoseconds,
-- has fewer than 2^31 minutes.
unfoldable pub spec_of : Adapter → String → Dict Time → Request → StackSpec
unfolding find_lb_subnets http_target_port http_disabled
spec_of a name certificate_arns r = record {
  name = name;
  scheme = r.scheme;
  owner_ingress = r.owner;
  subnets = find_lb_subnets a r.scheme;
  certificate_arns = certificate_arns;
  security_group_id = r.security_group;
  cluster_id = a.manifest.cluster_id;
  vpc_id = a.manifest.vpc_id;
  health_check = some (record {
    path = a.health_check_path;
    port = a.health_check_port;
    interval = a.health_check_interval;
    timeout = a.health_check_timeout;
  });
  alb_healthy_threshold_count = a.alb_healthy_threshold_count;
  alb_unhealthy_threshold_count = a.alb_unhealthy_threshold_count;
  nlb_healthy_threshold_count = a.nlb_healthy_threshold_count;
  target_type = a.target_type;
  target_port = a.target_port;
  target_https = a.target_https;
  http_disabled = http_disabled a r.load_balancer_type;
  http_target_port = http_target_port a r.load_balancer_type;
  timeout_in_minutes = a.creation_timeout / minute;
  stack_termination_protection = a.stack_termination_protection;
  idle_connection_timeout_seconds = a.idle_connection_timeout / second;
  deregistration_delay_timeout_seconds = a.deregistration_delay_timeout / second;
  controller_id = a.controller_id;
  ssl_policy = r.ssl_policy;
  ip_address_type = r.ip_address_type;
  loadbalancer_type = r.load_balancer_type;
  alb_logs_s3_bucket = a.alb_logs_s3_bucket;
  alb_logs_s3_prefix = a.alb_logs_s3_prefix;
  waf_web_acl_id = r.waf_web_acl_id;
  nlb_zone_affinity = a.nlb_zone_affinity;
  cw_alarms = r.cw_alarms;
  http_redirect_to_https = a.http_redirect_to_https;
  nlb_cross_zone = a.nlb_cross_zone;
  http2 = r.http2;
  deny_internal_domains = a.deny_internal_domains;
  deny_internal_domains_response = record {
    status_code = a.deny_internal_resp_status_code;
    content_type = a.deny_internal_resp_content_type;
    body = a.deny_internal_resp_body;
  };
  internal_domains = a.internal_domains;
  tags = a.stack_tags;
}

abbrev pub known_ssl_policy : String → Bool
known_ssl_policy ssl_policy = any (λ p. p == ssl_policy) ssl_policies

-- the policy of the adapter where none is asked for
unfoldable pub with_default_policy : Adapter → Request → Request
with_default_policy a r = if r.ssl_policy == "" then record r { ssl_policy = a.ssl_policy } else r

-- `marshal` is the JSON text of a template (json.MarshalIndent).
module _ {W : Type 0} (f : Formats) (g : TemplateFormats)
    (marshal : Template → Result AdapterError String) (api : CloudFormationApi AdapterError W)
    (a : Adapter) where
  abbrev pub if_known :
      String → (W → W × (String × Option AdapterError)) → W → W × (String × Option AdapterError)
  if_known ssl_policy call w =
      if known_ssl_policy ssl_policy
      then call w
      else (w, ("", some (invalid_ssl_policy ssl_policy)))

  abbrev pub create_with : StackSpec → W → W × (String × Option AdapterError)
  create_with spec = Spec.create_stack f api (generate_template g marshal spec) spec

  abbrev pub update_with : StackSpec → W → W × (String × Option AdapterError)
  update_with spec = Spec.update_stack f api (generate_template g marshal spec) spec

  unfoldable pub create_stack :
      String → List String → Request → W → W × (String × Option AdapterError)
  unfolding stack_name without_times spec_of with_default_policy generate_template Spec.create_stack
  create_stack uuid certificate_arns r = if_known (with_default_policy a r).ssl_policy (
      create_with (
        spec_of a (stack_name uuid a) (without_times certificate_arns [])
          (with_default_policy a r)))

  unfoldable pub update_stack :
      String → Dict Time → Request → W → W × (String × Option AdapterError)
  unfolding spec_of generate_template Spec.update_stack
  update_stack name certificate_arns r =
      if_known r.ssl_policy (update_with (spec_of a name certificate_arns r))

module _ {W : Type 0} (groups : TargetGroupApi W) (api : CloudFormationApi AdapterError W) where
  -- what follows a detachment; a failure names the group
  abbrev pub detached :
      String
      → Option (W × Option AwsError)
      → (W → Option (W × Option AdapterError))
      → Option (W × Option AdapterError)
  detached name none next = none
  detached name (some (w, none)) next = next w
  detached name (some (w, some e)) next =
      some (w, some (wrapped "failed to detach target groups from autoscaling group" e))

  -- the loop over the targeted groups, and the deletion behind it
  unfoldable pub detach_and_delete :
      Stack → Dict AutoScalingGroupDetails → W → Option (W × Option AdapterError)
  unfolding detach_target_groups Spec.delete_stack
  detach_and_delete stack [] w = some (Spec.delete_stack api stack.name w)
  detach_and_delete stack ((key, asg) ∷ asgs) w =
      detached asg.name (detach_target_groups groups asg.name stack.target_group_arns w)
        (detach_and_delete stack asgs)

  unfoldable pub delete_stack : Adapter → Stack → W → Option (W × Option AdapterError)
  unfolding detach_and_delete
  delete_stack a stack = detach_and_delete stack a.targeted_auto_scaling_groups
