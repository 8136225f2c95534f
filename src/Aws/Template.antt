-- ===== src/Aws/Template.antt =====
-- aws/cf_template.go: the template of a stack, as data. The types are those of
-- internal/aws/cloudformation, with the fields that the template sets; its JSON text is a parameter.
pub mod Listeners
pub mod Generate
pub mod Closed
pub mod Parameters
pub mod Stable
use kube_ingress_aws_control.Prelude.{
  ℕ, String, Bool, true, false, not, ◌&&◌, Option, none, some, List, [], ◌∷◌, ◌++◌, ◌==◌, eqb,
  if◌then◌else◌,
}
use kube_ingress_aws_control.Prelude.Dict.{Dict, insert}
use kube_ingress_aws_control.Aws.{load_balancer_type_application, load_balancer_type_network}
use kube_ingress_aws_control.Aws.StackSpec.{StackSpec}
use kube_ingress_aws_control.Aws.CloudWatch.{
  Expr, literal, number, ref, get_att, load_balancer_resource_logical_id,
}
use kube_ingress_aws_control.Aws.Stack.{
  output_load_balancer_arn, output_load_balancer_dns_name, output_target_group_arn,
  output_http_target_group_arn,
}
use kube_ingress_aws_control.Aws.Stack.Reading.{
  parameter_load_balancer_scheme, parameter_load_balancer_security_group,
  parameter_listener_ssl_policy, parameter_ip_address_type, parameter_load_balancer_type,
  parameter_load_balancer_waf_web_acl_id, parameter_http2,
}

-- the default of a parameter, if it has one
pub record Parameter : Type 0 where
  pub type : String
  pub description : String
  pub default : Option String

pub record Output : Type 0 where
  pub description : String
  pub value : Expr

pub record TargetGroupProperties : Type 0 where
  pub attributes : List (Expr × Expr)
  pub health_check_interval_seconds : Expr
  pub health_check_path : Expr
  pub health_check_port : Expr
  pub health_check_protocol : Expr
  pub health_check_timeout_seconds : Option Expr
  pub healthy_threshold_count : Expr
  pub unhealthy_threshold_count : Expr
  pub port : Expr
  pub protocol : Expr
  pub target_type : Option Expr
  pub vpc_id : Expr

pub record RedirectConfig : Type 0 where
  pub protocol : Expr
  pub port : Expr
  pub host : Expr
  pub path : Expr
  pub query : Expr
  pub status_code : Expr

-- an action of a listener, by its type
pub data Action : Type 0 where
  forward : Expr → Action
  redirect : RedirectConfig → Action

pub record Listener : Type 0 where
  pub default_actions : List Action
  pub certificates : List Expr
  pub load_balancer_arn : Expr
  pub port : Expr
  pub protocol : Expr
  pub ssl_policy : Option Expr

-- a rule with one condition on a field and one fixed response
pub record ListenerRule : Type 0 where
  pub condition_field : Expr
  pub condition_values : List Expr
  pub action_type : Expr
  pub content_type : Expr
  pub message_body : Expr
  pub status_code : Expr
  pub priority : Expr
  pub listener_arn : Expr

pub record LoadBalancerProperties : Type 0 where
  pub attributes : List (Expr × Expr)
  pub ip_address_type : Expr
  pub scheme : Expr
  pub subnets : Expr
  pub tags : List (Expr × Expr)
  pub security_groups : Option Expr
  pub type : Option Expr

pub record AlarmProperties : Type 0 where
  pub alarm_name : Option Expr
  pub namespace : Expr
  pub dimensions : List (Expr × Expr)
  pub other_fields : String

pub data Resource : Type 0 where
  target_group : TargetGroupProperties → Resource
  listener : Listener → Resource
  listener_rule : ListenerRule → Resource
  listener_certificate : List Expr → Expr → Resource
  load_balancer : LoadBalancerProperties → Resource
  wafv2_association : Expr → Expr → Resource
  waf_regional_association : Expr → Expr → Resource
  cloud_watch_alarm : AlarmProperties → Resource

pub record Template : Type 0 where
  pub description : String
  pub parameters : Dict Parameter
  pub outputs : Dict Output
  pub resources : Dict Resource

-- template.AddResource
unfoldable pub add_resource : String → Resource → Template → Template
unfolding insert
add_resource name r t = record t { resources = insert name r t.resources }

unfoldable pub add_parameter : String → Parameter → Template → Template
unfolding insert
add_parameter name p t = record t { parameters = insert name p t.parameters }

unfoldable pub add_output : String → Output → Template → Template
unfolding insert
add_output name o t = record t { outputs = insert name o t.outputs }

abbrev pub parameter : String → String → Option String → Parameter
parameter type description default = record {
  type = type;
  description = description;
  default = default;
}

-- the parameters of every template
abbrev pub default_parameters : Dict Parameter
default_parameters =
    (
      parameter_load_balancer_scheme,
      parameter "String" "The Load Balancer scheme - 'internal' or 'internet-facing'"
          (some "internet-facing"),
    )
    ∷ (
      parameter_load_balancer_security_group,
      parameter "List<AWS::EC2::SecurityGroup::Id>" "The security group ID for the Load Balancer"
          none,
    )
    ∷ (
      "LoadBalancerSubnetsParameter",
      parameter "List<AWS::EC2::Subnet::Id>" "The list of subnets IDs for the Load Balancer" none,
    )
    ∷ (
      "TargetGroupHealthCheckPathParameter",
      parameter "String" "The healthcheck path" (some "/kube-system/healthz"),
    )
    ∷ (
      "TargetGroupHealthCheckPortParameter",
      parameter "Number" "The healthcheck port" (some "9999"),
    )
    ∷ ("TargetGroupTargetPortParameter", parameter "Number" "The target port" (some "9999"))
    ∷ (
      "TargetGroupHealthCheckIntervalParameter",
      parameter "Number" "The healthcheck interval" (some "10"),
    )
    ∷ (
      "TargetGroupHealthCheckTimeoutParameter",
      parameter "Number" "The healthcheck timeout" (some "5"),
    )
    ∷ (
      "TargetGroupVPCIDParameter",
      parameter "AWS::EC2::VPC::Id" "The VPCID for the TargetGroup" none,
    )
    ∷ (
      parameter_listener_ssl_policy,
      parameter "String" "The HTTPS SSL Security Policy Name" (some "ELBSecurityPolicy-2016-08"),
    )
    ∷ (
      parameter_ip_address_type,
      parameter "String" "IP Address Type, 'ipv4' or 'dualstack'" (some "ipv4"),
    )
    ∷ (
      parameter_load_balancer_type,
      parameter "String" "Loadbalancer Type, 'application' or 'network'" (some "application"),
    )
    ∷ (parameter_http2, parameter "String" "H2 Enabled" (some "true"))
    ∷ []

abbrev pub https_target_group_name : String
https_target_group_name = "TG"

abbrev pub default_outputs : Dict Output
default_outputs =
    (
      output_load_balancer_arn,
      record {
        description = "The ARN of the LoadBalancer";
        value = ref load_balancer_resource_logical_id;
      },
    )
    ∷ (
      output_load_balancer_dns_name,
      record {
        description = "DNS name for the LoadBalancer";
        value = get_att load_balancer_resource_logical_id "DNSName";
      },
    )
    ∷ (
      output_target_group_arn,
      record { description = "The ARN of the TargetGroup"; value = ref https_target_group_name },
    )
    ∷ []

abbrev optional : String → Option Expr
optional s = if s == "" then none else some (literal s)

module _ (decimal : ℕ → String) (spec : StackSpec) where
  abbrev pub is_network : Bool
  is_network = spec.loadbalancer_type == load_balancer_type_network

  -- `protocol`
  abbrev pub target_protocol : String
  target_protocol = if is_network then "TCP" else if spec.target_https then "HTTPS" else "HTTP"

  -- `healthCheckProtocol`
  abbrev health_check_protocol : String
  health_check_protocol =
      if is_network then "HTTP" else if spec.target_https then "HTTPS" else "HTTP"

  unfoldable pub new_target_group : String → Resource
  new_target_group target_port_parameter = target_group (record {
    attributes =
        (
          literal "deregistration_delay.timeout_seconds",
          literal (decimal spec.deregistration_delay_timeout_seconds),
        )
        ∷ [];
    health_check_interval_seconds = ref "TargetGroupHealthCheckIntervalParameter";
    health_check_path = ref "TargetGroupHealthCheckPathParameter";
    health_check_port = ref "TargetGroupHealthCheckPortParameter";
    health_check_protocol = literal health_check_protocol;
    health_check_timeout_seconds =
        if target_protocol == "TCP"
        then none
        else some (ref "TargetGroupHealthCheckTimeoutParameter");
    healthy_threshold_count =
        number (
          if is_network
          then spec.nlb_healthy_threshold_count
          else spec.alb_healthy_threshold_count);
    unhealthy_threshold_count = number (
        if is_network
        then spec.nlb_healthy_threshold_count
        else spec.alb_unhealthy_threshold_count);
    port = ref target_port_parameter;
    protocol = literal target_protocol;
    target_type = optional spec.target_type;
    vpc_id = ref "TargetGroupVPCIDParameter";
  })

  abbrev waf_parameters : Template → Template
  waf_parameters t =
      if spec.waf_web_acl_id == ""
      then t
      else add_parameter parameter_load_balancer_waf_web_acl_id
          (parameter "String" "Associated WAF ID or ARN." none) t

  -- the template up to its first target group
  unfoldable pub base_template : Template
  unfolding add_parameter add_resource new_target_group
  base_template =
      add_resource https_target_group_name (new_target_group "TargetGroupTargetPortParameter") (
        waf_parameters (record {
          description = "Load Balancer for Kubernetes Ingress";
          parameters = default_parameters;
          outputs = default_outputs;
          resources = [];
        }))
