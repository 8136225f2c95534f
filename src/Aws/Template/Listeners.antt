-- ===== src/Aws/Template/Listeners.antt =====
-- aws/cf_template.go: the listeners of the template and their rules (generateTemplate,
-- generateDenyInternalTrafficRule, hashARNs).
use kube_ingress_aws_control.Prelude.{
  ℕ, String, Bool, not, none, some, List, [], ◌∷◌, map, ◌==◌, eqb, sort_strings, if◌then◌else◌,
}
use Prim.Native.String
use Prim.Native.Char.{nul}
use kube_ingress_aws_control.Prelude.Dict.{keys}
use kube_ingress_aws_control.Aws.{load_balancer_type_application, load_balancer_type_network}
use kube_ingress_aws_control.Aws.StackSpec.{StackSpec, DenyResp}
use kube_ingress_aws_control.Aws.CloudWatch.{
  literal, number, ref, load_balancer_resource_logical_id,
}
use kube_ingress_aws_control.Aws.Stack.{output_http_target_group_arn}
use kube_ingress_aws_control.Aws.Stack.Reading.{parameter_listener_ssl_policy}
use kube_ingress_aws_control.Aws.Template.{
  Template, Resource, Action, forward, redirect, listener, listener_rule, listener_certificate,
  add_resource, add_parameter, add_output, new_target_group, https_target_group_name,
}

-- What is hashed: the names, each with a zero byte behind it.
unfoldable pub hashed_text : List String → String
hashed_text [] = ""
hashed_text (arn ∷ arns) = String.◌++◌ arn (String.◌∷◌ nul (hashed_text arns))

abbrev pub internal_traffic_deny_rule_priority : ℕ
internal_traffic_deny_rule_priority = 1

-- How numbers are written (fmt.Sprintf("%d")), and the SHA-256 of a text in hexadecimal.
pub record TemplateFormats : Type 0 where
  pub decimal : ℕ → String
  pub sha256_text : String → String

module _ (f : TemplateFormats) where
  unfoldable pub hash_arns : List String → String
  unfolding hashed_text
  hash_arns cert_arns = f.sha256_text (hashed_text cert_arns)

  unfoldable pub generate_deny_internal_traffic_rule :
      String → ℕ → List String → DenyResp → Resource
  generate_deny_internal_traffic_rule listener_name rule_priority internal_domains resp =
      listener_rule (record {
        condition_field = literal "host-header";
        condition_values = map literal internal_domains;
        action_type = literal "fixed-response";
        content_type = literal resp.content_type;
        message_body = literal resp.body;
        status_code = literal (f.decimal resp.status_code);
        priority = number rule_priority;
        listener_arn = ref listener_name;
      })

  module _ (spec : StackSpec) where
    -- a listener without certificates
    abbrev pub http_listener : Action → String → Resource
    http_listener action protocol = listener (record {
      default_actions = action ∷ [];
      certificates = [];
      load_balancer_arn = ref load_balancer_resource_logical_id;
      port = number 80;
      protocol = literal protocol;
      ssl_policy = none;
    })

    abbrev pub redirect_to_https : Action
    redirect_to_https = redirect (record {
      protocol = literal "HTTPS";
      port = literal "443";
      host = literal "#{host}";
      path = literal "/#{path}";
      query = literal "#{query}";
      status_code = literal "HTTP_301";
    })

    -- the rule of a listener, if internal domains are denied
    abbrev pub with_deny_rule : String → String → Template → Template
    with_deny_rule rule_name listener_name t =
        if spec.deny_internal_domains
        then add_resource rule_name
            (generate_deny_internal_traffic_rule listener_name internal_traffic_deny_rule_priority
              spec.internal_domains spec.deny_internal_domains_response)
            t
        else t

    abbrev pub has_own_http_target_group : Bool
    has_own_http_target_group = not (eqb spec.http_target_port spec.target_port)

    abbrev pub http_target_group_name : String
    http_target_group_name = if has_own_http_target_group then "TGHTTP" else https_target_group_name

    abbrev pub with_http_target_group : Template → Template
    with_http_target_group t =
        if has_own_http_target_group
        then add_resource "TGHTTP"
            (new_target_group f.decimal spec "TargetGroupHTTPTargetPortParameter")
            (add_output output_http_target_group_arn
              (record { description = "The ARN of the HTTP TargetGroup"; value = ref "TGHTTP" })
              (add_parameter "TargetGroupHTTPTargetPortParameter"
                (record { type = "Number"; description = "The HTTP target port"; default = none })
                t))
        else t

    abbrev pub with_http_listener : Template → Template
    with_http_listener t =
        if spec.loadbalancer_type == load_balancer_type_application
        then (if spec.http_redirect_to_https
            then add_resource "HTTPListener" (http_listener redirect_to_https "HTTP") t
            else with_deny_rule "HTTPRuleBlockInternalTraffic" "HTTPListener" (
                add_resource "HTTPListener"
                  (http_listener (forward (ref http_target_group_name)) "HTTP") t))
        else if spec.loadbalancer_type == load_balancer_type_network
        then add_resource "HTTPListener"
            (http_listener (forward (ref http_target_group_name)) "TCP") t
        else t

    -- the part of the template for HTTP
    unfoldable pub with_http : Template → Template
    unfolding add_resource add_parameter add_output new_target_group
        generate_deny_internal_traffic_rule
    with_http t = if spec.http_disabled then t else with_http_listener (with_http_target_group t)

    abbrev pub https_listener : String → String → Resource
    https_listener certificate_arn protocol = listener (record {
      default_actions = forward (ref https_target_group_name) ∷ [];
      certificates = literal certificate_arn ∷ [];
      load_balancer_arn = ref load_balancer_resource_logical_id;
      port = number 443;
      protocol = literal protocol;
      ssl_policy = some (ref parameter_listener_ssl_policy);
    })

    abbrev pub with_https_listener : String → Template → Template
    with_https_listener certificate_arn t =
        if spec.loadbalancer_type == load_balancer_type_application
        then with_deny_rule "HTTPSRuleBlockInternalTraffic" "HTTPSListener"
            (add_resource "HTTPSListener" (https_listener certificate_arn "HTTPS") t)
        else if spec.loadbalancer_type == load_balancer_type_network
        then add_resource "HTTPSListener" (https_listener certificate_arn "TLS") t
        else t

    abbrev pub with_certificates : List String → Template → Template
    with_certificates [] t = t
    with_certificates (arn ∷ arns) t =
        add_resource (String.◌++◌ "HTTPSListenerCertificate" (hash_arns (arn ∷ arns)))
          (listener_certificate (map literal (arn ∷ arns)) (ref "HTTPSListener"))
          (with_https_listener arn t)

    -- the part for HTTPS, if there are certificates; their names are sorted
    unfoldable pub with_https : Template → Template
    unfolding add_resource generate_deny_internal_traffic_rule hash_arns
    with_https t = with_certificates (sort_strings (keys spec.certificate_arns)) t
