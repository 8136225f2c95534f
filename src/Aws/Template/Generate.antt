-- ===== src/Aws/Template/Generate.antt =====
-- aws/cf_template.go: the load balancer, its WAF and the alarms, and the whole of generateTemplate.
use kube_ingress_aws_control.Prelude.{
  ℕ, ◌+◌, String, Bool, true, false, ◌&&◌, ◌||◌, not, none, some, List, [], ◌∷◌, ◌++◌, ◌==◌,
  has_prefix, if◌then◌else◌,
}
use Prim.Native.String
use kube_ingress_aws_control.Aws.{load_balancer_type_application, load_balancer_type_network}
use kube_ingress_aws_control.Aws.StackSpec.{StackSpec}
use kube_ingress_aws_control.Aws.CloudWatch.{
  Expr, literal, ref, Alarm, load_balancer_resource_logical_id, normalize_cloud_watch_alarm_name,
  normalize_cloud_watch_alarm_namespace, normalize_cloud_watch_alarm_dimensions,
}
use kube_ingress_aws_control.Aws.Stack.Reading.{
  parameter_load_balancer_scheme, parameter_load_balancer_security_group, parameter_ip_address_type,
  parameter_load_balancer_type, parameter_load_balancer_waf_web_acl_id,
}
use kube_ingress_aws_control.Aws.Template.{
  Template, Resource, load_balancer, wafv2_association, waf_regional_association, cloud_watch_alarm,
  add_resource, base_template,
}
use kube_ingress_aws_control.Aws.Template.Listeners.{TemplateFormats, with_http, with_https}

-- fmt.Sprintf("%t")
abbrev pub boolean : Bool → String
boolean true = "true"
boolean false = "false"

module _ (f : TemplateFormats) where
  abbrev pub attribute : String → String → Expr × Expr
  attribute key value = (literal key, literal value)

  module _ (spec : StackSpec) where
    abbrev pub is_application : Bool
    is_application = spec.loadbalancer_type == load_balancer_type_application

    abbrev pub is_network : Bool
    is_network = spec.loadbalancer_type == load_balancer_type_network

    abbrev pub log_attributes : List (Expr × Expr)
    log_attributes =
        if spec.alb_logs_s3_bucket == ""
        then attribute "access_logs.s3.enabled" "false" ∷ []
        else attribute "access_logs.s3.enabled" "true"
          ∷ attribute "access_logs.s3.bucket" spec.alb_logs_s3_bucket
          ∷ (if spec.alb_logs_s3_prefix == ""
              then []
              else attribute "access_logs.s3.prefix" spec.alb_logs_s3_prefix ∷ [])

    -- lbAttrList
    unfoldable pub lb_attributes : List (Expr × Expr)
    lb_attributes =
        (if is_application
          then attribute "idle_timeout.timeout_seconds"
              (f.decimal spec.idle_connection_timeout_seconds)
            ∷ attribute "routing.http2.enabled" (boolean spec.http2)
            ∷ []
          else [])
        ++ (if is_network
            then attribute "load_balancing.cross_zone.enabled" (boolean spec.nlb_cross_zone)
              ∷ attribute "dns_record.client_routing_policy" spec.nlb_zone_affinity
              ∷ []
            else [])
        ++ log_attributes

    -- `lb`
    unfoldable pub load_balancer_resource : Resource
    unfolding lb_attributes
    load_balancer_resource = load_balancer (record {
      attributes = lb_attributes;
      ip_address_type = ref parameter_ip_address_type;
      scheme = ref parameter_load_balancer_scheme;
      subnets = ref "LoadBalancerSubnetsParameter";
      tags = (literal "StackName", ref "AWS::StackName") ∷ [];
      security_groups =
          if is_network then none else some (ref parameter_load_balancer_security_group);
      type = if is_application || is_network then some (ref parameter_load_balancer_type) else none;
    })

    unfoldable pub with_load_balancer : Template → Template
    unfolding add_resource load_balancer_resource
    with_load_balancer = add_resource load_balancer_resource_logical_id load_balancer_resource

    unfoldable pub with_waf : Template → Template
    unfolding add_resource has_prefix
    with_waf t =
        if is_application && not (spec.waf_web_acl_id == "")
        then (if has_prefix spec.waf_web_acl_id "arn:aws:wafv2:"
            then add_resource "WAFAssociation"
                (wafv2_association (ref load_balancer_resource_logical_id)
                  (ref parameter_load_balancer_waf_web_acl_id))
                t
            else add_resource "WAFAssociation"
                (waf_regional_association (ref load_balancer_resource_logical_id)
                  (ref parameter_load_balancer_waf_web_acl_id))
                t)
        else t

  unfoldable pub alarm_resource : Alarm → Resource
  unfolding normalize_cloud_watch_alarm_name normalize_cloud_watch_alarm_namespace
      normalize_cloud_watch_alarm_dimensions
  alarm_resource alarm = cloud_watch_alarm (record {
    alarm_name = normalize_cloud_watch_alarm_name alarm.alarm_name;
    namespace = normalize_cloud_watch_alarm_namespace alarm.namespace;
    dimensions = normalize_cloud_watch_alarm_dimensions alarm.dimensions;
    other_fields = alarm.other_fields;
  })

  -- the loop over the alarms, by their index
  unfoldable pub with_alarms : ℕ → List Alarm → Template → Template
  unfolding add_resource alarm_resource
  with_alarms idx [] t = t
  with_alarms idx (alarm ∷ alarms) t =
      with_alarms (idx + 1) alarms
        (add_resource (String.◌++◌ "CloudWatchAlarm" (f.decimal idx)) (alarm_resource alarm) t)

  -- generateTemplate, before its JSON text is made
  unfoldable pub build_template : StackSpec → Template
  unfolding base_template with_http with_https with_load_balancer with_waf with_alarms
  build_template spec = with_alarms 0 spec.cw_alarms (
      with_waf spec (
        with_load_balancer spec
          (with_https f spec (with_http f spec (base_template f.decimal spec)))))

  -- `marshal` is json.MarshalIndent.
  unfoldable pub generate_template : {Result : Type 0} → (Template → Result) → StackSpec → Result
  unfolding build_template
  generate_template marshal spec = marshal (build_template spec)
