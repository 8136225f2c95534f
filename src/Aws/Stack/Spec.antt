-- ===== src/Aws/Stack/Spec.antt =====
-- aws/cf.go: what the controller asks of CloudFormation when it creates, updates or deletes a
-- stack. The template's text (aws/cf_template.go) and the API are parameters.
pub use kube_ingress_aws_control.Aws.StackSpec.{HealthCheck, StackSpec}
pub mod Tags
pub mod Keys
pub mod Created
pub mod RoundTrip
use kube_ingress_aws_control.Prelude.{
  ℕ, String, Bool, true, false, not, ◌&&◌, Option, none, some, List, [], ◌∷◌, ◌++◌, ◌==◌, eqb, map,
  Result, ok, err, if◌then◌else◌,
}
use Prim.Native.String
use kube_ingress_aws_control.Prelude.Dict.{Dict, insert}
use kube_ingress_aws_control.Certs.{Time, Duration}
use kube_ingress_aws_control.Aws.{
  cluster_id_tag_prefix, resource_lifecycle_owned, kubernetes_creator_tag,
}
use kube_ingress_aws_control.Aws.Stack.{to_map_from}
use kube_ingress_aws_control.Aws.LoadBalancer.{Alarm, hash}
use kube_ingress_aws_control.Aws.Stack.Reading.{
  certificate_arn_tag_prefix, ingress_owner_tag, cw_alarm_config_hash_tag,
  parameter_load_balancer_scheme, parameter_load_balancer_security_group,
  parameter_listener_ssl_policy, parameter_ip_address_type, parameter_load_balancer_type,
  parameter_load_balancer_waf_web_acl_id, parameter_http2,
}

-- How numbers and times are written: fmt.Sprintf("%d"), fmt.Sprintf("%.0f", d.Seconds()),
-- t.Format(time.RFC3339), and the hash of a JSON text.
pub record Formats : Type 0 where
  pub decimal : ℕ → String
  pub seconds : Duration → String
  pub format_time : Time → String
  pub sha256_hex : List Alarm → String

-- strings.Join
unfoldable pub join : String → List String → String
join sep [] = ""
join sep (s ∷ []) = s
join sep (s ∷ t ∷ ts) = String.◌++◌ s (String.◌++◌ sep (join sep (t ∷ ts)))

-- mergeTags of two maps: the later one wins
unfoldable pub merge_tags : Dict String → Dict String → Dict String
unfolding to_map_from
merge_tags a b = to_map_from (to_map_from [] a) b

unfoldable pub stack_tags : StackSpec → Dict String
stack_tags spec =
    (kubernetes_creator_tag, spec.controller_id)
    ∷ (String.◌++◌ cluster_id_tag_prefix spec.cluster_id, resource_lifecycle_owned)
    ∷ []

-- fmt.Sprintf("%t")
abbrev pub boolean : Bool → String
boolean true = "true"
boolean false = "false"

module _ (f : Formats) where
  abbrev pub certificate_tag : String × Time → String × String
  certificate_tag e = (String.◌++◌ certificate_arn_tag_prefix e.0, f.format_time e.1)

  abbrev pub owner_tags : StackSpec → List (String × String)
  owner_tags spec =
      if spec.owner_ingress == "" then [] else (ingress_owner_tag, spec.owner_ingress) ∷ []

  abbrev pub alarm_tags : List Alarm → List (String × String)
  alarm_tags [] = []
  alarm_tags (a ∷ as') = (cw_alarm_config_hash_tag, hash f.sha256_hex (a ∷ as')) ∷ []

  -- the tags that are appended to those of the cluster
  abbrev pub other_tags : StackSpec → List (String × String)
  other_tags spec =
      map certificate_tag spec.certificate_arns ++ (owner_tags spec ++ alarm_tags spec.cw_alarms)

  -- params.Tags, which is the same for both calls
  unfoldable pub all_tags : StackSpec → List (String × String)
  unfolding merge_tags stack_tags
  all_tags spec = merge_tags spec.tags (stack_tags spec) ++ other_tags spec

  abbrev pub health_check_parameters : Option HealthCheck → List (String × String)
  health_check_parameters none = []
  health_check_parameters (some h) =
      ("TargetGroupHealthCheckPathParameter", h.path)
      ∷ ("TargetGroupHealthCheckPortParameter", f.decimal h.port)
      ∷ ("TargetGroupHealthCheckIntervalParameter", f.seconds h.interval)
      ∷ ("TargetGroupHealthCheckTimeoutParameter", f.seconds h.timeout)
      ∷ []

  -- params.Parameters, which is the same for both calls
  unfoldable pub all_parameters : StackSpec → List (String × String)
  unfolding join
  all_parameters spec =
      ((parameter_load_balancer_scheme, spec.scheme)
        ∷ (parameter_load_balancer_security_group, spec.security_group_id)
        ∷ ("LoadBalancerSubnetsParameter", join "," spec.subnets)
        ∷ ("TargetGroupVPCIDParameter", spec.vpc_id)
        ∷ ("TargetGroupTargetPortParameter", f.decimal spec.target_port)
        ∷ (parameter_listener_ssl_policy, spec.ssl_policy)
        ∷ (parameter_ip_address_type, spec.ip_address_type)
        ∷ (parameter_load_balancer_type, spec.loadbalancer_type)
        ∷ (parameter_http2, boolean spec.http2)
        ∷ [])
      ++ (if spec.waf_web_acl_id == ""
          then []
          else (parameter_load_balancer_waf_web_acl_id, spec.waf_web_acl_id) ∷ [])
      ++ (if not spec.http_disabled && not (eqb spec.http_target_port spec.target_port)
          then ("TargetGroupHTTPTargetPortParameter", f.decimal spec.http_target_port) ∷ []
          else [])
      ++ health_check_parameters spec.health_check

pub record CreateStackInput : Type 0 where
  pub stack_name : String
  pub parameters : List (String × String)
  pub tags : List (String × String)
  pub template_body : String
  pub timeout_in_minutes : ℕ
  pub enable_termination_protection : Bool

pub record UpdateStackInput : Type 0 where
  pub stack_name : String
  pub parameters : List (String × String)
  pub tags : List (String × String)
  pub template_body : String

-- CloudFormationAPI, the calls that change something; a stack that fails to be created is deleted
-- (OnFailure).
pub record CloudFormationApi (E W : Type 0) : Type 0 where
  pub create : CreateStackInput → W → W × Result E String
  pub update : UpdateStackInput → W → W × Result E String
  pub update_termination_protection : String → Bool → W → W × Option E
  pub delete : String → W → W × Option E

module _ {E W : Type 0} (f : Formats) (api : CloudFormationApi E W) where
  -- The answer as the code returns it: the name or the id of the stack, and the error.
  abbrev answered : String → W × Result E String → W × (String × Option E)
  answered name (w, ok id) = (w, (id, none))
  answered name (w, err e) = (w, (name, some e))

  unfoldable pub create_stack : Result E String → StackSpec → W → W × (String × Option E)
  unfolding all_tags all_parameters
  create_stack (err e) spec w = (w, ("", some e))
  create_stack (ok template) spec w = answered spec.name (
      api.create
        (record {
          stack_name = spec.name;
          parameters = all_parameters f spec;
          tags = all_tags f spec;
          template_body = template;
          timeout_in_minutes = spec.timeout_in_minutes;
          enable_termination_protection = spec.stack_termination_protection;
        })
        w)

  -- the call of UpdateStack, unless the one before it has failed
  abbrev updated : String → StackSpec → W × Option E → W × (String × Option E)
  updated template spec (w, some e) = (w, (spec.name, some e))
  updated template spec (w, none) = answered spec.name (
      api.update
        (record {
          stack_name = spec.name;
          parameters = all_parameters f spec;
          tags = all_tags f spec;
          template_body = template;
        })
        w)

  unfoldable pub update_stack : Result E String → StackSpec → W → W × (String × Option E)
  unfolding all_tags all_parameters
  update_stack (err e) spec w = (w, ("", some e))
  update_stack (ok template) spec w = updated template spec (
      if spec.stack_termination_protection
      then api.update_termination_protection spec.name true w
      else (w, none))

module _ {E W : Type 0} (api : CloudFormationApi E W) where
  abbrev deleted : String → W × Option E → W × Option E
  deleted stack_name (w, some e) = (w, some e)
  deleted stack_name (w, none) = api.delete stack_name w

  unfoldable pub delete_stack : String → W → W × Option E
  delete_stack stack_name w =
      deleted stack_name (api.update_termination_protection stack_name false w)
