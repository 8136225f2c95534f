-- ===== src/Aws/Stack/Reading.antt =====
-- aws/cf.go: the reply about a stack made into a Stack (mapToManagedStack), which stacks the
-- controller manages (isManagedStack), and the calls that find them.
use kube_ingress_aws_control.Prelude.{
  String, Bool, false, not, ◌||◌, Option, none, some, List, [], ◌∷◌, ◌++◌, ◌==◌, keep, map,
  has_prefix, trim_prefix, Result, ok, err, if◌then◌else◌,
}
use Prim.Native.String
use kube_ingress_aws_control.Prelude.Dict.{Dict, lookup, insert, or_default}
use kube_ingress_aws_control.Certs.{Time}
use kube_ingress_aws_control.Aws.{
  cluster_id_tag, cluster_id_tag_prefix, resource_lifecycle_owned, kubernetes_creator_tag,
}
use kube_ingress_aws_control.Aws.Stack.{
  Stack, CfStack, convert_cloud_formation_tags, convert_stack_parameters, new_stack_output, at_key,
  target_group_arns, output_load_balancer_arn, output_load_balancer_dns_name,
}

abbrev pub certificate_arn_tag_legacy : String
certificate_arn_tag_legacy = "ingress:certificate-arn"

abbrev pub certificate_arn_tag_prefix : String
certificate_arn_tag_prefix = "ingress:certificate-arn/"

abbrev pub ingress_owner_tag : String
ingress_owner_tag = "ingress:owner"

abbrev pub cw_alarm_config_hash_tag : String
cw_alarm_config_hash_tag = "cloudwatch:alarm-config-hash"

abbrev pub parameter_load_balancer_scheme : String
parameter_load_balancer_scheme = "LoadBalancerSchemeParameter"

abbrev pub parameter_load_balancer_security_group : String
parameter_load_balancer_security_group = "LoadBalancerSecurityGroupParameter"

abbrev pub parameter_listener_ssl_policy : String
parameter_listener_ssl_policy = "ListenerSslPolicyParameter"

abbrev pub parameter_ip_address_type : String
parameter_ip_address_type = "IpAddressType"

abbrev pub parameter_load_balancer_type : String
parameter_load_balancer_type = "Type"

abbrev pub parameter_load_balancer_waf_web_acl_id : String
parameter_load_balancer_waf_web_acl_id = "LoadBalancerWAFWebACLIDParameter"

abbrev pub parameter_http2 : String
parameter_http2 = "HTTP2"

unfoldable pub is_managed_stack : List (String × String) → String → String → Bool
unfolding convert_cloud_formation_tags lookup
is_managed_stack cf_tags cluster_id controller_id =
    let tags = convert_cloud_formation_tags cf_tags in
    if not (at_key tags kubernetes_creator_tag == controller_id)
    then false
    else at_key tags (String.◌++◌ cluster_id_tag_prefix cluster_id) == resource_lifecycle_owned
      || at_key tags cluster_id_tag == cluster_id

-- `parse_time` is time.Parse with RFC 3339.
module _ (parse_time : String → Option Time) where
  -- what one tag adds to the certificates
  unfoldable pub read_tag : String → String → Dict Time → Dict Time
  unfolding insert has_prefix trim_prefix
  read_tag key value m =
      let certs =
        if has_prefix key certificate_arn_tag_prefix
        then insert (trim_prefix key certificate_arn_tag_prefix) (or_default 0 (parse_time value)) m
        else m in
      if key == certificate_arn_tag_legacy then insert value 0 certs else certs

  -- the loop over the tags
  unfoldable pub read_certificates : Dict String → Dict Time → Dict Time
  read_certificates [] m = m
  read_certificates ((key, value) ∷ tags) m = read_certificates tags (read_tag key value m)

  unfoldable pub map_to_managed_stack : CfStack → Stack
  unfolding convert_cloud_formation_tags convert_stack_parameters new_stack_output lookup
  map_to_managed_stack s =
      let outputs = new_stack_output s.outputs in
      let tags = convert_cloud_formation_tags s.tags in
      let parameters = convert_stack_parameters s.parameters in
      record {
        name = s.stack_name;
        status = s.stack_status;
        status_reason = s.stack_status_reason;
        load_balancer_arn = at_key outputs output_load_balancer_arn;
        dns_name = at_key outputs output_load_balancer_dns_name;
        scheme = at_key parameters parameter_load_balancer_scheme;
        security_group = at_key parameters parameter_load_balancer_security_group;
        ssl_policy = at_key parameters parameter_listener_ssl_policy;
        ip_address_type = at_key parameters parameter_ip_address_type;
        load_balancer_type = at_key parameters parameter_load_balancer_type;
        http2 = not (at_key parameters parameter_http2 == "false");
        owner_ingress = at_key tags ingress_owner_tag;
        cw_alarm_config_hash = at_key tags cw_alarm_config_hash_tag;
        target_group_arns = target_group_arns outputs;
        waf_web_acl_id = at_key parameters parameter_load_balancer_waf_web_acl_id;
        certificate_arns = read_certificates tags [];
        tags = tags;
      }

  -- findManagedStacks: the pages of the reply up to the first that is an error
  unfoldable pub find_managed_stacks :
      {E : Type 0} → List (Result E (List CfStack)) → String → String → Result E (List Stack)
  unfolding is_managed_stack
  find_managed_stacks [] cluster_id controller_id = ok []
  find_managed_stacks (err e ∷ pages) cluster_id controller_id = err e
  find_managed_stacks (ok stacks ∷ pages) cluster_id controller_id =
      elim (find_managed_stacks pages cluster_id controller_id) [
        | err e ↦ err e
        | ok rest ↦ ok (
            ◌++◌
              (map map_to_managed_stack
                (keep (λ s. is_managed_stack s.tags cluster_id controller_id) stacks))
              rest)
      ]

  -- getCFStackByName and getStack: the first stack of the reply, or no stack for any error
  unfoldable pub get_stack : {E : Type 0} → Result E (List CfStack) → Option Stack
  get_stack (err e) = none
  get_stack (ok []) = none
  get_stack (ok (s ∷ ss)) = some (map_to_managed_stack s)
