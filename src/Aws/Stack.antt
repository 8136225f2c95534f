-- ===== src/Aws/Stack.antt =====
-- aws/cf.go: a CloudFormation stack as the controller sees it, and how it is read back. The reply of
-- the API holds the stack's parameters, outputs and tags as lists of pairs.
pub mod Reading
pub mod Spec
use kube_ingress_aws_control.Prelude.{
  ℕ, String, Bool, true, false, not, ◌&&◌, ◌||◌, Option, none, some, List, [], ◌∷◌, ◌++◌, ◌==◌, ltb,
  eqb, any, has_prefix, trim_prefix, if◌then◌else◌,
}
use kube_ingress_aws_control.Prelude.Dict.{Dict, lookup, insert, or_default, values}
use kube_ingress_aws_control.Certs.{Time}
use kube_ingress_aws_control.Aws.{
  cluster_id_tag, cluster_id_tag_prefix, resource_lifecycle_owned, kubernetes_creator_tag,
}

-- types.StackStatus, the values that the code names; any other by its text
pub data StackStatus : Type 0 where
  create_in_progress create_complete : StackStatus
  update_in_progress update_complete update_complete_cleanup_in_progress : StackStatus
  rollback_complete update_rollback_complete : StackStatus
  delete_in_progress delete_complete : StackStatus
  other_status : String → StackStatus

pub record Stack : Type 0 where
  pub name : String
  pub status : StackStatus
  pub status_reason : String
  pub load_balancer_arn : String
  pub dns_name : String
  pub scheme : String
  pub security_group : String
  pub ssl_policy : String
  pub ip_address_type : String
  pub load_balancer_type : String
  pub http2 : Bool
  pub owner_ingress : String
  pub cw_alarm_config_hash : String
  pub target_group_arns : List String
  pub waf_web_acl_id : String
  pub certificate_arns : Dict Time
  pub tags : Dict String

-- a *Stack, which may be nil
abbrev pub is_complete_status : StackStatus → Bool
is_complete_status create_complete = true
is_complete_status update_complete = true
is_complete_status rollback_complete = true
is_complete_status update_rollback_complete = true
is_complete_status _ = false

unfoldable pub is_complete : Option Stack → Bool
is_complete none = false
is_complete (some s) = is_complete_status s.status

-- t.IsZero() || t.After(now)
abbrev pub is_valid_until : Time → Time → Bool
is_valid_until now t = eqb t 0 || ltb now t

unfoldable pub should_delete : Time → Option Stack → Bool
should_delete now none = false
should_delete now (some s) = not (any (is_valid_until now) (values s.certificate_arns))

abbrev pub is_expected_status : StackStatus → Bool
is_expected_status create_in_progress = true
is_expected_status create_complete = true
is_expected_status update_in_progress = true
is_expected_status update_complete = true
is_expected_status update_complete_cleanup_in_progress = true
is_expected_status delete_in_progress = true
is_expected_status delete_complete = true
is_expected_status _ = false

-- The error of a stack: its status, and the reason if there is one.
pub data StackError : Type 0 where
  unexpected_status : StackStatus → StackError
  unexpected_status_reason : StackStatus → String → StackError

unfoldable pub stack_err : Option Stack → Option StackError
stack_err none = none
stack_err (some s) =
    if is_expected_status s.status
    then none
    else if not (s.status_reason == "")
    then some (unexpected_status_reason s.status s.status_reason)
    else some (unexpected_status s.status)

-- The reply of DescribeStacks about one stack; a nil text is the empty one (aws.ToString).
pub record CfStack : Type 0 where
  pub stack_name : String
  pub stack_status : StackStatus
  pub stack_status_reason : String
  pub outputs : List (String × String)
  pub parameters : List (String × String)
  pub tags : List (String × String)

-- A list of pairs as a map; of two entries with one key the later counts. It serves for
-- newStackOutput, convertStackParameters and convertCloudFormationTags, which are the same loop.
unfoldable pub to_map_from : Dict String → List (String × String) → Dict String
unfolding insert
to_map_from m [] = m
to_map_from m ((k, v) ∷ rest) = to_map_from (insert k v m) rest

unfoldable pub convert_cloud_formation_tags : List (String × String) → Dict String
unfolding to_map_from
convert_cloud_formation_tags = to_map_from []

unfoldable pub convert_stack_parameters : List (String × String) → Dict String
unfolding to_map_from
convert_stack_parameters = to_map_from []

unfoldable pub new_stack_output : List (String × String) → Dict String
unfolding to_map_from
new_stack_output = to_map_from []

-- m[k], the empty text if the key is missing
abbrev pub at_key : Dict String → String → String
at_key m k = or_default "" (lookup k m)

abbrev pub output_load_balancer_arn : String
output_load_balancer_arn = "LoadBalancerARN"

abbrev pub output_load_balancer_dns_name : String
output_load_balancer_dns_name = "LoadBalancerDNSName"

abbrev pub output_target_group_arn : String
output_target_group_arn = "TargetGroupARN"

abbrev pub output_http_target_group_arn : String
output_http_target_group_arn = "HTTPTargetGroupARN"

abbrev singleton : Option String → List String
singleton none = []
singleton (some s) = s ∷ []

unfoldable pub target_group_arns : Dict String → List String
unfolding lookup
target_group_arns o =
    singleton (lookup output_target_group_arn o)
    ++ singleton (lookup output_http_target_group_arn o)
