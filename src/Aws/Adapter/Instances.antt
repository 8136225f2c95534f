-- ===== src/Aws/Adapter/Instances.antt =====
-- aws/adapter.go: the instances and Auto Scaling groups that the adapter knows
-- (UpdateAutoScalingGroupsAndInstances, nonTargetedASGs).
pub mod Tracked
use kube_ingress_aws_control.Prelude.{
  String, Bool, true, false, not, Option, none, some, List, [], ◌∷◌, ◌++◌, keep, Result, ok, err,
  if◌then◌else◌,
}
use Prim.Native.String
use kube_ingress_aws_control.Prelude.Dict.{Dict, keys, insert, has_key}
use kube_ingress_aws_control.Aws.{cluster_id_tag_prefix, resource_lifecycle_owned}
use kube_ingress_aws_control.Aws.Asg.{
  AwsError, Group, AutoScalingGroupDetails, get_owned_and_targeted_auto_scaling_groups,
}
use kube_ingress_aws_control.Aws.Ec2.{
  AdapterError, wrapped, Ec2Api, InstanceDetails, get_instances_details_with_filters,
  get_auto_scaling_group_name,
}
use kube_ingress_aws_control.Aws.Adapter.{Adapter}

-- the identifiers of the single instances that EC2 does not name any more
abbrev pub gone : Dict InstanceDetails → Dict InstanceDetails → List String
gone ec2_details single_instances =
    keys (keep (λ e. not (has_key e.0 ec2_details)) single_instances)

-- newSingleInstances: those that it still names
abbrev pub still_there : Dict InstanceDetails → Dict InstanceDetails → Dict InstanceDetails
still_there ec2_details single_instances = keep (λ e. has_key e.0 ec2_details) single_instances

abbrev pub is_single : Result AdapterError String → Bool
is_single (ok name) = false
is_single (err e) = true

-- the loop that adds the instances without a group
unfoldable pub add_single :
    List (String × InstanceDetails) → Dict InstanceDetails → Dict InstanceDetails
unfolding insert get_auto_scaling_group_name
add_single [] m = m
add_single ((id, details) ∷ es) m =
    add_single es
      (if is_single (get_auto_scaling_group_name details.tags) then insert id details m else m)

-- the adapter once EC2 has answered
unfoldable pub with_instances : Adapter → Dict InstanceDetails → Adapter
unfolding add_single has_key
with_instances a ec2_details = record a {
  ec2_details = ec2_details;
  obsolete_instances = a.obsolete_instances ++ gone ec2_details a.single_instances;
  single_instances = add_single ec2_details (still_there ec2_details a.single_instances);
}

abbrev pub with_groups :
    Adapter
    → Result AwsError (Dict AutoScalingGroupDetails × Dict AutoScalingGroupDetails)
    → Adapter × Option AdapterError
with_groups a (ok (targeted, owned)) =
    (record a { targeted_auto_scaling_groups = targeted; owned_auto_scaling_groups = owned }, none)
with_groups a (err e) = (a, some (wrapped "" e))

-- A failing list of instances leaves an empty map of them behind.
abbrev pub with_answer :
    Adapter
    → List (Result AwsError (List Group))
    → Result AdapterError (Dict InstanceDetails)
    → Adapter × Option AdapterError
with_answer a pages (err e) = (record a { ec2_details = [] }, some e)
with_answer a pages (ok ec2_details) = with_groups (with_instances a ec2_details) (
    get_owned_and_targeted_auto_scaling_groups pages a.manifest.asg_filters
      ((String.◌++◌ cluster_id_tag_prefix a.manifest.cluster_id, resource_lifecycle_owned) ∷ []))

-- `pages` is what the Auto Scaling API answers.
unfoldable pub update_auto_scaling_groups_and_instances :
    Ec2Api → List (Result AwsError (List Group)) → Adapter → Adapter × Option AdapterError
unfolding with_instances get_instances_details_with_filters
    get_owned_and_targeted_auto_scaling_groups
update_auto_scaling_groups_and_instances ec2 pages a =
    with_answer a pages (get_instances_details_with_filters ec2 a.manifest.filters)

unfoldable pub non_targeted_asgs :
    Dict AutoScalingGroupDetails → Dict AutoScalingGroupDetails → Dict AutoScalingGroupDetails
unfolding has_key
non_targeted_asgs owned_asgs targeted_asgs = keep (λ e. not (has_key e.0 targeted_asgs)) owned_asgs
