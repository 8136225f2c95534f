-- ===== src/Aws/Adapter/Targets.antt =====
-- aws/adapter.go: the target groups of the stacks on the Auto Scaling groups and on the instances
-- without a group (UpdateTargetGroupsAndAutoScalingGroups).
pub mod Obsolete
use kube_ingress_aws_control.Prelude.{
  String, Bool, Option, none, some, List, [], ◌∷◌, ◌++◌, Result, ok, err, if◌then◌else◌,
}
use Prim.Native.String
use kube_ingress_aws_control.Prelude.Dict.{Dict, lookup}
use kube_ingress_aws_control.Aws.{
  cluster_id_tag_prefix, resource_lifecycle_owned, kubernetes_creator_tag,
}
use kube_ingress_aws_control.Aws.Stack.{Stack}
use kube_ingress_aws_control.Aws.Asg.{
  AwsError, AutoScalingGroupDetails, categorize_target_type_instance,
}
use kube_ingress_aws_control.Aws.Asg.Targets.{
  TargetGroupApi, update_target_groups_for_auto_scaling_group,
}
use kube_ingress_aws_control.Aws.LoadBalancer.Targets.{
  TargetApi, register_targets_on_target_groups, deregister_targets_on_target_groups,
}
use kube_ingress_aws_control.Aws.Adapter.{Adapter, running_single_instances, target_type_ip}
use kube_ingress_aws_control.Aws.Adapter.Cni.{difference}
use kube_ingress_aws_control.Aws.Adapter.Instances.{non_targeted_asgs}

-- what is added to the problems
pub data TargetProblem : Type 0 where
  categorize_failed : AwsError → TargetProblem
  targeted_group_failed non_targeted_group_failed : String → AwsError → TargetProblem
  register_failed deregister_failed : List String → AwsError → TargetProblem

unfoldable pub all_target_group_arns : List Stack → List String
all_target_group_arns [] = []
all_target_group_arns (stack ∷ stacks) = stack.target_group_arns ++ all_target_group_arns stacks

-- the entry of a map of lists, nil if it has none
abbrev pub entries : Option (List String) → List String
entries none = []
entries (some arns) = arns

unfoldable pub ip_target_groups : Dict (List String) → List String
unfolding lookup
ip_target_groups target_types_arns = entries (lookup target_type_ip target_types_arns)

unfoldable pub owner_tags_of : Adapter → Dict String
owner_tags_of a =
    (String.◌++◌ cluster_id_tag_prefix a.manifest.cluster_id, resource_lifecycle_owned)
    ∷ (kubernetes_creator_tag, a.controller_id)
    ∷ []

-- The message to the channel of the CNI mode, the entry of the map as it is. The source's channel
-- holds 10 messages and a further send waits for the receiver, cniEventHandler; here the channel has no
-- limit, so the send is taken to be received.
unfoldable pub send_target_groups : Option (List String) → Adapter → Adapter
send_target_groups arns a =
    if a.target_cni.enabled
    then record a {
      target_cni = record a.target_cni {
        target_group_ch = a.target_cni.target_group_ch ++ arns ∷ [];
      };
    }
    else a

-- the problem of a call that failed
abbrev pub noted : (AwsError → TargetProblem) → Option AwsError → List TargetProblem
noted problem none = []
noted problem (some e) = problem e ∷ []

module _ {W : Type 0} (groups : TargetGroupApi W) (svc : TargetApi W) where
  -- the world and the problems so far
  abbrev pub Run : Type 0
  Run = W × List TargetProblem

  abbrev pub group_updated :
      (AwsError → TargetProblem)
      → List TargetProblem
      → Option (W × Option AwsError)
      → (Run → Option Run)
      → Option Run
  group_updated problem ps none rest = none
  group_updated problem ps (some (w, e)) rest = rest (w, ps ++ noted problem e)

  -- a loop over Auto Scaling groups
  unfoldable pub update_groups :
      (String → AwsError → TargetProblem)
      → List String
      → Dict String
      → Dict AutoScalingGroupDetails
      → Run
      → Option Run
  unfolding update_target_groups_for_auto_scaling_group
  update_groups problem arns owner_tags [] (w, ps) = some (w, ps)
  update_groups problem arns owner_tags ((key, asg) ∷ asgs) (w, ps) =
      group_updated (problem asg.name) ps
        (update_target_groups_for_auto_scaling_group groups asg.name arns owner_tags w)
        (update_groups problem arns owner_tags asgs)

  unfoldable pub register_running : List String → List String → Run → Run
  unfolding register_targets_on_target_groups
  register_running arns [] run = run
  register_running arns (id ∷ ids) (w, ps) =
      let (w', e) = register_targets_on_target_groups svc arns (id ∷ ids) w in
      (w', ps ++ noted (register_failed (id ∷ ids)) e)

  -- The obsolete instances are forgotten if they are deregistered everywhere.
  abbrev pub deregistered : Adapter → List TargetProblem → W × Option AwsError → Adapter × Run
  deregistered a ps (w, none) = (record a { obsolete_instances = [] }, (w, ps))
  deregistered a ps (w, some e) = (a, (w, ps ++ deregister_failed a.obsolete_instances e ∷ []))

  abbrev pub unless_no_instances : List String → Adapter × Run → Adapter × Run → Adapter × Run
  unless_no_instances [] same called = same
  unless_no_instances (id ∷ ids) same called = called

  unfoldable pub deregister_obsolete : List String → Adapter → Run → Adapter × Run
  unfolding deregister_targets_on_target_groups
  deregister_obsolete arns a (w, ps) =
      unless_no_instances a.obsolete_instances (a, (w, ps))
        (deregistered a ps (deregister_targets_on_target_groups svc arns a.obsolete_instances w))

  -- the calls about single instances, once the loops over the groups have ended
  abbrev pub update_instances : List String → Adapter → Option Run → Option (Adapter × Run)
  update_instances arns a none = none
  update_instances arns a (some run) =
      some (deregister_obsolete arns a (register_running arns (running_single_instances a) run))

  abbrev pub and_then_groups : Option Run → (Run → Option Run) → Option Run
  and_then_groups none next = none
  and_then_groups (some run) next = next run

  -- what follows the message to the channel; `arns` are the target groups without those of type ip
  unfoldable pub update_targets : List String → Adapter → Run → Option (Adapter × Run)
  unfolding update_groups non_targeted_asgs deregister_obsolete register_running
      running_single_instances owner_tags_of
  update_targets arns a run = update_instances arns a (
      and_then_groups
        (update_groups targeted_group_failed arns (owner_tags_of a) a.targeted_auto_scaling_groups
          run)
        (update_groups non_targeted_group_failed [] (owner_tags_of a)
          (non_targeted_asgs a.owned_auto_scaling_groups a.targeted_auto_scaling_groups)))

  abbrev pub update_categorized :
      List String → Result AwsError (Dict (List String)) → Adapter → Run → Option (Adapter × Run)
  update_categorized all_arns (err e) a (w, ps) = some (a, (w, ps ++ categorize_failed e ∷ []))
  update_categorized all_arns (ok target_types_arns) a run =
      update_targets (difference all_arns (ip_target_groups target_types_arns))
        (send_target_groups (lookup target_type_ip target_types_arns) a) run

  -- `none` if a loop's fuel ran out
  unfoldable pub update_target_groups_and_auto_scaling_groups :
      List Stack → Adapter → Run → Option (Adapter × Run)
  unfolding categorize_target_type_instance update_targets all_target_group_arns difference
      ip_target_groups send_target_groups
  update_target_groups_and_auto_scaling_groups stacks a (w, ps) =
      update_categorized (all_target_group_arns stacks)
        (categorize_target_type_instance (groups.target_group_pages w)
          (all_target_group_arns stacks))
        a (w, ps)
